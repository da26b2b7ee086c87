-- ===== src/Hop/Group/Entry.antt =====
-- Which entry of a group answers.
use go_gost_x.Prelude.{◌≡◌, refl, ap, true, List, [], ◌∷◌, Option, none, some, Memᴰ}
use go_gost_x.Selector.Filter.Kept.{keep-Memᴰ, Memᴰ-keep}
use go_gost_x.Hop.Node.{Node, SelectOptions, request_of}
use go_gost_x.Hop.Group.{HopEntry, matched, eligible, chosen_or, choose_entry, select_group}

module _ {S : Type 0} where
  -- What a group's selector promises.
  abbrev pub Chooses : Option (S → List (HopEntry S) → Option (HopEntry S) × S) → Type 0
  Chooses none = Unit
  Chooses (some pick) =
      (st : S) (es : List (HopEntry S)) (e : HopEntry S) → (pick st es).0 ≡ some e → Memᴰ e es

  -- The answer is that of some entry of the list.
  abbrev FromEntry : SelectOptions → List (HopEntry S) → Option Node × S → Type 0
  FromEntry o es r = (e : HopEntry S) × (st : S) × Memᴰ e es × (r ≡ e.hop o st)

  choose_entry-FromEntry :
      (sel : Option (S → List (HopEntry S) → Option (HopEntry S) × S)) (o : SelectOptions)
      (es : List (HopEntry S)) (st : S)
      → Chooses sel
      → ((e : HopEntry S) × Memᴰ e es)
      → FromEntry o es (choose_entry sel o es st)
  choose_entry-FromEntry sel o [] st c (e, i) = elim i [ ]
  choose_entry-FromEntry sel o (e ∷ []) st c m = (e, st, Memᴰ.head refl, refl)
  choose_entry-FromEntry none o (e ∷ f ∷ es) st c m = (e, st, Memᴰ.head refl, refl)
  choose_entry-FromEntry (some pick) o (e ∷ f ∷ es) st c m = from (pick st (e ∷ f ∷ es)) refl
    where
      from :
          (r : Option (HopEntry S) × S)
          → pick st (e ∷ f ∷ es) ≡ r
          → FromEntry o (e ∷ f ∷ es) (chosen_or o e r)
      from (none, st') q = (e, st', Memᴰ.head refl, refl)
      from (some g, st') q = (g, st', c st (e ∷ f ∷ es) g (ap (λ x. x.0) q), refl)

  -- Where some entry of a group has no matcher or one that matches, the group answers what the hop
  -- of such an entry answers, whichever one its selector returns and also where it returns none. It
  -- needs a selector that returns one of the entries it is given, or nil.
  pub select_group-eligible :
      (sel : Option (S → List (HopEntry S) → Option (HopEntry S) × S)) (es : List (HopEntry S))
      (o : SelectOptions) (st : S) (w : HopEntry S)
      → Chooses sel
      → Memᴰ w es
      → matched w.matcher (request_of o) ≡ true
      → (e : HopEntry S) × (st' : S) × Memᴰ e es
        × (matched e.matcher (request_of o) ≡ true)
        × (select_group sel es o st ≡ e.hop o st')
  unfolding select_group eligible
  select_group-eligible sel es o st w c i q =
      let (e, st', j, r) =
        choose_entry-FromEntry sel o (eligible (request_of o) es) st c
          (w, Memᴰ-keep (λ x. matched x.matcher (request_of o)) w es i q) in
      let (k, m) = keep-Memᴰ (λ x. matched x.matcher (request_of o)) e es j in (e, st', k, m, r)
