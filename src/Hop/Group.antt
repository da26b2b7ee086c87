-- ===== src/Hop/Group.antt =====
-- hop/group.go: the choice of a hop among those of a group. A hop is its Select, on a state that the
-- hops and the group's selector share.
pub mod Entry
use go_gost_x.Prelude.{
  ◌≡◌, refl, sym, ap, subst, ◌∙◌, inl, inr, Bool, true, false, List, [], ◌∷◌, Option, none, some,
  if◌then◌else◌, Memᴰ, Bool-cases,
}
use go_gost_x.Selector.Filter.{keep}
use go_gost_x.Routing.Request.{Request}
use go_gost_x.Hop.Node.{Node, SelectOptions, request_of}

-- hop.Hop
abbrev pub Selects : Type 0 → Type 0
Selects S = SelectOptions → S → Option Node × S

-- *HopEntry
pub record HopEntry (S : Type 0) : Type 0 where
  pub hop : Selects S
  pub matcher : Option (Request → Bool)

abbrev pub matched : Option (Request → Bool) → Request → Bool
matched none req = true
matched (some m) req = m req

module _ {S : Type 0} where
  unfoldable pub eligible : Request → List (HopEntry S) → List (HopEntry S)
  eligible req es = keep (λ e. matched e.matcher req) es

  abbrev pub chosen_or : SelectOptions → HopEntry S → Option (HopEntry S) × S → Option Node × S
  chosen_or o first (none, st) = first.hop o st
  chosen_or o first (some e, st) = e.hop o st

  -- The selector is not called with a single entry; one that is nil chooses nothing.
  abbrev pub choose_entry :
      Option (S → List (HopEntry S) → Option (HopEntry S) × S)
      → SelectOptions
      → List (HopEntry S)
      → S
      → Option Node × S
  choose_entry sel o [] st = (none, st)
  choose_entry sel o (e ∷ []) st = e.hop o st
  choose_entry none o (e ∷ f ∷ es) st = e.hop o st
  choose_entry (some pick) o (e ∷ f ∷ es) st = chosen_or o e (pick st (e ∷ f ∷ es))

  unfoldable pub select_group :
      Option (S → List (HopEntry S) → Option (HopEntry S) × S)
      → List (HopEntry S)
      → SelectOptions
      → S
      → Option Node × S
  unfolding eligible
  select_group sel entries o st = choose_entry sel o (eligible (request_of o) entries) st
