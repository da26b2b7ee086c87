-- ===== src/Hop/Tier/Best.antt =====
-- Which node the loop over the tiers returns.
use go_gost_x.Prelude.{
  ◌≡◌, refl, sym, ap, ◌∙◌, inl, inr, Bool, true, false, not, ◌&&◌, List, [], ◌∷◌, ◌++◌, Option,
  none, some, ◌≤ℤ◌, Memᴰ, Memᴰ-append_right, all, arith, Bool-cases,
}
use mathlib.Core.List.Memᴰ.{append_left, append_cases}
use go_gost_x.Hop.Node.{Node}
use go_gost_x.Hop.Tier.{
  Tier, is_backup_node, is_all_backup, Pick, pick_from, or_later, try_tier, try_tiers,
}
use go_gost_x.Hop.Tier.Layers.{nodes_of, Layered}

-- Where there is a primary, tiers of backups only are passed over.
abbrev pub contends : Bool → Node → Bool
contends primary n = not (primary && is_backup_node n)

-- Among candidates, a node is best: no contender that the selector does not refuse has a higher
-- priority, and some contender has its priority.
abbrev pub Best : (Node → Bool) → Bool → List Node → Node → Type 0
Best ok primary ns v =
    Memᴰ v ns
    × ((w : Node) → Memᴰ w ns → contends primary w ≡ true → ok w ≡ true → w.priority ≤ℤ v.priority)
    × (u : Node) × Memᴰ u ns
    × (contends primary u ≡ true)
    × (u.priority ≤ℤ v.priority)
    × (v.priority ≤ℤ u.priority)

-- A selector that is given returns a candidate, and does so where one of them is `ok`.
abbrev pub Within : {S : Type 0} → Option (Pick S) → Type 0
Within none = Unit
Within {S} (some pick) = (st : S) (ns : List Node) (v : Node) → (pick st ns).0 ≡ some v → Memᴰ v ns

abbrev pub Answers : {S : Type 0} → (Node → Bool) → Option (Pick S) → Type 0
Answers ok none = Unit
Answers {S} ok (some pick) =
    (st : S) (ns : List Node) (w : Node)
    → Memᴰ w ns
    → ok w ≡ true
    → (v : Node) × ((pick st ns).0 ≡ some v)

module _ {S : Type 0} where
  pub pick_from-Memᴰ :
      (sel : Option (Pick S)) (st : S) (n : Node) (ns : List Node) (v : Node)
      → Within sel
      → (pick_from sel st (n, ns)).0 ≡ some v
      → Memᴰ v (n ∷ ns)
  pick_from-Memᴰ none st n ns v h e = Memᴰ.head cc
  pick_from-Memᴰ (some pick) st n ns v h e = h st (n ∷ ns) v e

  pub pick_from-Answers :
      (ok : Node → Bool) (sel : Option (Pick S)) (st : S) (n : Node) (ns : List Node) (w : Node)
      → Answers ok sel
      → Memᴰ w (n ∷ ns)
      → ok w ≡ true
      → (v : Node) × ((pick_from sel st (n, ns)).0 ≡ some v)
  pick_from-Answers ok none st n ns w a i e = (n, refl)
  pick_from-Answers ok (some pick) st n ns w a i e = a st (n ∷ ns) w i e

pub all-Memᴰ :
    (f : Node → Bool) (ns : List Node) (w : Node) → all f ns ≡ true → Memᴰ w ns → f w ≡ true
all-Memᴰ f [] w e i = elim i [ ]
all-Memᴰ f (n ∷ ns) w e (Memᴰ.head q) = ap f q ∙ ground (arith, e)
all-Memᴰ f (n ∷ ns) w e (Memᴰ.tail i) = all-Memᴰ f ns w (ground (arith, e)) i

not_all-Memᴰ :
    (f : Node → Bool) (ns : List Node) → all f ns ≡ false → (w : Node) × Memᴰ w ns × (f w ≡ false)
not_all-Memᴰ f [] e = cc
not_all-Memᴰ f (n ∷ ns) e = elim (Bool-cases (f n)) [
  | inl q ↦ let (w, i, p) = not_all-Memᴰ f ns (ground (arith, e, q)) in (w, Memᴰ.tail i, p)
  | inr q ↦ (n, Memᴰ.head refl, q)
]

refused : {v : Node} → none ≡ some v → ⊥
refused e = cc

-- A tier that is passed over has no contender, and another one has.
passed :
    (primary : Bool) (t : Tier) (w : Node)
    → (primary && is_all_backup t) ≡ true
    → Memᴰ w (t.0 ∷ t.1)
    → contends primary w ≡ false
passed false (n, ns) w e i = absurd (ground arith)
passed true (n, ns) w e i = ap not (all-Memᴰ is_backup_node (n ∷ ns) w e i)

tried :
    (primary : Bool) (t : Tier)
    → (primary && is_all_backup t) ≡ false
    → (u : Node) × Memᴰ u (t.0 ∷ t.1) × (contends primary u ≡ true)
tried false (n, ns) e = (n, Memᴰ.head refl, refl)
tried true (n, ns) e = let (u, i, p) = not_all-Memᴰ is_backup_node (n ∷ ns) e in (u, i, ap not p)

-- The result is best, if there is one, and there is one where the selector has a contender that it
-- does not refuse.
abbrev pub Settles : (Node → Bool) → Bool → List Node → Option Node → Type 0
Settles ok primary ns r =
    ((v : Node) → r ≡ some v → Best ok primary ns v)
    × ((w : Node) → Memᴰ w ns → contends primary w ≡ true → ok w ≡ true → (v : Node) × (r ≡ some v))

-- A tier without a result leaves it to the later ones.
Settles-later :
    (ok : Node → Bool) (primary : Bool) (us ns : List Node) (r : Option Node)
    → ((w : Node) → Memᴰ w us → contends primary w ≡ true → ok w ≡ true → ⊥)
    → Settles ok primary ns r
    → Settles ok primary (us ++ ns) r
Settles-later ok primary us ns r none_here (best, answer) = (best_all, answer_all)
  where
    best_all : (v : Node) → r ≡ some v → Best ok primary (us ++ ns) v
    best_all v e =
        let (i, high, u, j, c, le, ge) = best v e in
        (
          Memᴰ-append_right us i,
          (λ w k cw ow. elim (append_cases us k) [
            | inl k' ↦ absurd (none_here w k' cw ow)
            | inr k' ↦ high w k' cw ow
          ]),
          u,
          Memᴰ-append_right us j,
          c,
          le,
          ge,
        )

    answer_all :
        (w : Node)
        → Memᴰ w (us ++ ns)
        → contends primary w ≡ true
        → ok w ≡ true
        → (v : Node) × (r ≡ some v)
    answer_all w k cw ow = elim (append_cases us k) [
      | inl k' ↦ absurd (none_here w k' cw ow)
      | inr k' ↦ answer w k' cw ow
    ]

module _ {S : Type 0} (ok : Node → Bool) (sel : Option (Pick S)) (wi : Within sel)
    (an : Answers ok sel) (primary : Bool) where
  -- What the selector returns of a tier that is tried.
  tier-Best :
      (n : Node) (ns : List Node) (ts : List Tier) (v : Node)
      → Layered ((n, ns) ∷ ts)
      → (primary && is_all_backup (n, ns)) ≡ false
      → Memᴰ v (n ∷ ns)
      → Best ok primary (nodes_of ((n, ns) ∷ ts)) v
  tier-Best n ns ts v (level, below, l) e i =
      let (u, j, c) = tried primary (n, ns) e in
      (
        append_left (nodes_of ts) i,
        (λ w k cw ow. at_top w v (n_le v i) k),
        u,
        append_left (nodes_of ts) j,
        c,
        at_top u v (n_le v i) (append_left (nodes_of ts) j),
        at_top v u (n_le u j) (append_left (nodes_of ts) i),
      )
    where
      n_le : (w : Node) → Memᴰ w (n ∷ ns) → n.priority ≤ℤ w.priority
      n_le w (Memᴰ.head q) = rw q (omega arith)
      n_le w (Memᴰ.tail k) = level w k

      at_top :
          (w x : Node)
          → n.priority ≤ℤ x.priority
          → Memᴰ w (n ∷ (ns ++ nodes_of ts))
          → w.priority ≤ℤ x.priority
      at_top w x h (Memᴰ.head q) = rw q h
      at_top w x h (Memᴰ.tail k) = omega (arith, below w k)

  pub try_tiers-Settles :
      (ts : List Tier) (st : S)
      → Layered ts
      → Settles ok primary (nodes_of ts) (try_tiers sel primary ts st).0
  unfolding try_tiers
  try_tiers-Settles [] st l = ((λ v e. cc), (λ w i. elim i [ ]))
  try_tiers-Settles ((n, ns) ∷ ts) st l = tries (λ st'. try_tiers-Settles ts st' l.2) _ refl
    where
      Later : Type 0
      Later = (st' : S) → Settles ok primary (nodes_of ts) (try_tiers sel primary ts st').0

      picked :
          Later
          → (r : Option Node × S) → (primary && is_all_backup (n, ns)) ≡ false
          → pick_from sel st (n, ns) ≡ r
          → Settles ok primary (nodes_of ((n, ns) ∷ ts)) (or_later (try_tiers sel primary ts) r).0
      picked ih (none, st') e q =
          Settles-later ok primary (n ∷ ns) (nodes_of ts) _
            (λ w i cw ow.
              refused (sym (ap (λ x. x.0) q) ∙ (pick_from-Answers ok sel st n ns w an i ow).1))
            (ih st')
      picked ih (some v, st') e q = (
        (λ v' p. tier-Best n ns ts v' l e (pick_from-Memᴰ sel st n ns v' wi (ap (λ x. x.0) q ∙ p))),
        (λ w i cw ow. (v, refl)),
      )

      tries :
          Later
          → (b : Bool) → (primary && is_all_backup (n, ns)) ≡ b
          → Settles ok primary
              (nodes_of ((n, ns) ∷ ts))
              (try_tier sel b (n, ns) (try_tiers sel primary ts) st).0
      tries ih true e =
          Settles-later ok primary (n ∷ ns) (nodes_of ts) _
            (λ w i cw ow. ground (arith, passed primary (n, ns) w e i, cw)) (ih st)
      tries ih false e = picked ih _ e refl
