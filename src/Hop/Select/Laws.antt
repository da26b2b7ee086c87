-- ===== src/Hop/Select/Laws.antt =====
-- What the later stages of a selection make of the candidates.
use go_gost_x.Prelude.{
  ◌≡◌, refl, sym, ap, subst, Bool, true, false, not, ◌&&◌, List, [], ◌∷◌, ◌++◌, Option, none, some,
  if◌then◌else◌, ◌==◌, ◌≤ℤ◌, length, Memᴰ, all, any, arith,
}
use mathlib.Core.List.{append-nil}
use go_gost_x.Hop.Node.{Node}
use go_gost_x.Hop.Scan.{Pool}
use go_gost_x.Hop.Scan.Ranking.{at_most, at, IsRanked}
use go_gost_x.Hop.Tier.{
  Pick, is_backup_node, pick_from, or_later, try_tier, before, tiers, try_tiers,
}
use go_gost_x.Hop.Tier.Layers.{Descending, nodes_of, tiers-Layered, tiers-nodes_of}
use go_gost_x.Hop.Tier.Best.{contends, Best, Within, Answers, Settles, all-Memᴰ, try_tiers-Settles}
use go_gost_x.Hop.Select.{ℤ, shortcut, has_any_primary, choose}

-- What sort.Slice promises: the same nodes, and none of them before an earlier one.
abbrev pub Sorted : (Node → Node → Bool) → List Node → Type 0
Sorted less [] = Unit
Sorted less (n ∷ ns) = ((w : Node) → Memᴰ w ns → less w n ≡ false) × Sorted less ns

pub record Sorts (sort_slice : (Node → Node → Bool) → List Node → List Node) : Type 0 where
  pub sorted : (ns : List Node) → Sorted before (sort_slice before ns)
  pub kept : (ns : List Node) (w : Node) → Memᴰ w ns → Memᴰ w (sort_slice before ns)
  pub same : (ns : List Node) (w : Node) → Memᴰ w (sort_slice before ns) → Memᴰ w ns

Sorted-Descending : (ns : List Node) → Sorted before ns → Descending ns
Sorted-Descending [] s = tt
Sorted-Descending (n ∷ ns) (h, s) = ((λ w i. ground (arith, h w i)), Sorted-Descending ns s)

-- There are a backup and a primary.
abbrev pub mixed : List Node → Bool
mixed ns = any is_backup_node ns && any (λ n. not (is_backup_node n)) ns

mixed-all_backup :
    (b : Bool) (ns : List Node)
    → ((b && any (λ n. not (is_backup_node n)) ns) && all is_backup_node ns) ≡ false
mixed-all_backup b [] = ground arith
mixed-all_backup b (n ∷ ns) = ground (arith, mixed-all_backup b ns)

Settles-Memᴰ :
    (ok : Node → Bool) (primary : Bool) (us ns : List Node) (r : Option Node)
    → ((w : Node) → Memᴰ w us → Memᴰ w ns)
    → ((w : Node) → Memᴰ w ns → Memᴰ w us)
    → Settles ok primary us r
    → Settles ok primary ns r
Settles-Memᴰ ok primary us ns r to from (best, answer) = (best_there, λ w i. answer w (from w i))
  where
    best_there : (v : Node) → r ≡ some v → Best ok primary ns v
    best_there v e =
        let (i, high, u, j, c, le, ge) = best v e in
        (to v i, (λ w k. high w (from w k)), u, to u j, c, le, ge)

module _ {S : Type 0} (ok : Node → Bool) (sel : Option (Pick S)) (wi : Within sel)
    (an : Answers ok sel) where
  -- The candidates of one priority: one tier.
  level-Settles :
      (m : ℤ) (n : Node) (ns : List Node) (st : S)
      → all (at m) (n ∷ ns) ≡ true
      → Settles ok (mixed (n ∷ ns)) (n ∷ ns) (pick_from sel st (n, ns)).0
  unfolding try_tiers
  level-Settles m n ns st e =
      subst (λ us. Settles ok (mixed (n ∷ ns)) us (pick_from sel st (n, ns)).0)
        (append-nil (n ∷ ns))
        (subst (Settles ok (mixed (n ∷ ns)) ((n ∷ ns) ++ []))
          (one _ (mixed-all_backup (any is_backup_node (n ∷ ns)) (n ∷ ns)))
          (try_tiers-Settles ok sel wi an (mixed (n ∷ ns)) ((n, ns) ∷ []) st (level, below, tt)))
    where
      at_m : (w : Node) → Memᴰ w (n ∷ ns) → at m w ≡ true
      at_m w i = all-Memᴰ (at m) (n ∷ ns) w e i

      level : (w : Node) → Memᴰ w ns → n.priority ≤ℤ w.priority
      level w i = ground (arith, at_m w (Memᴰ.tail i), at_m n (Memᴰ.head refl))

      below : (w : Node) → Memᴰ w (ns ++ []) → w.priority ≤ℤ n.priority
      below w i =
          ground
            (arith, at_m w (Memᴰ.tail (subst (Memᴰ w) (append-nil ns) i)), at_m n (Memᴰ.head refl))

      end : (r : Option Node × S) → (or_later (λ st'. (none, st')) r).0 ≡ r.0
      end (none, st') = refl
      end (some v, st') = refl

      one :
          (b : Bool)
          → b ≡ false
          → (try_tier sel b (n, ns) (λ st'. (none, st')) st).0 ≡ (pick_from sel st (n, ns)).0
      one true h = cc
      one false h = end (pick_from sel st (n, ns))

  sorted-Settles :
      (sort_slice : (Node → Node → Bool) → List Node → List Node)
      → Sorts sort_slice
      → (primary : Bool) (ns : List Node) (st : S)
      → Settles ok primary ns (try_tiers sel primary (tiers (sort_slice before ns)) st).0
  sorted-Settles sort_slice s primary ns st =
      Settles-Memᴰ ok primary _ ns _ (λ w i. s.same ns w (subst (Memᴰ w) there i))
        (λ w i. subst (Memᴰ w) (sym there) (s.kept ns w i))
        (try_tiers-Settles ok sel wi an primary (tiers (sort_slice before ns)) st
          (tiers-Layered _ (Sorted-Descending _ (s.sorted ns))))
    where
      there : nodes_of (tiers (sort_slice before ns)) ≡ sort_slice before ns
      there = tiers-nodes_of (sort_slice before ns)

  refused : {v : Node} → none ≡ some v → ⊥
  refused e = cc

  some-Settles :
      (primary : Bool) (ns : List Node) (n : Node)
      → Best ok primary ns n
      → Settles ok primary ns (some n)
  some-Settles primary ns n b =
      ((λ v e. subst (Best ok primary ns) (some_same e) b), λ w i cw ow. (n, refl))
    where
      some_same : {v : Node} → some n ≡ some v → n ≡ v
      some_same e = cc

  single-Settles : (n : Node) → Settles ok (mixed (n ∷ [])) (n ∷ []) (some n)
  single-Settles n =
      some-Settles (mixed (n ∷ [])) (n ∷ []) n
        (Memᴰ.head refl, only, n, Memᴰ.head refl, ground arith, omega arith, omega arith)
    where
      only :
          (w : Node)
          → Memᴰ w (n ∷ [])
          → contends (mixed (n ∷ [])) w ≡ true
          → ok w ≡ true
          → w.priority ≤ℤ n.priority
      only w (Memᴰ.head q) cw ow = rw q (omega arith)
      only w (Memᴰ.tail i) cw ow = elim i [ ]

  top-Settles :
      (p : Pool)
      → IsRanked p
      → shortcut p ≡ true
      → Settles ok (mixed p.nodes) p.nodes p.max_pri_node
  top-Settles p r h =
      let (n, e, i, m) = r.top (ground (arith, h)) in
      subst (Settles ok (mixed p.nodes) p.nodes) (sym e) (
        some-Settles (mixed p.nodes) p.nodes n (
          i,
          (λ w k cw ow. ground (arith, all-Memᴰ (at_most p.max_priority) p.nodes w r.bounded k, m)),
          n,
          i,
          ground (arith, h, e),
          omega arith,
          omega arith,
        ))

  pub choose-Settles :
      (sort_slice : (Node → Node → Bool) → List Node → List Node)
      → Sorts sort_slice
      → (p : Pool) (ns : List Node) (st : S) → p.nodes ≡ ns
      → IsRanked p
      → Settles ok (mixed ns) ns (choose sort_slice sel p ns st).0
  unfolding choose
  choose-Settles sort_slice s p [] st e r = ((λ v q. absurd (refused q)), (λ w i. elim i [ ]))
  choose-Settles sort_slice s p (n ∷ []) st e r = single-Settles n
  choose-Settles sort_slice s p (n ∷ m ∷ ns) st e r =
      by_case (shortcut p) (p.max_pri_count == length p.nodes) refl refl
    where
      by_case :
          (b c : Bool)
          → shortcut p ≡ b
          → (p.max_pri_count == length p.nodes) ≡ c
          → Settles ok
              (mixed (n ∷ m ∷ ns))
              (n ∷ m ∷ ns)
              (if b
                then (p.max_pri_node, st)
                else if c
                then pick_from sel st (n, m ∷ ns)
                else try_tiers sel (has_any_primary p) (tiers (sort_slice before p.nodes)) st).0
      by_case true c h k =
          subst (λ us. Settles ok (mixed us) us p.max_pri_node) e (top-Settles p r h)
      by_case false true h k =
          level-Settles p.max_priority n (m ∷ ns) st
            (subst (λ us. all (at p.max_priority) us ≡ true) e (r.level (ground (arith, k))))
      by_case false false h k =
          subst
            (λ us.
              Settles ok (mixed us) us
                (try_tiers sel (has_any_primary p) (tiers (sort_slice before p.nodes)) st).0)
            e
            (subst
              (λ b.
                Settles ok b p.nodes
                  (try_tiers sel (has_any_primary p) (tiers (sort_slice before p.nodes)) st).0)
              (ap (λ b. b && any (λ n'. not (is_backup_node n')) p.nodes) r.flag)
              (sorted-Settles sort_slice s (has_any_primary p) p.nodes st))
