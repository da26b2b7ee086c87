-- ===== src/Hop/Select/Best.antt =====
-- What a selection of a hop returns.
use go_gost_x.Prelude.{
  ◌≡◌, refl, subst, Bool, true, false, List, Option, none, some, if◌then◌else◌, Memᴰ,
}
use go_gost_x.Hop.Node.{Node, SelectOptions, bypassed_by}
use go_gost_x.Hop.Gate.{admitted}
use go_gost_x.Hop.Scan.{no_pool, scan}
use go_gost_x.Hop.Scan.Ranking.{
  candidates, scan-IsRanked, scan-nodes, candidates-Memᴰ, Memᴰ-candidates,
}
use go_gost_x.Hop.Tier.Best.{contends, Best, Within, Answers, Settles}
use go_gost_x.Hop.Select.{ChainHop, choose, select}
use go_gost_x.Hop.Select.Laws.{Sorts, mixed, choose-Settles}

module _ {S : Type 0} (sort_slice : (Node → Node → Bool) → List Node → List Node) (h : ChainHop S)
    (o : SelectOptions) where
  chosen : S → Option Node × S
  chosen st = let p = scan o no_pool h.nodes in choose sort_slice h.selector p p.nodes st

  chosen-Settles :
      (ok : Node → Bool) (st : S)
      → Sorts sort_slice
      → Within h.selector
      → Answers ok h.selector
      → Settles ok (mixed (candidates o h.nodes)) (candidates o h.nodes) (chosen st).0
  unfolding chosen
  chosen-Settles ok st s wi an =
      subst (λ ns. Settles ok (mixed ns) ns (chosen st).0) (scan-nodes o no_pool h.nodes)
        (choose-Settles ok h.selector wi an sort_slice s (scan o no_pool h.nodes) _ st refl
          (scan-IsRanked o h.nodes))

  select-cases :
      (b : Bool) (st : S) (v : Node)
      → (if b then (none, st) else chosen st).0 ≡ some v
      → (b ≡ false) × ((chosen st).0 ≡ some v)
  select-cases true st v e = cc
  select-cases false st v e = (refl, e)

module _ {S : Type 0} (sort_slice : (Node → Node → Bool) → List Node → List Node) where
  -- A selection returns a node only where the hop's bypass lets the address through, and then one
  -- of the hop's nodes that is not bypassed and passes its matcher or filter. No contender among
  -- such nodes that the selector does not refuse has a higher priority, and some contender has
  -- the node's priority: each node contends but a backup where there is a primary. It needs a
  -- selector that returns one of its candidates or nil and does not return nil with a candidate
  -- that it does not refuse, and a sort that sorts.
  pub select-Best :
      (ok : Node → Bool) (h : ChainHop S) (o : SelectOptions) (st : S) (v : Node)
      → Sorts sort_slice
      → Within h.selector
      → Answers ok h.selector
      → (select sort_slice h o st).0 ≡ some v
      → (bypassed_by h.bypass o ≡ false)
        × Memᴰ (some v) h.nodes
        × (admitted o v ≡ true)
        × Best ok (mixed (candidates o h.nodes)) (candidates o h.nodes) v
  unfolding select chosen
  select-Best ok h o st v s wi an e =
      let (open_hop, q) = select-cases sort_slice h o (bypassed_by h.bypass o) st v e in
      let best = (chosen-Settles sort_slice h o ok st s wi an).0 v q in
      let (i, a) = candidates-Memᴰ o h.nodes v best.0 in (open_hop, i, a, best)

  -- Where the hop's bypass lets the address through and one of its nodes is not bypassed, passes
  -- its matcher or filter, contends and is not refused by the selector, a selection returns a node.
  -- It needs the same of the selector and the sort.
  pub select-some :
      (ok : Node → Bool) (h : ChainHop S) (o : SelectOptions) (st : S) (w : Node)
      → Sorts sort_slice
      → Within h.selector
      → Answers ok h.selector
      → bypassed_by h.bypass o ≡ false
      → Memᴰ (some w) h.nodes
      → admitted o w ≡ true
      → contends (mixed (candidates o h.nodes)) w ≡ true
      → ok w ≡ true
      → (v : Node) × ((select sort_slice h o st).0 ≡ some v)
  unfolding select chosen
  select-some ok h o st w s wi an b i a c r =
      rw b ((chosen-Settles sort_slice h o ok st s wi an).1 w (Memᴰ-candidates o h.nodes w i a) c r)
