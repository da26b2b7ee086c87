-- ===== src/Chain/Hops.antt =====
-- A chain of the hops of hop/hop.go.
use go_gost_x.Prelude.{
  ◌≡◌, refl, sym, ap, subst, Bool, true, false, List, [], ◌∷◌, Option, none, some, Memᴰ, All, map,
}
use go_gost_x.Text.{Text}
use go_gost_x.Hop.Node.{Node, SelectOptions, bypassed_by}
use go_gost_x.Hop.Gate.{admitted}
use go_gost_x.Hop.Scan.Ranking.{candidates}
use go_gost_x.Hop.Tier.Best.{Best, Within, Answers}
use go_gost_x.Hop.Select.{ChainHop, select}
use go_gost_x.Hop.Select.Laws.{Sorts, mixed}
use go_gost_x.Hop.Select.Best.{select-Best}
use go_gost_x.Chain.Route.{Route, Hop, route, route_path}
use go_gost_x.Chain.Path.{chosen_with, chosen, route-chosen}

-- The options that Chain.Route gives.
abbrev pub route_options : Text → Text → Text → SelectOptions
route_options network address host = record {
  network = network;
  addr = address;
  client_ip = none;
  host = host;
  protocol = [];
  method = [];
  path = [];
  query = none;
  header = none;
  body = [];
}

module _ (sort_slice : (Node → Node → Bool) → List Node → List Node) {S : Type 0} where
  abbrev pub hop_of : ChainHop S → Hop S Node
  hop_of h network address host st = select sort_slice h (route_options network address host) st

module _ {S : Type 0} (ok : Node → Bool) (o : SelectOptions) where
  -- A node may stand for a hop in a route: what a selection of the hop returns.
  abbrev pub Serves : ChainHop S → Node → Type 0
  Serves h n =
      (bypassed_by h.bypass o ≡ false)
      × Memᴰ (some n) h.nodes
      × (admitted o n ≡ true)
      × Best ok (mixed (candidates o h.nodes)) (candidates o h.nodes) n

  -- Each node serves the hop at its place; the last hops may lack one.
  abbrev pub AllServe : List (ChainHop S) → List Node → Type 0
  AllServe hs [] = Unit
  AllServe [] (n ∷ ns) = ⊥
  AllServe (h ∷ hs) (n ∷ ns) = Serves h n × AllServe hs ns

abbrev pub Selecting : {S : Type 0} → (Node → Bool) → ChainHop S → Type 0
Selecting ok h = Within h.selector × Answers ok h.selector

module _ (sort_slice : (Node → Node → Bool) → List Node → List Node) (s : Sorts sort_slice)
    {S : Type 0} (ok : Node → Bool) (network address host : Text) where
  chosen-AllServe :
      (hs : List (ChainHop S)) (st : S)
      → All (Selecting ok) hs
      → AllServe ok
          (route_options network address host)
          hs
          (chosen network address host (map (hop_of sort_slice) hs) st)
  unfolding chosen
  chosen-AllServe [] st l = tt
  chosen-AllServe (h ∷ hs) st ((wi, an), l) = by_case _ refl (λ st'. chosen-AllServe hs st' l)
    where
      by_case :
          (r : Option Node × S)
          → hop_of sort_slice h network address host st ≡ r
          → ((st' : S)
              → AllServe ok
                  (route_options network address host)
                  hs
                  (chosen network address host (map (hop_of sort_slice) hs) st'))
          → AllServe ok (route_options network address host) (h ∷ hs) (
              chosen_with network address host
                (chosen network address host (map (hop_of sort_slice) hs))
                r)
      by_case (none, st') e ih = tt
      by_case (some n, st') e ih =
          (select-Best sort_slice ok h _ st n s wi an (ap (λ x. x.0) e), ih st')

  -- The route of a chain of hops goes through nodes each of which serves the hop at its place:
  -- an admitted node of a hop that is not bypassed, best among the hop's admitted nodes. It needs
  -- that each hop's selector returns one of its candidates or nil, and does not return nil with a
  -- candidate that it does not refuse, and a sort that sorts.
  pub route-AllServe :
      (multiplex : Node → Bool) (h : ChainHop S) (hs : List (ChainHop S)) (st : S)
      → All (Selecting ok) (h ∷ hs)
      → (rt : Route Node) × ((route multiplex network address host
            (map (hop_of sort_slice) (h ∷ hs))
            st).0
          ≡ some rt)
        × AllServe ok (route_options network address host) (h ∷ hs) (route_path rt)
  route-AllServe multiplex h hs st l =
      let (rt, e, p, i) =
        route-chosen multiplex network address host (hop_of sort_slice h)
          (map (hop_of sort_slice) hs) st in
      (
        rt,
        e,
        subst (AllServe ok (route_options network address host) (h ∷ hs)) (sym p)
            (chosen-AllServe (h ∷ hs) st l),
      )
