-- ===== src/Chain/Route.antt =====
-- chain/chain.go: Chain.Route, and routePath of chain/router.go. A hop is its Select, on a state that
-- the hops share; `multiplex` is what the transport of a node answers to Multiplex.
use go_gost_x.Prelude.{Bool, List, [], ◌∷◌, ◌++◌, Option, none, some, if◌then◌else◌}
use go_gost_x.Text.{Text}

-- *chainRoute: the nodes in the order of addNode, each with the route of its transport, which is
-- nil or, in a copy of a multiplexing node, the route before it.
mutual
  pub data Route (N : Type 0) : Type 0 where
    empty : Route N
    add_node : Route N → N → Via N → Route N

  pub data Via (N : Type 0) : Type 0 where
    direct : Via N
    over : Route N → Via N

-- hop.Hop, with the network, the address and the host that Chain.Route asks it with.
abbrev pub Hop : Type 0 → Type 0 → Type 0
Hop S N = Text → Text → Text → S → Option N × S

module _ {N : Type 0} (multiplex : N → Bool) where
  abbrev pub extend : Route N → N → Route N
  extend rt n = if multiplex n then add_node empty n (over rt) else add_node rt n direct

  module _ {S : Type 0} where
    abbrev pub extend_or_stop : (Route N → S → Route N × S) → Route N → Option N × S → Route N × S
    extend_or_stop next rt (none, st) = (rt, st)
    extend_or_stop next rt (some n, st) = next (extend rt n) st

    -- The loop over the hops.
    unfoldable pub build : Text → Text → Text → List (Hop S N) → Route N → S → Route N × S
    build network address host [] rt st = (rt, st)
    build network address host (h ∷ hs) rt st =
        extend_or_stop (build network address host hs) rt (h network address host st)

    -- Chain.Route; none for a nil route.
    unfoldable pub route : Text → Text → Text → List (Hop S N) → S → Option (Route N) × S
    unfolding build
    route network address host [] st = (none, st)
    route network address host (h ∷ hs) st =
        let (rt, st') = build network address host (h ∷ hs) empty st in (some rt, st')

unfoldable mutual
  -- routePath
  pub route_path : {N : Type 0} → Route N → List N
  route_path empty = []
  route_path (add_node rt n via) = route_path rt ++ (via_path via ++ (n ∷ []))

  pub via_path : {N : Type 0} → Via N → List N
  via_path direct = []
  via_path (over rt) = route_path rt
