-- ===== src/Tests/Chaining.antt =====
-- Routes over three nodes, of which node 2 multiplexes and node 3 cannot be reached.
use go_gost_x.Prelude.{
  arith, ◌+◌, suc, ℕ, ◌≡◌, refl, ◌==◌, Bool, [], ◌∷◌, none, some, if◌then◌else◌, map, pos,
}
use go_gost_x.Text.{split_host_port, bytes}
use go_gost_x.Selector.Filter.{default_max_fails}
use go_gost_x.Selector.Filter.Healthy.{healthy}
use go_gost_x.Hop.Node.{Node}
use go_gost_x.Hop.Select.{ChainHop}
use go_gost_x.Hop.Default.{Calls, default_hop, pick_by-Within, pick_by-Answers, default_filters}
use go_gost_x.Tests.Hopping.{insertion, sorts, view, nodes, calls}
use go_gost_x.Chain.Route.{Route, Hop, route, route_path}
use go_gost_x.Chain.Path.{chosen, IsSplit, route-chosen}
use go_gost_x.Chain.Hops.{hop_of, route_options, AllServe, route-AllServe}
use go_gost_x.Chain.Connect.{
  made, Links, opened, closed, mark, reset, mark_chain, reset_chain, connect, route_dial,
}
use go_gost_x.Chain.Connect.Marks.{Marked, connect-Marked}
use go_gost_x.Chain.Connect.Closed.{Released, route_dial-Released}
use go_gost_x.Chain.Dial.{Router, Outside, dial}
use go_gost_x.Chain.Dial.Attempts.{Tries, IsDial, dial-Tries}

abbrev multiplex : ℕ → Bool
multiplex n = n == 2

-- A hop with one node; the state counts the selections.
abbrev hop_with : ℕ → Hop ℕ ℕ
hop_with n network address host st = (some n, suc st)

route-chosen_example :
    (rt : Route ℕ) × ((route multiplex
        (bytes "tcp")
        []
        []
        (hop_with 1 ∷ hop_with 2 ∷ hop_with 3 ∷ [])
        0).0
      ≡ some rt)
    × (route_path rt ≡ chosen (bytes "tcp") [] [] (hop_with 1 ∷ hop_with 2 ∷ hop_with 3 ∷ []) 0)
    × IsSplit multiplex rt
route-chosen_example =
    route-chosen multiplex (bytes "tcp") [] [] (hop_with 1) (hop_with 2 ∷ hop_with 3 ∷ []) 0

abbrev default : ChainHop Calls
unfolding default_hop
default = default_hop view nodes none

route-AllServe_example :
    (rt : Route Node) × ((route
        (λ n. n.backup)
        (bytes "tcp")
        []
        (bytes "a.org")
        (map (hop_of insertion) (default ∷ []))
        calls).0
      ≡ some rt)
    × AllServe
        (healthy view default_max_fails)
        (route_options (bytes "tcp") [] (bytes "a.org"))
        (default ∷ [])
        (route_path rt)
unfolding default default_hop
route-AllServe_example =
    route-AllServe insertion sorts (healthy view default_max_fails) (bytes "tcp") [] (bytes "a.org")
      (λ n. n.backup) default [] calls
      ((pick_by-Within view default_filters, pick_by-Answers view), tt)

abbrev links : Links ℕ ℕ
links = record {
  resolve = λ n. if n == 3 then none else some [];
  dial = λ n addr. made 10;
  handshake = λ n c. made (c + 1);
  connect_to = λ n c network addr. made (c + 5);
}

-- Node 3 is not resolved after the nodes 1 and 2 are connected.
connected :
    (connect links 1 (2 ∷ 3 ∷ [])).1
    ≡ opened 10 none
      ∷ opened 11 (some 10)
      ∷ reset 1
      ∷ opened 16 (some 11)
      ∷ opened 17 (some 16)
      ∷ reset 2
      ∷ closed 17
      ∷ mark 3
      ∷ mark_chain
      ∷ []
unfolding connect
connected = refl

connect-Marked_example :
    Marked (reset_chain ∷ []) (mark_chain ∷ []) (1 ∷ 2 ∷ 3 ∷ []) (connect links 1 (2 ∷ 3 ∷ []))
connect-Marked_example = connect-Marked links 1 (2 ∷ 3 ∷ [])

route_dial-Released_example :
    Released links (route_dial links (λ network address. none) (1 ∷ 2 ∷ 3 ∷ []) (bytes "tcp") [])
route_dial-Released_example =
    route_dial-Released links (λ network address. none) (1 ∷ 2 ∷ 3 ∷ []) (bytes "tcp") []

abbrev router : Router ℕ ℕ
router = record {
  retries = pos 2;
  resolver = λ st. none;
  host_mapper = λ st. none;
  chain =
      some (λ network address host st. route multiplex network address host (hop_with 3 ∷ []) st);
}

abbrev outside : Outside ℕ ℕ ℕ
outside = record {
  links = λ st. links;
  note = λ st es. st;
  default = λ network address. none;
  join = λ ip port. [];
}

-- No attempt succeeds: the hop of the chain is asked three times.
attempts_made : (dial outside router (bytes "tcp") (bytes "a.org:80") [] 0).1 ≡ 3
unfolding dial split_host_port route
attempts_made = refl

dial-Tries_example :
    Tries
      (IsDial outside router (bytes "tcp") (bytes "a.org:80") [])
      3
      0
      (dial outside router (bytes "tcp") (bytes "a.org:80") [] 0)
dial-Tries_example =
    dial-Tries outside router (bytes "tcp") (bytes "a.org:80") [] 0 (omega arith, omega arith)
