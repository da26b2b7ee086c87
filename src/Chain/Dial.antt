-- ===== src/Chain/Dial.antt =====
-- chain/router.go: the attempts of Router.dial and Bind, on a state that the resolver, the chain and
-- the markers of the nodes share. The context, logs and socket options are left out.
pub mod Attempts
use go_gost_x.Prelude.{
  ℕ, zero, suc, Bool, true, false, not, ◌||◌, List, [], ◌∷◌, ◌++◌, Option, none, some,
  if◌then◌else◌, ◌-◌, ℤ, pos, pos_part, ◌+ℤ◌, leb_ℤ, int_64,
}
use go_gost_x.Text.{Text, bytes}
use go_gost_x.Chain.Route.{Route, empty, add_node, Via}
use go_gost_x.Chain.Group.{Routes}
use go_gost_x.Chain.Resolve.{Resolved, resolve}
use go_gost_x.Chain.Connect.{Links, Event, Trace, route_dial}

-- The result of an attempt: a connection or a listener, or nil; and whether there is an error.
pub record Outcome (C : Type 0) : Type 0 where
  pub conn : Option C
  pub failed : Bool

abbrev is_some : {C : Type 0} → Option C → Bool
is_some none = false
is_some (some c) = true

-- The condition to leave the loop.
abbrev pub settled : {C : Type 0} → Outcome C → Bool
settled o = is_some o.conn || not o.failed

abbrev pub leave : {S C : Type 0} → Bool → (S → Outcome C × S) → Outcome C × S → Outcome C × S
leave true more r = r
leave false more r = more r.1

module _ {S C : Type 0} (attempt : S → Outcome C × S) where
  -- The loop, after one attempt of `suc more`.
  unfoldable pub attempts : ℕ → S → Outcome C × S
  attempts zero st = attempt st
  attempts (suc more) st = let r = attempt st in leave (settled r.0) (attempts more) r

  -- With `count` attempts at most; Retries + 1 is an int, and may wrap.
  unfoldable pub retry : ℤ → S → Outcome C × S
  unfolding attempts int_64 ◌+ℤ◌
  retry retries st =
      let n = int_64 (retries +ℤ pos 1) in
      let count = if leb_ℤ n (pos 0) then pos 1 else n in attempts (pos_part count - 1) st

-- Nodes
abbrev pub route_nodes : {N : Type 0} → Route N → List N
route_nodes empty = []
route_nodes (add_node rt n via) = route_nodes rt ++ (n ∷ [])

abbrev pub nodes_or_none : {N : Type 0} → Option (Route N) → List N
nodes_or_none none = []
nodes_or_none (some rt) = route_nodes rt

abbrev pub outcome_of : {C : Type 0} → Option C → Outcome C
outcome_of none = record { conn = none; failed = true }
outcome_of (some c) = record { conn = some c; failed = false }

-- What the nodes and the network do: the links between nodes, what is left of the state after some
-- events, Dial of DefaultRoute, and net.JoinHostPort.
pub record Outside (S N C : Type 0) : Type 0 where
  pub links : S → Links N C
  pub note : S → List (Event N C) → S
  pub default : Text → Text → Option C
  pub join : List ℕ → Text → Text

-- The options of a router: Retries, Resolver, HostMapper and Chain; what the resolver and the host
-- mapper answer may depend on the state.
pub record Router (S N : Type 0) : Type 0 where
  pub retries : ℤ
  pub resolver : S → Option (Text → Text → Resolved)
  pub host_mapper : S → Option (Text → Text → List (List ℕ))
  pub chain : Option (Routes S N)

module _ {S N : Type 0} where
  abbrev pub route_of : Option (Routes S N) → Text → Text → Text → S → Option (Route N) × S
  route_of none network address host st = (none, st)
  route_of (some routes) network address host st = routes network address host st

-- A nil route and one without nodes.
abbrev pub no_nodes : {N : Type 0} → Option (Route N) → Bool
no_nodes none = true
no_nodes (some empty) = true
no_nodes (some (add_node rt n via)) = false

module _ {S N C : Type 0} where
  -- Dial of a route, the default one for a nil route.
  unfoldable pub dial_over : Outside S N C → Text → Text → Option (Route N) × S → Outcome C × S
  unfolding route_dial
  dial_over w network address (rt, st) =
      let (r, es) = route_dial (w.links st) w.default (nodes_or_none rt) network address in
      (outcome_of r, w.note st es)

  abbrev pub dial_resolved :
      (Text → Option (Route N) × S → Outcome C × S)
      → (Text → S → Option (Route N) × S)
      → Option Text
      → S
      → Outcome C × S
  dial_resolved dial_to routes_to none st = (outcome_of none, st)
  dial_resolved dial_to routes_to (some ip) st = dial_to ip (routes_to ip st)

  -- An attempt of dial: the route is chosen anew.
  unfoldable pub dial_once : Outside S N C → Router S N → Text → Text → Text → S → Outcome C × S
  unfolding dial_over resolve
  dial_once w r network address host st =
      dial_resolved (dial_over w network) (λ ip. route_of r.chain network ip host)
        (resolve w.join (r.host_mapper st) (r.resolver st) (bytes "ip") address) st

  -- Router.dial
  unfoldable pub dial : Outside S N C → Router S N → Text → Text → Text → S → Outcome C × S
  unfolding retry dial_once
  dial w r network address host st = retry (dial_once w r network address host) r.retries st

  abbrev pub bind_routed :
      (Option (Route N) → S → Outcome C × S) → Option (Route N) × S → Outcome C × S
  bind_routed bind_over (rt, st) = if no_nodes rt then (outcome_of none, st) else bind_over rt st

  -- An attempt of Bind: with a chain, a route without nodes is ErrEmptyRoute.
  unfoldable pub bind_once :
      (Option (Route N) → S → Outcome C × S) → Router S N → Text → Text → S → Outcome C × S
  bind_once bind_over r network address st = elim r.chain [
    | none ↦ bind_over none st
    | some routes ↦ bind_routed bind_over (routes network address [] st)
  ]

  -- Bind
  unfoldable pub bind :
      (Option (Route N) → S → Outcome C × S) → Router S N → Text → Text → S → Outcome C × S
  unfolding retry bind_once
  bind bind_over r network address st = retry (bind_once bind_over r network address) r.retries st
