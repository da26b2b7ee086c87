-- ===== src/Chain/Connect.antt =====
-- chain/route.go: chainRoute.connect. What the nodes do is a parameter: resolving, dialling, the
-- handshake, and the connection to the next node. The result comes with what happened, in its
-- order: connections made and closed, and the calls of the markers of the nodes and the chain (a
-- nil marker has no effect). Metrics are left out.
pub mod Standing
pub mod Marks
pub mod Closed
use go_gost_x.Prelude.{Bool, true, false, List, [], ◌∷◌, ◌++◌, Option, none, some}
use go_gost_x.Text.{Text, bytes}

-- A connection, or an error, with which a connection may come all the same.
pub data Made (C : Type 0) : Type 0 where
  made : C → Made C
  failed : Option C → Made C

-- xnet.Resolve for a node, and its transport.
pub record Links (N C : Type 0) : Type 0 where
  pub resolve : N → Option Text
  pub dial : N → Text → Made C
  pub handshake : N → C → Made C
  pub connect_to : N → C → Text → Text → Made C

pub data Event (N C : Type 0) : Type 0 where
  opened : C → Option C → Event N C
  closed : C → Event N C
  mark : N → Event N C
  reset : N → Event N C
  mark_chain : Event N C
  reset_chain : Event N C

abbrev pub Trace : Type 0 → Type 0 → Type 0
Trace N C = Option C × List (Event N C)

module _ {N C : Type 0} where
  abbrev pub after : List (Event N C) → Trace N C → Trace N C
  after es (r, fs) = (r, es ++ fs)

  -- Closing a connection that may be nil.
  abbrev pub close_some : Option C → List (Event N C)
  close_some none = []
  close_some (some c) = closed c ∷ []

module _ {N C : Type 0} (links : Links N C) where
  -- The error branches of a round of the loop.
  abbrev pub unresolved : N → C → Trace N C
  unresolved node cn = (none, closed cn ∷ mark node ∷ [])

  abbrev pub unconnected : N → C → Option C → Trace N C
  unconnected node cn conn = (none, close_some conn ++ (closed cn ∷ mark node ∷ []))

  abbrev pub unshaken : N → C → C → Option C → Trace N C
  unshaken node cn conn shaken =
      (none, close_some shaken ++ (closed conn ∷ closed cn ∷ mark node ∷ []))

  abbrev pub shake : N → C → C → (C → Trace N C) → Made C → Trace N C
  shake node cn conn next (failed shaken) = unshaken node cn conn shaken
  shake node cn conn next (made shaken) =
      after (opened shaken (some conn) ∷ reset node ∷ []) (next shaken)

  abbrev pub join : N → C → (C → Trace N C) → Made C → Trace N C
  join node cn next (failed conn) = unconnected node cn conn
  join node cn next (made conn) =
      after (opened conn (some cn) ∷ []) (shake node cn conn next (links.handshake node conn))

  abbrev pub reach : N → N → C → (C → Trace N C) → Option Text → Trace N C
  reach pre node cn next none = unresolved node cn
  reach pre node cn next (some addr) =
      join node cn next (links.connect_to pre cn (bytes "tcp") addr)

  -- The loop over the nodes after the first.
  unfoldable pub connect_rest : N → List N → C → Trace N C
  connect_rest pre [] cn = (some cn, [])
  connect_rest pre (node ∷ nodes) cn =
      reach pre node cn (connect_rest node nodes) (links.resolve node)

  abbrev pub first_shake : N → C → (C → Trace N C) → Made C → Trace N C
  first_shake node conn next (failed cn) = (none, closed conn ∷ mark node ∷ [])
  first_shake node conn next (made cn) = after (opened cn (some conn) ∷ reset node ∷ []) (next cn)

  abbrev pub first_dial : N → (C → Trace N C) → Made C → Trace N C
  first_dial node next (failed conn) = (none, mark node ∷ [])
  first_dial node next (made conn) =
      after (opened conn none ∷ []) (first_shake node conn next (links.handshake node conn))

  abbrev pub first_reach : N → (C → Trace N C) → Option Text → Trace N C
  first_reach node next none = (none, mark node ∷ [])
  first_reach node next (some addr) = first_dial node next (links.dial node addr)

  -- The deferred function, of a route that a chain built.
  abbrev pub verdict : Trace N C → Trace N C
  verdict (none, es) = (none, es ++ (mark_chain ∷ []))
  verdict (some c, es) = (some c, es ++ (reset_chain ∷ []))

  -- connect, for a route with the nodes `node ∷ nodes`.
  unfoldable pub connect : N → List N → Trace N C
  unfolding connect_rest
  connect node nodes = verdict (first_reach node (connect_rest node nodes) (links.resolve node))

  -- Dial of a route with nodes: the last of them makes the connection to the address.
  abbrev pub finish_dial : C → Made C → Trace N C
  finish_dial conn (failed c) = (none, closed conn ∷ [])
  finish_dial conn (made c) = (some c, opened c (some conn) ∷ [])

  abbrev pub dial_last : (C → Made C) → Trace N C → Trace N C
  dial_last last (none, es) = (none, es)
  dial_last last (some conn, es) = after es (finish_dial conn (last conn))

  -- getNode of the last index.
  abbrev pub last_node : N → List N → N
  last_node node [] = node
  last_node node (n ∷ nodes) = last_node n nodes

  -- chainRoute.Dial; `default` is the one of DefaultRoute.
  unfoldable pub route_dial : (Text → Text → Option C) → List N → Text → Text → Trace N C
  unfolding connect
  route_dial default [] network address = (default network address, [])
  route_dial default (node ∷ nodes) network address =
      dial_last (λ conn. links.connect_to (last_node node nodes) conn network address)
        (connect node nodes)
