-- ===== src/Chain/Connect/Marks.antt =====
-- What a connection over a route tells the markers.
use go_gost_x.Prelude.{◌≡◌, refl, ap, ◌∙◌, List, [], ◌∷◌, ◌++◌, Option, none, some, map}
use mathlib.Core.List.{append-nil, append_assoc}
use go_gost_x.Text.{Text, bytes}
use go_gost_x.Chain.Connect.{
  Made, made, failed, Links, Event, opened, closed, mark, reset, mark_chain, reset_chain, Trace,
  after, close_some, shake, join, reach, connect_rest, first_shake, first_dial, first_reach,
  verdict, connect,
}

module _ {N C : Type 0} where
  -- The calls of the markers among the events.
  abbrev pub marks : List (Event N C) → List (Event N C)
  marks [] = []
  marks (opened c p ∷ es) = marks es
  marks (closed c ∷ es) = marks es
  marks (mark n ∷ es) = mark n ∷ marks es
  marks (reset n ∷ es) = reset n ∷ marks es
  marks (mark_chain ∷ es) = mark_chain ∷ marks es
  marks (reset_chain ∷ es) = reset_chain ∷ marks es

  marks-append : (es fs : List (Event N C)) → marks (es ++ fs) ≡ marks es ++ marks fs
  marks-append [] fs = refl
  marks-append (opened c p ∷ es) fs = marks-append es fs
  marks-append (closed c ∷ es) fs = marks-append es fs
  marks-append (mark n ∷ es) fs = ap (λ us. mark n ∷ us) (marks-append es fs)
  marks-append (reset n ∷ es) fs = ap (λ us. reset n ∷ us) (marks-append es fs)
  marks-append (mark_chain ∷ es) fs = ap (λ us. mark_chain ∷ us) (marks-append es fs)
  marks-append (reset_chain ∷ es) fs = ap (λ us. reset_chain ∷ us) (marks-append es fs)

  close_some-marks : (c : Option C) (es : List (Event N C)) → marks (close_some c ++ es) ≡ marks es
  close_some-marks none es = refl
  close_some-marks (some c) es = refl

  -- With a connection each node has been reset; without one, the nodes before some node have, and
  -- that node has been marked. `end` is what follows, in either case.
  abbrev pub Marked : List (Event N C) → List (Event N C) → List N → Trace N C → Type 0
  Marked good bad ns (some c, es) = marks es ≡ map reset ns ++ good
  Marked good bad ns (none, es) =
      (done : List N) × (n : N) × (rest : List N) × (ns ≡ done ++ (n ∷ rest))
      × (marks es ≡ map reset done ++ (mark n ∷ bad))

  broken :
      (n : N) (ns : List N) (es : List (Event N C))
      → marks es ≡ mark n ∷ []
      → Marked [] [] (n ∷ ns) (none, es)
  broken n ns es e = ([], n, ns, refl, e)

  quiet :
      (ns : List N) (c : C) (p : Option C) (t : Trace N C)
      → Marked [] [] ns t
      → Marked [] [] ns (after (opened c p ∷ []) t)
  quiet ns c p (none, es) m = m
  quiet ns c p (some d, es) m = m

  onward :
      (n : N) (ns : List N) (c : C) (p : Option C) (t : Trace N C)
      → Marked [] [] ns t
      → Marked [] [] (n ∷ ns) (after (opened c p ∷ reset n ∷ []) t)
  onward n ns c p (none, es) (done, m, rest, e, q) =
      (n ∷ done, m, rest, ap (λ us. n ∷ us) e, ap (λ us. reset n ∷ us) q)
  onward n ns c p (some d, es) q = ap (λ us. reset n ∷ us) q

module _ {N C : Type 0} (links : Links N C) where
  shake-Marked :
      (node : N) (nodes : List N) (cn conn : C) (next : C → Trace N C) (m : Made C)
      → ((c : C) → Marked [] [] nodes (next c))
      → Marked [] [] (node ∷ nodes) (shake links node cn conn next m)
  shake-Marked node nodes cn conn next (failed shaken) h =
      broken node nodes (close_some shaken ++ (closed conn ∷ closed cn ∷ mark node ∷ []))
        (close_some-marks shaken (closed conn ∷ closed cn ∷ mark node ∷ []))
  shake-Marked node nodes cn conn next (made shaken) h =
      onward node nodes shaken (some conn) (next shaken) (h shaken)

  reach-Marked :
      (pre node : N) (nodes : List N) (cn : C) (next : C → Trace N C) (addr : Option Text)
      → ((c : C) → Marked [] [] nodes (next c))
      → Marked [] [] (node ∷ nodes) (reach links pre node cn next addr)
  reach-Marked pre node nodes cn next none h = broken node nodes (closed cn ∷ mark node ∷ []) refl
  reach-Marked pre node nodes cn next (some addr) h =
      joined (links.connect_to pre cn (bytes "tcp") addr)
    where
      joined : (m : Made C) → Marked [] [] (node ∷ nodes) (join links node cn next m)
      joined (failed conn) =
          broken node nodes (close_some conn ++ (closed cn ∷ mark node ∷ []))
            (close_some-marks conn (closed cn ∷ mark node ∷ []))
      joined (made conn) =
          quiet (node ∷ nodes) conn (some cn) _
            (shake-Marked node nodes cn conn next (links.handshake node conn) h)

  connect_rest-Marked :
      (pre : N) (nodes : List N) (cn : C) → Marked [] [] nodes (connect_rest links pre nodes cn)
  unfolding connect_rest
  connect_rest-Marked pre [] cn = refl
  connect_rest-Marked pre (node ∷ nodes) cn =
      reach-Marked pre node nodes cn (connect_rest links node nodes) (links.resolve node)
        (connect_rest-Marked node nodes)

  first_reach-Marked :
      (node : N) (nodes : List N) (next : C → Trace N C) (addr : Option Text)
      → ((c : C) → Marked [] [] nodes (next c))
      → Marked [] [] (node ∷ nodes) (first_reach links node next addr)
  first_reach-Marked node nodes next none h = broken node nodes (mark node ∷ []) refl
  first_reach-Marked node nodes next (some addr) h = dialled (links.dial node addr)
    where
      first_shaken :
          (conn : C) (m : Made C) → Marked [] [] (node ∷ nodes) (first_shake links node conn next m)
      first_shaken conn (failed cn) = broken node nodes (closed conn ∷ mark node ∷ []) refl
      first_shaken conn (made cn) = onward node nodes cn (some conn) (next cn) (h cn)

      dialled : (m : Made C) → Marked [] [] (node ∷ nodes) (first_dial links node next m)
      dialled (failed conn) = broken node nodes (mark node ∷ []) refl
      dialled (made conn) =
          quiet (node ∷ nodes) conn none _ (first_shaken conn (links.handshake node conn))

  verdict-Marked :
      (ns : List N) (t : Trace N C)
      → Marked [] [] ns t
      → Marked (reset_chain ∷ []) (mark_chain ∷ []) ns (verdict links t)
  verdict-Marked ns (none, es) (done, n, rest, e, q) = (
    done,
    n,
    rest,
    e,
    marks-append es _
        ∙ ap (λ us. us ++ (mark_chain ∷ [])) q
        ∙ append_assoc (map reset done) (mark n ∷ []) (mark_chain ∷ []),
  )
  verdict-Marked ns (some c, es) q =
      marks-append es _ ∙ ap (λ us. us ++ (reset_chain ∷ [])) (q ∙ append-nil (map reset ns))

  -- A connection over a route either is made, and then the marker of each node of the route is
  -- reset, in the order of the route, and at the end the chain's; or it fails at some node, and
  -- then the markers of the nodes before it are reset, its own is marked, at the end the chain's,
  -- and those of the nodes after it are not called.
  pub connect-Marked :
      (node : N) (nodes : List N)
      → Marked (reset_chain ∷ []) (mark_chain ∷ []) (node ∷ nodes) (connect links node nodes)
  unfolding connect
  connect-Marked node nodes = verdict-Marked (node ∷ nodes) _ (
      first_reach-Marked node nodes (connect_rest links node nodes) (links.resolve node)
        (connect_rest-Marked node nodes))
