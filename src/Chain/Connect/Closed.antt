-- ===== src/Chain/Connect/Closed.antt =====
-- What becomes of the connections that are opened on the way.
use go_gost_x.Prelude.{
  ◌⊎◌, sym, ◌≡◌, refl, subst, List, [], ◌∷◌, ◌++◌, Option, none, some, Memᴰ, inl, inr,
}
use mathlib.Core.List.Memᴰ.{append_left, append_right, append_cases}
use go_gost_x.Text.{Text, bytes}
use go_gost_x.Chain.Connect.{
  finish_dial, dial_last, reset_chain, route_dial, Made, made, failed, Links, Event, opened, closed,
  mark_chain, Trace, after, close_some, shake, join, reach, connect_rest, first_shake, first_dial,
  first_reach, verdict, connect,
}
use go_gost_x.Chain.Connect.Standing.{
  StandsOn, itself, one_more, itself, one_more, AllReleased, IsOnAll, StandsOn-mono, Leakless,
  opened-eq, AllReleased-opened, IsOnAll-opened, AllReleased-mono, after-opened, after_both,
  Quiet-closed, Quiet-mark, Quiet-close_some, fails,
}

module _ {N C : Type 0} (links : Links N C) where
  shake-Leakless :
      (node : N) (cn conn : C) (next : C → Trace N C) (m : Made C)
      → ((c : C) → Leakless c (next c))
      → Leakless conn (shake links node cn conn next m)
  shake-Leakless node cn conn next (failed shaken) h =
      fails conn _ (append_right (close_some shaken) (Memᴰ.head refl))
        (Quiet-close_some shaken _ (Quiet-closed conn _ (Quiet-closed cn _ (Quiet-mark node))))
  shake-Leakless node cn conn next (made shaken) h =
      after_both conn shaken node (next shaken) (h shaken)

  reach-Leakless :
      (pre node : N) (cn : C) (next : C → Trace N C) (addr : Option Text)
      → ((c : C) → Leakless c (next c))
      → Leakless cn (reach links pre node cn next addr)
  reach-Leakless pre node cn next none h =
      fails cn _ (Memᴰ.head refl) (Quiet-closed cn _ (Quiet-mark node))
  reach-Leakless pre node cn next (some addr) h =
      joined (links.connect_to pre cn (bytes "tcp") addr)
    where
      joined : (m : Made C) → Leakless cn (join links node cn next m)
      joined (failed conn) =
          fails cn _ (append_right (close_some conn) (Memᴰ.head refl))
            (Quiet-close_some conn _ (Quiet-closed cn _ (Quiet-mark node)))
      joined (made conn) =
          after-opened cn conn _ (shake-Leakless node cn conn next (links.handshake node conn) h)

  connect_rest-Leakless :
      (pre : N) (nodes : List N) (cn : C) → Leakless cn (connect_rest links pre nodes cn)
  unfolding connect_rest
  connect_rest-Leakless pre [] cn = (itself, λ c p i. elim i [ ])
  connect_rest-Leakless pre (node ∷ nodes) cn =
      reach-Leakless pre node cn (connect_rest links node nodes) (links.resolve node)
        (connect_rest-Leakless node nodes)

  -- A failure releases what was opened, and a connection that is returned stands on it.
  abbrev pub Released : Trace N C → Type 0
  Released (none, es) = AllReleased es
  Released (some d, es) = IsOnAll es d

  first_reach-Released :
      (node : N) (next : C → Trace N C) (addr : Option Text)
      → ((c : C) → Leakless c (next c))
      → Released (first_reach links node next addr)
  first_reach-Released node next none h = λ c p i. absurd (Quiet-mark node c p i)
  first_reach-Released node next (some addr) h = dialled (links.dial node addr)
    where
      shaken : (conn : C) (m : Made C) → Leakless conn (first_shake links node conn next m)
      shaken conn (failed cn) =
          fails conn _ (Memᴰ.head refl) (Quiet-closed conn _ (Quiet-mark node))
      shaken conn (made cn) = after_both conn cn node (next cn) (h cn)

      opens :
          (conn : C) (t : Trace N C) → Leakless conn t → Released (after (opened conn none ∷ []) t)
      opens conn (none, es) (r, all) = AllReleased-opened conn none es r all
      opens conn (some c, es) (s, on) = IsOnAll-opened conn none c es s on

      dialled : (m : Made C) → Released (first_dial links node next m)
      dialled (failed conn) = λ c p i. absurd (Quiet-mark node c p i)
      dialled (made conn) = opens conn _ (shaken conn (links.handshake node conn))

  -- Further events.
  earlier :
      (es : List (Event N C)) (e : Event N C)
      → ((c : C) (p : Option C) → e ≡ opened c p → ⊥)
      → (c : C) (p : Option C) → Memᴰ (opened c p) (es ++ (e ∷ []))
      → Memᴰ (opened c p) es
  earlier es e h c p i = by_case (append_cases es i)
    where
      by_case : Memᴰ (opened c p) es ⊎ Memᴰ (opened c p) (e ∷ []) → Memᴰ (opened c p) es
      by_case (inl j) = j
      by_case (inr (Memᴰ.head q)) = absurd (h c p (sym q))
      by_case (inr (Memᴰ.tail j)) = elim j [ ]

  Released-more :
      (r : Option C) (es : List (Event N C)) (e : Event N C)
      → ((c : C) (p : Option C) → e ≡ opened c p → ⊥)
      → Released (r, es)
      → Released (r, es ++ (e ∷ []))
  Released-more none es e h all =
      AllReleased-mono es _ (λ x. append_left (e ∷ [])) (earlier es e h) all
  Released-more (some d) es e h on =
      λ c p i. StandsOn-mono es _ c d (λ x. append_left (e ∷ [])) (on c p (earlier es e h c p i))

  verdict-Released : (t : Trace N C) → Released t → Released (verdict links t)
  verdict-Released (none, es) r = Released-more none es mark_chain (λ c p e. cc) r
  verdict-Released (some d, es) r = Released-more (some d) es reset_chain (λ c p e. cc) r

  connect-Released : (node : N) (nodes : List N) → Released (connect links node nodes)
  unfolding connect
  connect-Released node nodes = verdict-Released _ (
      first_reach-Released node (connect_rest links node nodes) (links.resolve node)
        (connect_rest-Leakless node nodes))

  dial_last-Released :
      (last : C → Made C) (t : Trace N C) → Released t → Released (dial_last links last t)
  dial_last-Released last (none, es) r = r
  dial_last-Released last (some conn, es) on = finished (last conn)
    where
      finished : (m : Made C) → Released (after es (finish_dial links conn m))
      finished (failed c) = λ b p i. (
        conn,
        StandsOn-mono es _ b conn (λ x. append_left (closed conn ∷ []))
            (on b p (earlier es (closed conn) (λ c' q e. cc) b p i)),
        append_right es (Memᴰ.head refl),
      )
      finished (made c) = λ b p i. under b p (append_cases es i)
        where
          under :
              (b : C) (p : Option C)
              → Memᴰ {A = Event N C} (opened b p) es
                ⊎ Memᴰ {A = Event N C} (opened b p) (opened c (some conn) ∷ [])
              → StandsOn {N = N} (es ++ (opened c (some conn) ∷ [])) b c
          under b p (inl j) =
              one_more
                (StandsOn-mono es _ b conn (λ x. append_left (opened c (some conn) ∷ []))
                  (on b p j))
                (append_right es (Memᴰ.head refl))
          under b p (inr (Memᴰ.head e)) =
              subst (λ x. StandsOn (es ++ (opened c (some conn) ∷ [])) x c) (opened-eq e) itself
          under b p (inr (Memᴰ.tail j)) = elim j [ ]

  -- Dialling over a route: where it fails, each connection that was made without an error has been
  -- closed, or one that stands on it has: one that was made over it by a handshake or a request,
  -- directly or by further ones. Where it succeeds, the connection that it returns stands on each
  -- one that was made.
  pub route_dial-Released :
      (default : Text → Text → Option C) (nodes : List N) (network address : Text)
      → Released (route_dial links default nodes network address)
  unfolding route_dial
  route_dial-Released default [] network address = empty_Released (default network address)
    where
      empty_Released : (r : Option C) → Released (r, [])
      empty_Released none = λ c p i. elim i [ ]
      empty_Released (some d) = λ c p i. elim i [ ]
  route_dial-Released default (node ∷ nodes) network address =
      dial_last-Released _ _ (connect-Released node nodes)
