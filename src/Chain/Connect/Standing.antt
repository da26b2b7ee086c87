-- ===== src/Chain/Connect/Standing.antt =====
-- Connections that stand on others, and what is released with them.
use go_gost_x.Prelude.{◌≡◌, refl, subst, List, [], ◌∷◌, ◌++◌, Option, none, some, Memᴰ}
use go_gost_x.Chain.Connect.{Event, opened, closed, mark, reset, Trace, after, close_some}

-- A connection stands on another: it was opened on it, or on one that stands on it.
pub data StandsOn {N C : Type 0} (es : List (Event N C)) (c : C) : C → Type 0 where
  itself : StandsOn es c c
  one_more : {p d : C} → StandsOn es c p → Memᴰ (opened d (some p)) es → StandsOn es c d

-- The connection is closed, or one that stands on it.
abbrev pub IsReleased : {N C : Type 0} → List (Event N C) → C → Type 0
IsReleased {N} {C} es c = (d : C) × StandsOn es c d × Memᴰ (closed d) es

abbrev pub AllReleased : {N C : Type 0} → List (Event N C) → Type 0
AllReleased {N} {C} es = (c : C) (p : Option C) → Memᴰ (opened c p) es → IsReleased es c

-- The connection stands on each that was opened.
abbrev pub IsOnAll : {N C : Type 0} → List (Event N C) → C → Type 0
IsOnAll {N} {C} es d = (c : C) (p : Option C) → Memᴰ (opened c p) es → StandsOn es c d

module _ {N C : Type 0} where
  pub StandsOn-mono :
      (es fs : List (Event N C)) (c d : C)
      → ((e : Event N C) → Memᴰ e es → Memᴰ e fs)
      → StandsOn es c d
      → StandsOn fs c d
  StandsOn-mono es fs c d h itself = itself
  StandsOn-mono es fs c d h (one_more {p} s i) = one_more (StandsOn-mono es fs c p h s) (h _ i)

  pub StandsOn-trans :
      (es : List (Event N C)) (c d e : C) → StandsOn es c d → StandsOn es d e → StandsOn es c e
  StandsOn-trans es c d e s itself = s
  StandsOn-trans es c d e s (one_more {p} t i) = one_more (StandsOn-trans es c d p s t) i

  pub IsReleased-mono :
      (es fs : List (Event N C)) (c : C)
      → ((e : Event N C) → Memᴰ e es → Memᴰ e fs)
      → IsReleased es c
      → IsReleased fs c
  IsReleased-mono es fs c h (d, s, i) = (d, StandsOn-mono es fs c d h s, h _ i)

  -- A failure releases the connection that a round starts from, and the round's; a connection that
  -- is returned stands on these.
  abbrev pub Leakless : C → Trace N C → Type 0
  Leakless cn (none, es) = IsReleased es cn × AllReleased es
  Leakless cn (some d, es) = StandsOn es cn d × IsOnAll es d

  pub opened-eq : {c d : C} {p q : Option C} → ◌≡◌ {A = Event N C} (opened c p) (opened d q) → d ≡ c
  opened-eq e = cc

  pub AllReleased-opened :
      (c : C) (p : Option C) (es : List (Event N C))
      → IsReleased es c
      → AllReleased es
      → AllReleased (opened c p ∷ es)
  AllReleased-opened c p es r all d q (Memᴰ.head e) =
      subst (IsReleased (opened c p ∷ es)) (opened-eq e) (IsReleased-mono es _ c (λ x. Memᴰ.tail) r)
  AllReleased-opened c p es r all d q (Memᴰ.tail i) =
      IsReleased-mono es _ d (λ x. Memᴰ.tail) (all d q i)

  pub IsOnAll-opened :
      (c : C) (p : Option C) (d : C) (es : List (Event N C))
      → StandsOn es c d
      → IsOnAll es d
      → IsOnAll (opened c p ∷ es) d
  IsOnAll-opened c p d es s on b q (Memᴰ.head e) =
      subst (λ x. StandsOn (opened c p ∷ es) x d) (opened-eq e)
        (StandsOn-mono es _ c d (λ x. Memᴰ.tail) s)
  IsOnAll-opened c p d es s on b q (Memᴰ.tail i) =
      StandsOn-mono es _ b d (λ x. Memᴰ.tail) (on b q i)

  pub AllReleased-mono :
      (es fs : List (Event N C))
      → ((e : Event N C) → Memᴰ e es → Memᴰ e fs)
      → ((c : C) (p : Option C) → Memᴰ (opened c p) fs → Memᴰ (opened c p) es)
      → AllReleased es
      → AllReleased fs
  AllReleased-mono es fs h back all c p i = IsReleased-mono es fs c h (all c p (back c p i))

  pub after-opened :
      (cn c : C) (t : Trace N C) → Leakless c t → Leakless cn (after (opened c (some cn) ∷ []) t)
  after-opened cn c (none, es) ((d, s, i), all) = (
    (
      d,
      StandsOn-trans _ cn c d (one_more itself (Memᴰ.head refl))
          (StandsOn-mono es _ c d (λ e. Memᴰ.tail) s),
      Memᴰ.tail i,
    ),
    AllReleased-opened c (some cn) es (d, s, i) all,
  )
  after-opened cn c (some d, es) (s, on) = (
    StandsOn-trans _ cn c d (one_more itself (Memᴰ.head refl))
        (StandsOn-mono es _ c d (λ e. Memᴰ.tail) s),
    IsOnAll-opened c (some cn) d es s on,
  )

  pub not_opened :
      {n : N} {c : C} {p : Option C} {es : List (Event N C)}
      → Memᴰ (opened c p) (reset n ∷ es)
      → Memᴰ (opened c p) es
  not_opened (Memᴰ.head e) = cc
  not_opened (Memᴰ.tail i) = i

  pub after-reset :
      (cn : C) (n : N) (t : Trace N C) → Leakless cn t → Leakless cn (after (reset n ∷ []) t)
  after-reset cn n (none, es) (r, all) = (
    IsReleased-mono es _ cn (λ e. Memᴰ.tail) r,
    AllReleased-mono es _ (λ e. Memᴰ.tail) (λ c p. not_opened) all,
  )
  after-reset cn n (some d, es) (s, on) = (
    StandsOn-mono es _ cn d (λ e. Memᴰ.tail) s,
    λ c p i. StandsOn-mono es _ c d (λ e. Memᴰ.tail) (on c p (not_opened i)),
  )

  pub after_both :
      (cn c : C) (n : N) (t : Trace N C)
      → Leakless c t
      → Leakless cn (after (opened c (some cn) ∷ reset n ∷ []) t)
  after_both cn c n (none, es) l =
      after-opened cn c (none, reset n ∷ es) (after-reset c n (none, es) l)
  after_both cn c n (some d, es) l =
      after-opened cn c (some d, reset n ∷ es) (after-reset c n (some d, es) l)

  -- The events of a failing round: some connection closed, and among the rest none opened.
  abbrev pub Quiet : List (Event N C) → Type 0
  Quiet es = (c : C) (p : Option C) → Memᴰ (opened c p) es → ⊥

  pub Quiet-closed : (c : C) (es : List (Event N C)) → Quiet es → Quiet (closed c ∷ es)
  Quiet-closed c es q d p (Memᴰ.head e) = cc
  Quiet-closed c es q d p (Memᴰ.tail i) = q d p i

  pub Quiet-mark : (n : N) → Quiet (mark n ∷ [])
  Quiet-mark n c p (Memᴰ.head e) = cc
  Quiet-mark n c p (Memᴰ.tail i) = elim i [ ]

  pub Quiet-close_some :
      (o : Option C) (es : List (Event N C)) → Quiet es → Quiet (close_some o ++ es)
  Quiet-close_some none es q = q
  Quiet-close_some (some c) es q = Quiet-closed c es q

  pub fails :
      (cn : C) (es : List (Event N C)) → Memᴰ (closed cn) es → Quiet es → Leakless cn (none, es)
  fails cn es i q = ((cn, itself, i), λ c p j. absurd (q c p j))
