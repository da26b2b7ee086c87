-- ===== src/Selector/Strategy/Lowest.antt =====
-- The value with the lowest latency.
use go_gost_x.Prelude.{
  Memᴰ-append_right, subst, ◌++◌, refl, All, [], none, ap, ◌∙◌, ◌∙◌, sym, inr, ltb_ℤ, ap, ◌∷◌, inl,
  Bool-cases, Option-cases, arith, ◌⊎◌, Option, ◌≡◌, true, List, none, some, ℤ, ◌≤ℤ◌, Memᴰ,
}
use mathlib.Core.List.{append_assoc}
use go_gost_x.Selector.OneOf.{OneOf}
use go_gost_x.Selector.View.{View}
use go_gost_x.Selector.Strategy.{choose, improves, lowest_loop, apply_lowest, consider, Probe, Best}

module _ {T : Type 0} (view : View T) where
  -- `v` has a successful probe of the given latency.
  abbrev pub Measured : T → ℤ → Type 0
  Measured v latency = view.probe v ≡ some (record { success = true; latency = latency })

  -- One round takes the value for the best, or leaves the best as it was.
  consider-best :
      (v : T) (o : Option Probe) (b : Best view)
      → ((consider view v o b).best ≡ b.best)
        ⊎ ((l : ℤ) × (o ≡ some (record { success = true; latency = l }))
            × ((consider view v o b).best ≡ some (v, l)))
  consider-best v none b = ground arith
  consider-best v (some r) b = elim (Bool-cases r.success) [
    | inl s ↦ elim (Bool-cases (improves view r.latency b.best)) [
      | inl i ↦ inr (r.latency, ground arith, ground arith)
      | inr n ↦ inl (ground arith)
    ]
    | inr f ↦ inl (ground arith)
  ]

  -- A best latency only falls, to at most that of the value considered.
  consider-le :
      (v u : T) (o : Option Probe) (b : Best view) (l : ℤ)
      → b.best ≡ some (u, l)
      → (w : T) × (k : ℤ) × ((consider view v o b).best ≡ some (w, k)) × (k ≤ℤ l)
  consider-le v u none b l h = (u, l, ground arith, omega arith)
  consider-le v u (some r) b l h = elim (Bool-cases r.success) [
    | inl s ↦ elim (Bool-cases (ltb_ℤ r.latency l)) [
      | inl i ↦ (v, r.latency, ground arith, ground arith)
      | inr n ↦ (u, l, ground arith, omega arith)
    ]
    | inr f ↦ (u, l, ground arith, omega arith)
  ]

  consider-Measured :
      (v : T) (b : Best view) (l : ℤ)
      → Measured v l
      → (w : T) × (k : ℤ) × ((consider view v (view.probe v) b).best ≡ some (w, k)) × (k ≤ℤ l)
  consider-Measured v b l h = elim (Option-cases b.best) [
    | inl e ↦ (v, l, ground arith, omega arith)
    | inr (p, e) ↦ elim (Bool-cases (ltb_ℤ l p.1)) [
      | inl i ↦ (v, l, ground arith, omega arith)
      | inr n ↦ (p.0, p.1, ground arith, ground arith)
    ]
  ]

  loop-le :
      (vs : List T) (b : Best view) (u : T) (l : ℤ)
      → b.best ≡ some (u, l)
      → (w : T) × (k : ℤ) × ((lowest_loop view vs b).best ≡ some (w, k)) × (k ≤ℤ l)
  unfolding lowest_loop
  loop-le [] b u l h = (u, l, h, omega arith)
  loop-le (v ∷ vs) b u l h =
      let (w, k, e, le) = consider-le v u (view.probe v) b l h in
      let (w', k', e', le') = loop-le vs (consider view v (view.probe v) b) w k e in
      (w', k', e', omega arith)

  loop-Measured :
      (vs : List T) (b : Best view) (v : T) (l : ℤ)
      → Memᴰ v vs
      → Measured v l
      → (w : T) × (k : ℤ) × ((lowest_loop view vs b).best ≡ some (w, k)) × (k ≤ℤ l)
  unfolding lowest_loop
  loop-Measured [] b v l i m = elim i [ ]
  loop-Measured (u ∷ vs) b v l (Memᴰ.head e) m =
      let (w, k, c, le) = consider-Measured u b l (ap view.probe (sym e) ∙ m) in
      let (w', k', c', le') = loop-le vs (consider view u (view.probe u) b) w k c in
      (w', k', c', omega arith)
  loop-Measured (u ∷ vs) b v l (Memᴰ.tail i) m = loop-Measured vs _ v l i m

  -- The best of the loop is one that it began with, or a measured value of the list.
  loop-source :
      (vs : List T) (b : Best view) (u : T) (l : ℤ)
      → (lowest_loop view vs b).best ≡ some (u, l)
      → (b.best ≡ some (u, l)) ⊎ (Memᴰ u vs × Measured u l)
  unfolding lowest_loop
  loop-source [] b u l h = inl h
  loop-source (v ∷ vs) b u l h = elim (loop-source vs (consider view v (view.probe v) b) u l h) [
    | inr (i, m) ↦ inr (Memᴰ.tail i, m)
    | inl e ↦ elim (consider-best v (view.probe v) b) [
      | inl same ↦ inl (sym same ∙ e)
      | inr (k, p, q) ↦ inr (taken k p (sym q ∙ e))
    ]
  ]
    where
      taken :
          (k : ℤ)
          → Measured v k
          → ◌≡◌ {A = Option (T × ℤ)} (some (v, k)) (some (u, l))
          → Memᴰ u (v ∷ vs) × Measured u l
      taken k p q = (Memᴰ.head (ground arith), ground arith)

  choose-best : (v u : T) (l : ℤ) (b : Best view) → b.best ≡ some (u, l) → choose view v b ≡ u
  choose-best v u l b e = ground arith

  from_start :
      (vs : List T) (u : T) (l : ℤ)
      → (lowest_loop view vs (record { best = none; fallback = none })).best ≡ some (u, l)
      → Memᴰ u vs × Measured u l
  from_start vs u l e = elim (loop-source vs (record { best = none; fallback = none }) u l e) [
    | inl h ↦ cc
    | inr p ↦ p
  ]

  -- A best is at most any measured latency: the loop's result is one value.
  loop-lowest :
      (vs : List T) (b : Best view) (u w : T) (l n : ℤ)
      → (lowest_loop view vs b).best ≡ some (u, l)
      → Memᴰ w vs
      → Measured w n
      → l ≤ℤ n
  loop-lowest vs b u w l n e j k =
      let (x, d, f, le) = loop-Measured vs b w n j k in same x d (sym e ∙ f) le
    where
      same :
          (x : T) (d : ℤ) → ◌≡◌ {A = Option (T × ℤ)} (some (u, l)) (some (x, d)) → d ≤ℤ n → l ≤ℤ n
      same x d q le = ground arith

  -- Where some candidate has a successful probe, the strategy returns a candidate with a
  -- successful probe whose latency is at most that of every other successful probe.
  pub apply_lowest-Measured :
      (vs : List T) (v : T) (m : ℤ)
      → Memᴰ v vs
      → Measured v m
      → (u : T) × (l : ℤ) × (apply_lowest view vs ≡ some u)
        × Memᴰ u vs
        × Measured u l
        × ((w : T) (n : ℤ) → Memᴰ w vs → Measured w n → l ≤ℤ n)
  unfolding apply_lowest
  apply_lowest-Measured [] v m i h = elim i [ ]
  apply_lowest-Measured (x ∷ vs) v m i h =
      let start : Best view = record { best = none; fallback = none } in
      let (u, l, e, le) = loop-Measured (x ∷ vs) start v m i h in
      (
        u,
        l,
        ap some (choose-best x u l (lowest_loop view (x ∷ vs) start) e),
        (from_start (x ∷ vs) u l e).0,
        (from_start (x ∷ vs) u l e).1,
        λ w n j k. loop-lowest (x ∷ vs) start u w l n e j k,
      )

  abbrev pub Unmeasured : T → Type 0
  Unmeasured v = (l : ℤ) → ¬ (Measured v l)

  abbrev Settled : T → Best view → Type 0
  Settled u b = (b.best ≡ none) × (b.fallback ≡ some u)

  consider-Settled :
      (v u : T) (o : Option Probe) (b : Best view)
      → ((l : ℤ) → ¬ (o ≡ some (record { success = true; latency = l })))
      → b.best ≡ none
      → (b.fallback ≡ some u) ⊎ ((b.fallback ≡ none) × (v ≡ u))
      → Settled u (consider view v o b)
  consider-Settled v u none b n h k = ground arith
  consider-Settled v u (some r) b n h k = elim (Bool-cases r.success) [
    | inl s ↦ absurd (n r.latency (ground (arith, s)))
    | inr f ↦ ground arith
  ]

  lowest_loop-Settled :
      (vs : List T) (b : Best view) (u : T)
      → Settled u b
      → All Unmeasured vs
      → Settled u (lowest_loop view vs b)
  unfolding lowest_loop
  lowest_loop-Settled [] b u h a = h
  lowest_loop-Settled (v ∷ vs) b u h a =
      lowest_loop-Settled vs (consider view v (view.probe v) b) u
        (consider-Settled v u (view.probe v) b a.0 h.0 (inl h.1)) a.1

  choose-Settled : (v u : T) (b : Best view) → Settled u b → choose view v b ≡ u
  choose-Settled v u b h = ground arith

  -- Where no candidate has a successful probe, the strategy returns the first candidate.
  pub apply_lowest-Unmeasured :
      (v : T) (vs : List T) → All Unmeasured (v ∷ vs) → apply_lowest view (v ∷ vs) ≡ some v
  unfolding apply_lowest
  apply_lowest-Unmeasured v vs a =
      let start : Best view = record { best = none; fallback = none } in
      let first = consider-Settled v v (view.probe v) start a.0 refl (inr (refl, refl)) in
      ap some (
        choose-Settled v v _
          (lowest_loop-Settled vs (consider view v (view.probe v) start) v first a.1))

  -- What the loop keeps is in a list that holds all it meets.
  record Inside (ws : List T) (b : Best view) : Type 0 where
    best_in : (u : T) (l : ℤ) → b.best ≡ some (u, l) → Memᴰ u ws
    fallback_in : (u : T) → b.fallback ≡ some u → Memᴰ u ws

  consider-fallback :
      (v : T) (o : Option Probe) (b : Best view)
      → ((consider view v o b).fallback ≡ b.fallback) ⊎ ((consider view v o b).fallback ≡ some v)
  consider-fallback v none b = ground arith
  consider-fallback v (some r) b = ground arith

  pair_first : (v u : T) (k l : ℤ) → ◌≡◌ {A = Option (T × ℤ)} (some (v, k)) (some (u, l)) → v ≡ u
  pair_first v u k l e = ground arith

  some_eq : (v u : T) → ◌≡◌ {A = Option T} (some v) (some u) → v ≡ u
  some_eq v u e = ground arith

  consider-Inside :
      (ws : List T) (v : T) (o : Option Probe) (b : Best view)
      → Memᴰ v ws
      → Inside ws b
      → Inside ws (consider view v o b)
  consider-Inside ws v o b i h = record {
    best_in = λ u l e. elim (consider-best v o b) [
      | inl same ↦ h.best_in u l (sym same ∙ e)
      | inr (k, p, q) ↦ subst (λ x. Memᴰ x ws) (pair_first v u k l (sym q ∙ e)) i
    ];
    fallback_in = λ u e. elim (consider-fallback v o b) [
      | inl same ↦ h.fallback_in u (sym same ∙ e)
      | inr q ↦ subst (λ x. Memᴰ x ws) (some_eq v u (sym q ∙ e)) i
    ];
  }

  loop-Inside :
      (ws vs : List T) (b : Best view)
      → All (λ v. Memᴰ v ws) vs
      → Inside ws b
      → Inside ws (lowest_loop view vs b)
  unfolding lowest_loop
  loop-Inside ws [] b a h = h
  loop-Inside ws (v ∷ vs) b a h =
      loop-Inside ws vs _ a.1 (consider-Inside ws v (view.probe v) b a.0 h)

  self-All : (us vs : List T) → All (λ v. Memᴰ v (us ++ vs)) vs
  self-All us [] = tt
  self-All us (v ∷ vs) = (
    Memᴰ-append_right us (Memᴰ.head refl),
    subst (λ ws. All (λ u. Memᴰ u ws) vs) (append_assoc us (v ∷ []) vs)
        (self-All (us ++ v ∷ []) vs),
  )

  choose-neither : (v : T) (b : Best view) → b.best ≡ none → b.fallback ≡ none → choose view v b ≡ v
  choose-neither v b e f = ground arith

  choose-Memᴰ :
      (ws : List T) (v : T) (b : Best view) → Memᴰ v ws → Inside ws b → Memᴰ (choose view v b) ws
  choose-Memᴰ ws v b i h = elim (Option-cases b.best) [
    | inr (p, e) ↦ subst (λ x. Memᴰ x ws) (sym (choose-best v p.0 p.1 b e)) (h.best_in p.0 p.1 e)
    | inl e ↦ elim (Option-cases b.fallback) [
      | inr (u, f) ↦ subst (λ x. Memᴰ x ws) (sym (choose-Settled v u b (e, f))) (h.fallback_in u f)
      | inl f ↦ subst (λ x. Memᴰ x ws) (sym (choose-neither v b e f)) i
    ]
  ]

  pub apply_lowest-OneOf : (v : T) (vs : List T) → OneOf (v ∷ vs) (apply_lowest view (v ∷ vs))
  unfolding apply_lowest
  apply_lowest-OneOf v vs =
      let start : Best view = record { best = none; fallback = none } in
      choose-Memᴰ (v ∷ vs) v (lowest_loop view (v ∷ vs) start) (Memᴰ.head refl) (
        loop-Inside (v ∷ vs) (v ∷ vs) start (self-All [] (v ∷ vs))
          (record { best_in = λ u l e. cc; fallback_in = λ u e. cc }))
