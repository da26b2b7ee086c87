-- ===== src/Selector/Filter/Kept.antt =====
-- What the filters leave.
use go_gost_x.Prelude.{
  ◌≤◌, ◌≡◌, refl, ◌⊎◌, inl, inr, sym, ap, subst, ◌∙◌, Bool, true, false, not, ◌||◌, List, [], ◌∷◌,
  arith, ℤ, pos, leb, leb_ℤ, Memᴰ, length, if◌then◌else◌, Bool-cases,
}
use go_gost_x.Selector.View.{View}
use go_gost_x.Selector.Filter.{
  keep, alive, fast_probe, non_empty_or, fail_filter, backup_filter, latency_filter,
}

module _ {T : Type 0} where
  pub keep-Memᴰ :
      (p : T → Bool) (v : T) (vs : List T) → Memᴰ v (keep p vs) → Memᴰ v vs × (p v ≡ true)
  unfolding keep
  keep-Memᴰ p v [] m = elim m [ ]
  keep-Memᴰ p v (u ∷ us) m = elim (Bool-cases (p u)) [
    | inl e ↦
        here e (subst (λ b. Memᴰ v (if b then u ∷ keep p us else keep p us)) e m) (keep-Memᴰ p v us)
    | inr e ↦
        let (i, q) =
          keep-Memᴰ p v us (subst (λ b. Memᴰ v (if b then u ∷ keep p us else keep p us)) e m) in
        (Memᴰ.tail i, q)
  ]
    where
      here :
          p u ≡ true
          → Memᴰ v (u ∷ keep p us)
          → (Memᴰ v (keep p us) → Memᴰ v us × (p v ≡ true))
          → Memᴰ v (u ∷ us) × (p v ≡ true)
      here e (Memᴰ.head q) ih = (Memᴰ.head q, ap p q ∙ e)
      here e (Memᴰ.tail i) ih = (Memᴰ.tail (ih i).0, (ih i).1)

  pub Memᴰ-keep : (p : T → Bool) (v : T) (vs : List T) → Memᴰ v vs → p v ≡ true → Memᴰ v (keep p vs)
  unfolding keep
  Memᴰ-keep p v [] i e = elim i [ ]
  Memᴰ-keep p v (u ∷ us) (Memᴰ.head q) e =
      subst (λ b. Memᴰ v (if b then u ∷ keep p us else keep p us)) (sym (ap p (sym q) ∙ e))
        (Memᴰ.head q)
  Memᴰ-keep p v (u ∷ us) (Memᴰ.tail i) e = later (p u) (Memᴰ-keep p v us i e)
    where
      later : (b : Bool) → Memᴰ v (keep p us) → Memᴰ v (if b then u ∷ keep p us else keep p us)
      later true m = Memᴰ.tail m
      later false m = m

  Memᴰ-single : (u v : T) (vs : List T) → length vs ≤ 1 → Memᴰ u vs → Memᴰ v vs → u ≡ v
  Memᴰ-single u v [] h i j = elim i [ ]
  Memᴰ-single u v (x ∷ y ∷ vs) h i j = absurd (omega arith)
  Memᴰ-single u v (x ∷ []) h (Memᴰ.head p) (Memᴰ.head q) = p ∙ sym q
  Memᴰ-single u v (x ∷ []) h (Memᴰ.head p) (Memᴰ.tail j) = elim j [ ]
  Memᴰ-single u v (x ∷ []) h (Memᴰ.tail i) j = elim i [ ]

  -- A filter that leaves a list of up to one value alone, and keeps of a longer one what passes.
  sift : (T → Bool) → List T → List T
  sift p vs = if leb (length vs) 1 then vs else keep p vs

  -- It returns values of the list, and where one passes, only such, that one among them.
  sift-Memᴰ :
      (p : T → Bool) (u v : T) (vs : List T)
      → Memᴰ u (sift p vs)
      → Memᴰ u vs × (Memᴰ v vs → p v ≡ true → (p u ≡ true) × Memᴰ v (sift p vs))
  unfolding sift
  sift-Memᴰ p u v vs m = elim (Bool-cases (leb (length vs) 1)) [
    | inl few ↦ few_case few (subst (λ b. Memᴰ u (if b then vs else keep p vs)) few m)
    | inr many ↦ many_case many (subst (λ b. Memᴰ u (if b then vs else keep p vs)) many m)
  ]
    where
      few_case :
          leb (length vs) 1 ≡ true
          → Memᴰ u vs
          → Memᴰ u vs × (Memᴰ v vs → p v ≡ true → (p u ≡ true) × Memᴰ v (sift p vs))
      few_case few i = (i, λ j e. (ap p (Memᴰ-single u v vs (ground arith) i j) ∙ e, rw few j))

      many_case :
          leb (length vs) 1 ≡ false
          → Memᴰ u (keep p vs)
          → Memᴰ u vs × (Memᴰ v vs → p v ≡ true → (p u ≡ true) × Memᴰ v (sift p vs))
      many_case many i =
          ((keep-Memᴰ p u vs i).0, λ j e. ((keep-Memᴰ p u vs i).1, rw many (Memᴰ-keep p v vs j e)))

  non_empty_or-Memᴰ :
      (u : T) (ns bs : List T) → Memᴰ u (non_empty_or ns bs) → Memᴰ u ns ⊎ ((ns ≡ []) × Memᴰ u bs)
  non_empty_or-Memᴰ u [] bs m = inr (refl, m)
  non_empty_or-Memᴰ u (n ∷ ns) bs m = inl m

  first : {v : T} (ws bs : List T) → Memᴰ v ws → Memᴰ v (non_empty_or ws bs)
  first [] bs i = elim i [ ]
  first (w ∷ ws) bs i = i

eq-false_of_not : (b : Bool) → not b ≡ true → b ≡ false
eq-false_of_not b h = ground arith

module _ {T : Type 0} (view : View T) where
  pub fail_filter-Memᴰ :
      (max_fails timeout now : ℤ) (u v : T) (vs : List T)
      → Memᴰ u (fail_filter view max_fails timeout now vs)
      → Memᴰ u vs
        × (Memᴰ v vs
            → alive view max_fails timeout now v ≡ true
            → (alive view max_fails timeout now u ≡ true)
              × Memᴰ v (fail_filter view max_fails timeout now vs))
  unfolding fail_filter sift
  fail_filter-Memᴰ max_fails timeout now u v vs m =
      sift-Memᴰ (alive view max_fails timeout now) u v vs m

  pub latency_filter-Memᴰ :
      (max_latency : ℤ) (u : T) (vs : List T)
      → Memᴰ u (latency_filter view max_latency vs)
      → Memᴰ u vs
  unfolding latency_filter
  latency_filter-Memᴰ max_latency u vs m = go (leb (length vs) 1 || leb_ℤ max_latency (pos 0)) m
    where
      go :
          (b : Bool)
          → Memᴰ u (if b then vs else keep (λ v. fast_probe view max_latency (view.probe v)) vs)
          → Memᴰ u vs
      go true i = i
      go false i = (keep-Memᴰ (λ v. fast_probe view max_latency (view.probe v)) u vs i).0

  pub backup_filter-Memᴰ :
      (u v : T) (vs : List T)
      → Memᴰ u (backup_filter view vs)
      → Memᴰ u vs
        × (Memᴰ v vs
            → view.backup v ≡ false
            → (view.backup u ≡ false) × Memᴰ v (backup_filter view vs))
  unfolding backup_filter
  backup_filter-Memᴰ u v vs m = elim (Bool-cases (leb (length vs) 1)) [
    | inl few ↦ few_case few (subst (λ b. Memᴰ u (if b then vs else non_empty_or ns bs)) few m)
    | inr many ↦ many_case many (
        non_empty_or-Memᴰ u ns bs
          (subst (λ b. Memᴰ u (if b then vs else non_empty_or ns bs)) many m))
  ]
    where
      ns : List T
      ns = keep (λ x. not (view.backup x)) vs

      bs : List T
      bs = keep view.backup vs

      few_case :
          leb (length vs) 1 ≡ true
          → Memᴰ u vs
          → Memᴰ u vs
            × (Memᴰ v vs
                → view.backup v ≡ false
                → (view.backup u ≡ false) × Memᴰ v (backup_filter view vs))
      few_case few i =
          (i, λ j e. (ap view.backup (Memᴰ-single u v vs (ground arith) i j) ∙ e, rw few j))

      many_case :
          leb (length vs) 1 ≡ false
          → Memᴰ u ns ⊎ ((ns ≡ []) × Memᴰ u bs)
          → Memᴰ u vs
            × (Memᴰ v vs
                → view.backup v ≡ false
                → (view.backup u ≡ false) × Memᴰ v (backup_filter view vs))
      many_case many (inl i) = (
        (keep-Memᴰ (λ x. not (view.backup x)) u vs i).0,
        λ j e. (
          eq-false_of_not _ (keep-Memᴰ (λ x. not (view.backup x)) u vs i).1,
          rw many (first ns bs (Memᴰ-keep (λ x. not (view.backup x)) v vs j (ap not e))),
        ),
      )
      many_case many (inr (e, i)) = (
        (keep-Memᴰ view.backup u vs i).0,
        λ j k. elim (subst (Memᴰ v) e (Memᴰ-keep (λ x. not (view.backup x)) v vs j (ap not k))) [ ],
      )

  pub fail_filter-keeps :
      (max_fails timeout now : ℤ) (v : T) (vs : List T)
      → Memᴰ v vs
      → alive view max_fails timeout now v ≡ true
      → Memᴰ v (fail_filter view max_fails timeout now vs)
  unfolding fail_filter
  fail_filter-keeps max_fails timeout now v vs i e = go (leb (length vs) 1)
    where
      go : (b : Bool) → Memᴰ v (if b then vs else keep (alive view max_fails timeout now) vs)
      go true = i
      go false = Memᴰ-keep (alive view max_fails timeout now) v vs i e

  pub backup_filter-keeps :
      (v : T) (vs : List T) → Memᴰ v vs → view.backup v ≡ false → Memᴰ v (backup_filter view vs)
  unfolding backup_filter
  backup_filter-keeps v vs i e = go (leb (length vs) 1)
    where
      go :
          (b : Bool)
          → Memᴰ v (
              if b
              then vs
              else non_empty_or (keep (λ x. not (view.backup x)) vs) (keep view.backup vs))
      go true = i
      go false =
          first _ (keep view.backup vs) (Memᴰ-keep (λ x. not (view.backup x)) v vs i (ap not e))

  -- The backup filter leaves a value of every list that has one.
  pub backup_filter-some :
      (v : T) (vs : List T) → Memᴰ v vs → (u : T) × Memᴰ u (backup_filter view vs)
  unfolding backup_filter
  backup_filter-some v vs i = go (leb (length vs) 1)
    where
      left :
          (b : Bool)
          → view.backup v ≡ b
          → (ws : List T) → (b ≡ false → Memᴰ v ws)
          → (u : T) × Memᴰ u (non_empty_or ws (keep view.backup vs))
      left b e (w ∷ ws) h = (w, Memᴰ.head refl)
      left true e [] h = (v, Memᴰ-keep view.backup v vs i e)
      left false e [] h = elim (h refl) [ ]

      go :
          (b : Bool)
          → (u : T) × Memᴰ u (
              if b
              then vs
              else non_empty_or (keep (λ x. not (view.backup x)) vs) (keep view.backup vs))
      go true = (v, i)
      go false = left _ refl _ (λ e. Memᴰ-keep (λ x. not (view.backup x)) v vs i (ap not e))
