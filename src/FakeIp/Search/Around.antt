-- ===== src/FakeIp/Search/Around.antt =====
-- The loop ends, and gives up only when every number from the first one on is taken.
use go_gost_x.Prelude.{
  ℕ, zero, suc, ◌+◌, ◌^◌, ◌≤◌, ◌<◌, ◌==◌, ◌≡◌, ◌≢◌, subst, refl, ◌∙◌, ap, sym, ◌⊎◌, inl, inr, Bool,
  true, false, ◌&&◌, Bool-cases, if◌then◌else◌, arith, ltb, leb, ==_iff, ltb→lt,
}
use go_gost_x.FakeIp.Addr.{Prefix, has, size, base, width}
use go_gost_x.FakeIp.Search.{Found, found, none_left, spinning, advance, rounds, search}

-- The first number past the range.
pub end : Prefix → ℕ
end r = if leb (base r + size r) (2 ^ width r.v4) then base r + size r else 2 ^ width r.v4

pub has-interval : (r : Prefix) (v : ℕ) → has r v ≡ (leb (base r) v && ltb v (end r))
unfolding has end
has-interval r v = go (base r + size r) (2 ^ width r.v4)
  where
    go :
        (a b : ℕ)
        → (leb (base r) v && ltb v a && ltb v b)
          ≡ (leb (base r) v && ltb v (if leb a b then a else b))
    go a b = ground arith

end-le : (r : Prefix) → end r ≤ base r + size r
unfolding end
end-le r = go (base r + size r) (2 ^ width r.v4)
  where
    go : (a b : ℕ) → (if leb a b then a else b) ≤ a
    go a b = ground arith

module _ (taken : ℕ → Bool) (r : Prefix) (first : ℕ) where
  -- What an answer says: a number of the range, from the first one on, that is free, or that all of
  -- P are taken.
  abbrev pub Settled : Found → (ℕ → Type 0) → Type 0
  Settled (found x) P = (taken x ≡ false) × (has r x ≡ true) × (first ≤ x)
  Settled none_left P = (x : ℕ) → P x → taken x ≡ true
  Settled spinning P = ⊥

  Settled-widen :
      (f : Found) (P Q : ℕ → Type 0)
      → ((x : ℕ) → Q x → P x ⊎ (taken x ≡ true))
      → Settled f P
      → Settled f Q
  Settled-widen (found x) P Q w s = s
  Settled-widen none_left P Q w s = λ x q. elim (w x q) [ inl p ↦ s x p | inr t ↦ t ]
  Settled-widen spinning P Q w s = s

  advance-in : (v : ℕ) → base r ≤ v → v + 1 < end r → advance r first v ≡ v + 1
  advance-in v b e = rw (has-interval r (v + 1)) (ground arith)

  advance-out : (v : ℕ) → base r ≤ v → end r ≤ v + 1 → advance r first v ≡ first
  advance-out v b e = rw (has-interval r (v + 1)) (ground arith)

  has-in : (v : ℕ) → base r ≤ v → v < end r → has r v ≡ true
  has-in v b e = has-interval r v ∙ ground arith

  module _ (start : ℕ) where
    abbrev round : ℕ → ℕ → Found
    round n v = rounds taken r first start n v

    -- A round at a taken number.
    round-taken :
        (n v w : ℕ)
        → taken v ≡ true
        → advance r first v ≡ w
        → round (suc n) v ≡ (if w == start then none_left else round n w)
    unfolding rounds
    round-taken n v w t a = rw t (ap (λ u. if u == start then none_left else round n u) a)

    round-free : (n v : ℕ) → taken v ≡ false → round (suc n) v ≡ found v
    unfolding rounds
    round-free n v t = rw t refl

    -- A round settles P when a free number, the end of the loop or the other rounds do.
    round-Settled :
        (n v w : ℕ) (P : ℕ → Type 0)
        → has r v ≡ true
        → first ≤ v
        → advance r first v ≡ w
        → (w ≡ start → (x : ℕ) → P x → x ≡ v)
        → (taken v ≡ true → w ≢ start → Settled (round n w) P)
        → Settled (round (suc n) v) P
    round-Settled n v w P h fv a last more = elim (Bool-cases (taken v)) [
      | inr t ↦ subst (λ f. Settled f P) (sym (round-free n v t)) (t, h, fv)
      | inl t ↦
          subst (λ f. Settled f P) (sym (round-taken n v w t a))
            (elim (Bool-cases (w == start)) [
              | inl e ↦ rw e (λ x p. ap taken (last ((==_iff w start).0 e) x p) ∙ t)
              | inr e ↦ rw e (more t (λ q. cc ((==_iff w start).1 q, e)))
            ])
    ]

    -- After the end of the range: the numbers from the first one to the start.
    round-before :
        (n v : ℕ)
        → base r ≤ first
        → first ≤ v
        → v < start
        → start < end r
        → start ≤ v + n
        → Settled (round n v) (λ x. (v ≤ x) × (x < start))
    round-before zero v b fv s e f = absurd (omega arith)
    round-before (suc n) v b fv s e f =
        round-Settled n v (v + 1) (λ x. (v ≤ x) × (x < start))
          (has-in v (omega arith) (omega arith)) fv (advance-in v (omega arith) (omega arith))
          (λ w x p. omega arith)
          (λ t w.
            Settled-widen (round n (v + 1)) (λ x. (v + 1 ≤ x) × (x < start))
              (λ x. (v ≤ x) × (x < start)) (split t)
              (round-before n (v + 1) b (omega arith) (omega arith) e (omega arith)))
      where
        split :
            taken v ≡ true
            → (x : ℕ) → (v ≤ x) × (x < start)
            → ((v + 1 ≤ x) × (x < start)) ⊎ (taken x ≡ true)
        split t x (lo, hi) = elim (Bool-cases (x == v)) [
          | inl e ↦ inr (ap taken ((==_iff x v).0 e) ∙ t)
          | inr e ↦ inl (ground arith)
        ]

    -- From the start on: the numbers to the end of the range, and from the first one to the start.
    round-after :
        (n v : ℕ)
        → base r ≤ first
        → first ≤ start
        → start ≤ v
        → v < end r
        → end r + start ≤ v + first + n
        → Settled (round n v) (λ x. ((v ≤ x) × (x < end r)) ⊎ ((first ≤ x) × (x < start)))
    round-after zero v b s l h f = absurd (omega arith)
    round-after (suc n) v b s l h f = elim (Bool-cases (ltb (v + 1) (end r))) [
      | inl i ↦
          (round-Settled n v (v + 1) (Left v) (has-in v (omega arith) h) (omega arith)
            (advance-in v (omega arith) (ltb→lt _ _ i)) (λ w. absurd (omega arith))
            (λ t w.
              Settled-widen (round n (v + 1)) (Left (v + 1)) (Left v) (split t)
                (round-after n (v + 1) b s (omega arith) (ltb→lt _ _ i) (omega arith))))
      | inr o ↦
          (let past : end r ≤ v + 1 = ground arith in
            round-Settled n v first (Left v) (has-in v (omega arith) h) (omega arith)
              (advance-out v (omega arith) past) (λ w x p. only past w x p)
              (λ t w.
                Settled-widen (round n first) (λ x. (first ≤ x) × (x < start)) (Left v)
                  (rest past t)
                  (round-before n first b (omega arith) (ground arith) (omega arith)
                    (omega arith))))
    ]
      where
        Left : ℕ → ℕ → Type 0
        Left u x = ((u ≤ x) × (x < end r)) ⊎ ((first ≤ x) × (x < start))

        split : taken v ≡ true → (x : ℕ) → Left v x → Left (v + 1) x ⊎ (taken x ≡ true)
        split t x (inr q) = inl (inr q)
        split t x (inl q) = elim (Bool-cases (x == v)) [
          | inl e ↦ inr (ap taken ((==_iff x v).0 e) ∙ t)
          | inr e ↦ inl (inl (ground arith))
        ]

        only : end r ≤ v + 1 → first ≡ start → (x : ℕ) → Left v x → x ≡ v
        only past w x (inl q) = omega arith
        only past w x (inr q) = absurd (omega arith)

        rest :
            end r ≤ v + 1
            → taken v ≡ true
            → (x : ℕ) → Left v x
            → ((first ≤ x) × (x < start)) ⊎ (taken x ≡ true)
        rest past t x (inl q) = let e : x ≡ v = omega arith in inr (ap taken e ∙ t)
        rest past t x (inr q) = inl q

  -- The search ends with a free number of the range, or says rightly that none is left from the
  -- first one on.
  pub search-Settled :
      (start : ℕ)
      → has r first ≡ true
      → has r start ≡ true
      → first ≤ start
      → Settled (search taken r first start) (λ x. (first ≤ x) × (has r x ≡ true))
  unfolding search
  search-Settled start hf hs le =
      let f = inside first hf in
      let s = inside start hs in
      Settled-widen (search taken r first start)
        (λ x. ((start ≤ x) × (x < end r)) ⊎ ((first ≤ x) × (x < start)))
        (λ x. (first ≤ x) × (has r x ≡ true)) covers
        (round-after start (size r) start f.0 le (omega arith) s.1 (omega (arith, end-le r)))
    where
      inside : (v : ℕ) → has r v ≡ true → (base r ≤ v) × (v < end r)
      inside v h =
          let i : (leb (base r) v && ltb v (end r)) ≡ true = sym (has-interval r v) ∙ h in
          ground arith

      covers :
          (x : ℕ)
          → (first ≤ x) × (has r x ≡ true)
          → (((start ≤ x) × (x < end r)) ⊎ ((first ≤ x) × (x < start))) ⊎ (taken x ≡ true)
      covers x (lo, h) =
          let i = inside x h in
          elim (Bool-cases (ltb x start)) [
            | inl e ↦ inl (inr (lo, ltb→lt x start e))
            | inr e ↦ inl (inl (ground arith, i.1))
          ]
