-- ===== src/Selector/Strategy/RoundRobin.antt =====
-- The turns of the round-robin strategy.
use go_gost_x.Prelude.{
  ℕ, zero, suc, ◌+◌, ◌-◌, ◌%◌, ◌^◌, ◌<◌, ◌≡◌, refl, ◌∙◌, ap, sym, List, [], ◌∷◌, ◌++◌, map, Option,
  some, arith, get_elem?, length, length-append, take, drop, take-append-drop, length-take_le, ap₂,
  if◌then◌else◌, ◌==◌, ==_iff, Bool-cases, inl, inr,
}
use mathlib.Core.List.{append-nil, append_assoc, map-append}
use native.Mathlib.Nat.{mod-add-mod, mod_self, mod-lt, mod-eq_of_lt}
use go_gost_x.Selector.Strategy.{apply_round_robin}

module _ {T : Type 0} where
  -- The values that `n` calls over the same candidates return, and the counter after them.
  abbrev pub picks : ℕ → ℕ → List T → List (Option T)
  picks zero counter vs = []
  picks (suc n) counter vs =
      (apply_round_robin counter vs).0 ∷ picks n (apply_round_robin counter vs).1 vs

mod-add_one : (c n : ℕ) → 0 < n → (c + 1) % n ≡ (if c % n + 1 == n then 0 else c % n + 1)
mod-add_one c n h = elim (Bool-cases (c % n + 1 == n)) [
  | inl last ↦
      rw last (sym (mod-add-mod c n 1) ∙ ap (λ k. k % n) ((==_iff _ n).0 last) ∙ mod_self n)
  | inr more ↦ rw more (sym (mod-add-mod c n 1) ∙ mod-eq_of_lt (ground (arith, mod-lt c h)))
]

get_elem?-append :
    {T : Type 0} (us : List T) (x : T) (xs : List T) → get_elem? (us ++ x ∷ xs) (length us) ≡ some x
get_elem?-append [] x xs = refl
get_elem?-append (u ∷ us) x xs = get_elem?-append us x xs

module _ {T : Type 0} where
  -- Below its last value the counter steps by one, and the call returns the value at its remainder.
  apply-below :
      (c : ℕ) (vs : List T)
      → 0 < length vs
      → c + 1 < 2 ^ 64
      → apply_round_robin c vs ≡ (get_elem? vs (c % length vs), c + 1)
  unfolding apply_round_robin
  apply-below c [] h lt = elim h [ ]
  apply-below c (v ∷ vs) h lt =
      let e : (c + 1) % 2 ^ 64 ≡ c + 1 = mod-eq_of_lt lt in
      let d : (c + 1 + 2 ^ 64 - 1) % 2 ^ 64 ≡ c = omega arith in rw e (rw d refl)

  picks-suc :
      (n c : ℕ) (vs : List T)
      → 0 < length vs
      → c + 1 < 2 ^ 64
      → picks (suc n) c vs ≡ get_elem? vs (c % length vs) ∷ picks n (c + 1) vs
  picks-suc n c vs h lt = ap (λ r. r.0 ∷ picks n r.1 vs) (apply-below c vs h lt)

  picks-append :
      (a b c : ℕ) (vs : List T)
      → 0 < length vs
      → c + (a + b) < 2 ^ 64
      → picks (a + b) c vs ≡ picks a c vs ++ picks b (c + a) vs
  picks-append zero b c vs h lt =
      let count : 0 + b ≡ b = omega arith in
      let start : c ≡ c + 0 = omega arith in ap₂ (λ n d. picks n d vs) count start
  picks-append (suc a) b c vs h lt =
      let count : suc a + b ≡ suc (a + b) = omega arith in
      let start : c + 1 + a ≡ c + suc a = omega arith in
      ap (λ n. picks n c vs) count
      ∙ picks-suc (a + b) c vs h (omega arith)
      ∙ ap (◌∷◌ (get_elem? vs (c % length vs))) (picks-append a b (c + 1) vs h (omega arith))
      ∙ ap (λ d. get_elem? vs (c % length vs) ∷ (picks a (c + 1) vs ++ picks b d vs)) start
      ∙ ap (λ ps. ps ++ picks b (c + suc a) vs) (sym (picks-suc a c vs h (omega arith)))

  -- From the turn of the first value of a segment, the calls return the segment in order.
  picks-segment :
      (us xs ws vs : List T) (c : ℕ)
      → vs ≡ us ++ (xs ++ ws)
      → c % length vs ≡ length us
      → c + length xs < 2 ^ 64
      → picks (length xs) c vs ≡ map some xs
  picks-segment us [] ws vs c e m lt = refl
  picks-segment us (x ∷ xs) ws vs c e m lt =
      picks-suc (length xs) c vs long (omega arith)
      ∙ ap₂ ◌∷◌ first (
          rest xs shift (omega arith)
            (λ d. picks-segment (us ++ x ∷ []) xs ws vs (c + 1) shift d (omega arith)))
    where
      long : 0 < length vs
      long = omega (arith, ap length e, length-append us (x ∷ (xs ++ ws)))

      first : get_elem? vs (c % length vs) ≡ some x
      first = ap₂ get_elem? e m ∙ get_elem?-append us x (xs ++ ws)

      shift : vs ≡ (us ++ x ∷ []) ++ (xs ++ ws)
      shift = e ∙ sym (append_assoc us (x ∷ []) (xs ++ ws))

      rest :
          (ys : List T)
          → vs ≡ (us ++ x ∷ []) ++ (ys ++ ws)
          → c + suc (length ys) < 2 ^ 64
          → ((c + 1) % length vs ≡ length (us ++ x ∷ [])
              → picks (length ys) (c + 1) vs ≡ map some ys)
          → picks (length ys) (c + 1) vs ≡ map some ys
      rest [] e' lt' ih = refl
      rest (y ∷ ys) e' lt' ih = ih (
          ground (
            arith,
            mod-add_one c (length vs) long,
            length-append us (x ∷ []),
            ap length e',
            length-append (us ++ x ∷ []) (y ∷ (ys ++ ws)),
          ))

  -- Over one round of calls, one for each candidate, the round-robin strategy returns every
  -- candidate once, in the order of the list from the counter's place on and then from its start,
  -- as long as the counter does not reach 2 ^ 64.
  pub picks-length :
      (c : ℕ) (vs : List T)
      → 0 < length vs
      → c + length vs < 2 ^ 64
      → picks (length vs) c vs ≡ map some (drop (c % length vs) vs ++ take (c % length vs) vs)
  picks-length c vs h lt =
      ap (λ n. picks n c vs) turned
      ∙ picks-append (length back) (length front) c vs h (omega (arith, total))
      ∙ ap₂ ◌++◌
          (picks-segment front back [] vs c (sym whole ∙ ap (◌++◌ front) (sym (append-nil back)))
            (sym front_length) (omega (arith, total)))
          (picks-segment [] front back vs (c + length back) (sym whole) home (omega (arith, total)))
      ∙ sym (map-append some back front)
    where
      front : List T
      front = take (c % length vs) vs

      back : List T
      back = drop (c % length vs) vs

      whole : front ++ back ≡ vs
      whole = take-append-drop (c % length vs) vs

      total : length front + length back ≡ length vs
      total = sym (length-append front back) ∙ ap length whole

      turned : length vs ≡ length back + length front
      turned = omega (arith, total)

      front_length : length front ≡ c % length vs
      front_length = length-take_le (c % length vs) vs (omega (arith, mod-lt c h))

      round : c % length vs + length back ≡ length vs
      round = omega (arith, total, front_length)

      home : (c + length back) % length vs ≡ 0
      home =
          sym (mod-add-mod c (length vs) (length back))
          ∙ ap (λ k. k % length vs) round
          ∙ mod_self (length vs)
