-- ===== src/Chain/Dial/Attempts.antt =====
-- The attempts of a router.
use go_gost_x.Prelude.{
  ℕ, zero, suc, ◌+◌, ◌-◌, ◌≡◌, refl, subst, ◌⊎◌, inl, inr, Bool, true, false, Option, none, some,
  if◌then◌else◌, ℤ, pos, negsuc, pos_part, ◌+ℤ◌, ◌≤ℤ◌, leb_ℤ, ltb, max_int, int_64, arith,
}
use go_gost_x.Text.{Text, bytes}
use go_gost_x.Chain.Resolve.{resolve}
use go_gost_x.Chain.Dial.{
  Router, Outside, dial_once, dial, dial_over, dial_resolved, route_of, Outcome, outcome_of,
  settled, leave, attempts, retry,
}

abbrev pub IsInt : ℤ → Type 0
IsInt z = (negsuc max_int ≤ℤ z) × (z ≤ℤ pos max_int)

-- Retries + 1, and 1 for a negative number and for the largest one.
abbrev pub count_of : ℤ → ℕ
count_of (pos n) = if ltb n max_int then n + 1 else 1
count_of (negsuc n) = 1

-- At most `n` attempts, one after the other, each on the state that the one before it left: the last
-- one has the result, and only it may settle.
pub data Tries {S C : Type 0} (IsAttempt : S → Outcome C × S → Type 0)
    : ℕ → S → Outcome C × S → Type 0 where
  ends :
      {n : ℕ} {st : S} {r : Outcome C × S}
      → IsAttempt st r
      → (settled r.0 ≡ true) ⊎ (n ≡ 0)
      → Tries IsAttempt (suc n) st r
  goes_on :
      {n : ℕ} {st : S} {r q : Outcome C × S}
      → IsAttempt st r
      → settled r.0 ≡ false
      → Tries IsAttempt n r.1 q
      → Tries IsAttempt (suc n) st q

module _ {S C : Type 0} (attempt : S → Outcome C × S) (IsAttempt : S → Outcome C × S → Type 0)
    (each : (st : S) → IsAttempt st (attempt st)) where
  attempts-Tries : (n : ℕ) (st : S) → Tries IsAttempt (suc n) st (attempts attempt n st)
  unfolding attempts
  attempts-Tries zero st = ends (each st) (inr refl)
  attempts-Tries (suc n) st = split (settled (attempt st).0) refl (attempts-Tries n (attempt st).1)
    where
      split :
          (b : Bool)
          → settled (attempt st).0 ≡ b
          → Tries IsAttempt (suc n) (attempt st).1 (attempts attempt n (attempt st).1)
          → Tries IsAttempt (suc (suc n)) st (leave b (attempts attempt n) (attempt st))
      split true e t = ends (each st) (inl e)
      split false e t = goes_on (each st) e t

  retry-Tries :
      (retries : ℤ) (st : S)
      → IsInt retries
      → Tries IsAttempt (count_of retries) st (retry attempt retries st)
  unfolding retry int_64 ◌+ℤ◌
  retry-Tries retries st i =
      subst (λ k. Tries IsAttempt k st (retry attempt retries st)) (counted retries i)
        (attempts-Tries _ st)
    where
      times : ℤ → ℕ
      times r = let n = int_64 (r +ℤ pos 1) in pos_part (if leb_ℤ n (pos 0) then pos 1 else n) - 1

      counted : (r : ℤ) → IsInt r → suc (times r) ≡ count_of r
      counted (pos n) (lo, hi) = ground arith
      counted (negsuc n) (lo, hi) = ground arith

-- An attempt of Dial: the address is not resolved, or a route to what it resolves to is chosen and
-- dialled.
abbrev pub IsDial :
    {S N C : Type 0} → Outside S N C → Router S N → Text → Text → Text → S → Outcome C × S → Type 0
IsDial w r network address host st q =
    let resolved = resolve w.join (r.host_mapper st) (r.resolver st) (bytes "ip") address in
    ((resolved ≡ none) × (q ≡ (outcome_of none, st)))
    ⊎ ((ip : Text) × (resolved ≡ some ip)
        × (q ≡ dial_over w network (ip) (route_of r.chain network ip host st)))

dial_once-IsDial :
    {S N C : Type 0} (w : Outside S N C) (r : Router S N) (network address host : Text) (st : S)
    → IsDial w r network address host st (dial_once w r network address host st)
unfolding dial_once
dial_once-IsDial w r network address host st =
    by_case (resolve w.join (r.host_mapper st) (r.resolver st) (bytes "ip") address) refl
  where
    by_case :
        (o : Option Text)
        → resolve w.join (r.host_mapper st) (r.resolver st) (bytes "ip") address ≡ o
        → IsDial w r network address host st
            (dial_resolved (dial_over w network) (λ ip. route_of r.chain network ip host) o st)
    by_case none e = inl (e, refl)
    by_case (some ip) e = inr (ip, e, refl)

-- Dial of a router makes at most Retries + 1 attempts, and 1 where Retries is negative or the
-- largest int. Each resolves the address, and if it can, chooses a route to what that gives and
-- dials over it, on the state that the attempt before it left. The result is that of the first
-- attempt that has a connection or no error, or of the last.
pub dial-Tries :
    {S N C : Type 0} (w : Outside S N C) (r : Router S N) (network address host : Text) (st : S)
    → IsInt r.retries
    → Tries
        (IsDial w r network address host)
        (count_of r.retries)
        st
        (dial w r network address host st)
unfolding dial
dial-Tries w r network address host st i =
    retry-Tries (dial_once w r network address host) (IsDial w r network address host)
      (dial_once-IsDial w r network address host) r.retries st i
