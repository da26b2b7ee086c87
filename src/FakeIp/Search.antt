-- ===== src/FakeIp/Search.antt =====
-- The loop of Create: from the start on, and around the range's end to its first number.
pub mod Around
use go_gost_x.Prelude.{
  ℕ, zero, suc, ◌+◌, ◌-◌, ◌≤◌, ◌<◌, ◌==◌, ◌≡◌, refl, ◌⊎◌, inl, inr, Bool, true, false, not,
  Bool-cases, if◌then◌else◌, arith,
}
use go_gost_x.FakeIp.Addr.{Prefix, has, size}

pub data Found : Type 0 where
  found : ℕ → Found
  none_left : Found
  -- No end within the rounds given.
  spinning : Found

abbrev pub advance : Prefix → ℕ → ℕ → ℕ
advance r first v = if has r (v + 1) then v + 1 else first

-- The rounds from the number `v` on.
unfoldable pub rounds : (ℕ → Bool) → Prefix → ℕ → ℕ → ℕ → ℕ → Found
rounds taken r first start zero v = spinning
rounds taken r first start (suc n) v =
    let v' = advance r first v in
    let rest = rounds taken r first start n v' in
    if not (taken v) then found v else if v' == start then none_left else rest

-- Each number of the range is tried once at most.
unfoldable pub search : (ℕ → Bool) → Prefix → ℕ → ℕ → Found
unfolding rounds size
search taken r first start = rounds taken r first start (size r) start
