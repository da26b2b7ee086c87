-- ===== src/Stats/Wrap.antt =====
-- uint64(n) of a sum.
use go_gost_x.Prelude.{◌+◌, ◌%◌, ◌^◌, ◌≡◌, ℤ, pos, negsuc, ◌+ℤ◌, arith}
use go_gost_x.Stats.{to_uint64}

pub to_uint64-add : (a b : ℤ) → (to_uint64 a + to_uint64 b) % 2 ^ 64 ≡ to_uint64 (a +ℤ b)
unfolding ◌+ℤ◌
to_uint64-add (pos a) (pos b) = ground arith
to_uint64-add (pos a) (negsuc b) = ground arith
to_uint64-add (negsuc a) (pos b) = ground arith
to_uint64-add (negsuc a) (negsuc b) = ground arith
