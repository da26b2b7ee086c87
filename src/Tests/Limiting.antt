-- ===== src/Tests/Limiting.antt =====
-- Two limiters, of two connections and of one.
use go_gost_x.Prelude.{
  ℕ, zero, suc, ◌+ℤ◌, ◌≡◌, refl, not, ◌&&◌, List, [], ◌∷◌, arith, pos, true, max_int, int_64, all,
  if◌then◌else◌,
}
use go_gost_x.Conn.{Heap, raise, allow, visit, undo, group_allow}
use go_gost_x.Conn.Undo.{fits}
use go_gost_x.Conn.Group.{is_nil, member, group_allow-all}

abbrev empty : Heap
empty zero = record { limit = pos 2; current = pos 0 }
empty (suc x) = record { limit = pos 1; current = pos 0 }

abbrev pair : List ℕ
pair = 0 ∷ 1 ∷ []

-- The second call is refused by the limiter 1, and 0 gets its connection back.
refused : ((group_allow (group_allow empty pair (pos 1)).0 pair (pos 1)).0 0).current ≡ pos 1
unfolding group_allow visit undo allow ◌+ℤ◌ int_64
refused = refl

group_allow-all_example :
    ((group_allow empty pair (pos 1)).1 ≡ (not (is_nil pair) && all (fits empty 1) pair))
    × ((group_allow empty pair (pos 1)).0 1 ≡ (
        if not (is_nil pair) && all (fits empty 1) pair && member 1 pair
        then raise (pos 1) (empty 1)
        else empty 1))
group_allow-all_example = group_allow-all empty pair 1 1 (omega arith) (refl, (refl, tt))

-- A limiter that counts one connection allows the largest number of further ones: the sum wraps.
wrapped : (group_allow (λ x. record { limit = pos 1; current = pos 1 }) pair (pos max_int)).1 ≡ true
unfolding group_allow visit allow ◌+ℤ◌ int_64
wrapped = refl
