-- ===== src/Conn.antt =====
-- limiter/conn: limits on the number of connections. A limiter is shared by the groups of several
-- keys, so its counter stands in a store, the heap, and a *llimiter is a place of the heap.
pub mod Undo
pub mod Group
pub mod Keys
pub mod Slots
use go_gost_x.Prelude.{
  ℕ, zero, suc, ◌+◌, ◌==◌, Bool, true, false, not, ◌&&◌, List, [], ◌∷◌, Option, none, some, ℤ, pos,
  negsuc, neg, ◌+ℤ◌, ltb_ℤ, int_64, ltb, if◌then◌else◌,
}

-- `current` is the sum of all that was added to the counter. The int64 of the code is what it wraps
-- to, int_64 of it, and is read only where Allow tests it: adding to the one and then wrapping gives
-- the same as adding to the other.
pub record Limiter : Type 0 where
  pub limit : ℤ
  pub current : ℤ

abbrev pub Heap : Type 0
Heap = ℕ → Limiter

abbrev pub put : Heap → ℕ → Limiter → Heap
put h i l = λ j. if i == j then l else h j

abbrev pub neg_ℤ : ℤ → ℤ
neg_ℤ (pos n) = neg n
neg_ℤ (negsuc n) = pos (suc n)

-- atomic.AddInt64(&l.current, n)
abbrev pub raise : ℤ → Limiter → Limiter
raise n l = record l { current = l.current +ℤ n }

-- Allow of llimiter, on the limiter at a place.
unfoldable pub allow : Heap → ℕ → ℤ → Heap × Bool
unfolding ◌+ℤ◌ int_64
allow h i n =
    let raised = put h i (raise n (h i)) in
    if ltb_ℤ n (pos 0)
    then (raised, true)
    else if ltb_ℤ (h i).limit (int_64 ((h i).current +ℤ n))
    then (put raised i (raise (neg_ℤ n) (raised i)), false)
    else (raised, true)

-- The loop over the group's limiters from the i-th one on, and the place where it ends: at the
-- first that refuses.
unfoldable pub visit : Heap → ℤ → ℕ → List ℕ → Bool → Heap × ℕ × Bool
unfolding allow
visit h n i [] b = (h, i, b)
visit h n i (x ∷ xs) b =
    let (h', ok) = allow h x n in
    let rest = visit h' n (suc i) xs true in if ok then rest else (h', i, false)

abbrev take : ℕ → List ℕ → List ℕ
take zero xs = []
take (suc n) [] = []
take (suc n) (x ∷ xs) = x ∷ take n xs

-- The loop that takes the count back from the limiters that allowed it.
unfoldable pub undo : Heap → ℤ → List ℕ → Heap
unfolding allow
undo h n [] = h
undo h n (x ∷ xs) = undo (allow h x (neg_ℤ n)).0 n xs

-- Allow of limiterGroup.
unfoldable pub group_allow : Heap → List ℕ → ℤ → Heap × Bool
unfolding visit undo
group_allow h xs n =
    let (h', i, b) = visit h n 0 xs false in
    if not b && (ltb 0 i && ltb_ℤ (pos 0) n) then (undo h' n (take i xs), b) else (h', b)
