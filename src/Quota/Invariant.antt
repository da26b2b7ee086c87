-- ===== src/Quota/Invariant.antt =====
-- When a limiter blocks.
use go_gost_x.Prelude.{
  ℕ, ◌+◌, ◌^◌, ◌≤◌, ◌<◌, ◌≡◌, true, false, not, ◌&&◌, List, [], ◌∷◌, Option, arith, ℤ, pos,
  pos_part, ltb, leb,
}
use native.Mathlib.Nat.{mod-eq_of_lt}
use go_gost_x.Quota.{
  Direction, Record, Limiter, Options, Update, active, enforcing, is_blocked, or_old, or_old_time,
  new_limiter, counts, add, update, flush_tick, bound_tick, close, Event, adds, updates,
  flush_ticks, bound_ticks, closes, step, run,
}

-- The flag is set only at a positive limit that is reached.
pub record IsSound (l : Limiter) : Type 0 where
  pub limited : l.blocked ≡ true → 0 < l.limit
  pub reached : l.blocked ≡ true → l.limit ≤ l.used

-- The 64-bit counter of bytes does not wrap.
abbrev pub Fits : Limiter → Event → Type 0
Fits l (adds n dir) = l.used + pos_part n < 2 ^ 64
Fits l (updates u) = Unit
Fits l flush_ticks = Unit
Fits l bound_ticks = Unit
Fits l closes = Unit

abbrev pub FitsAll : Limiter → List (ℤ × Event) → Type 0
FitsAll l [] = Unit
FitsAll l ((now, e) ∷ es) = Fits l e × FitsAll (step l now e) es

pub new_limiter-IsSound :
    (o : Options) (loaded : Option Record) (now : ℤ) → IsSound (new_limiter o loaded now)
unfolding new_limiter
new_limiter-IsSound o loaded now = ground arith

add-IsSound :
    (l : Limiter) (n : ℤ) (dir : Direction) (now : ℤ)
    → l.used + pos_part n < 2 ^ 64
    → IsSound l
    → IsSound (add l n dir now)
unfolding add
add-IsSound l n dir now fits v = ground (arith, mod-eq_of_lt fits)

update-IsSound : (l : Limiter) (u : Update) (now : ℤ) → IsSound l → IsSound (update l u now)
unfolding update
update-IsSound l u now v = ground arith

flush_tick-IsSound : (l : Limiter) (now : ℤ) → IsSound l → IsSound (flush_tick l now)
unfolding flush_tick
flush_tick-IsSound l now v = ground arith

bound_tick-IsSound : (l : Limiter) (now : ℤ) → IsSound l → IsSound (bound_tick l now)
unfolding bound_tick
bound_tick-IsSound l now v = ground arith

close-IsSound : (l : Limiter) (now : ℤ) → IsSound l → IsSound (close l now)
unfolding close
close-IsSound l now v = ground arith

step-IsSound : (l : Limiter) (now : ℤ) (e : Event) → Fits l e → IsSound l → IsSound (step l now e)
unfolding step
step-IsSound l now (adds n dir) fits v = add-IsSound l n dir now fits v
step-IsSound l now (updates u) fits v = update-IsSound l u now v
step-IsSound l now flush_ticks fits v = flush_tick-IsSound l now v
step-IsSound l now bound_ticks fits v = bound_tick-IsSound l now v
step-IsSound l now closes fits v = close-IsSound l now v

run-IsSound : (l : Limiter) (es : List (ℤ × Event)) → FitsAll l es → IsSound l → IsSound (run l es)
unfolding run
run-IsSound l [] fits v = v
run-IsSound l ((now, e) ∷ es) fits v =
    run-IsSound (step l now e) es fits.1 (step-IsSound l now e fits.0 v)

pub record Exceeded (l : Limiter) (now : ℤ) : Type 0 where
  pub open_limiter : l.closed ≡ false
  pub limited : 0 < l.limit
  pub reached : l.limit ≤ l.used
  pub in_time : active l now ≡ true

is_blocked-Exceeded : (l : Limiter) (now : ℤ) → IsSound l → is_blocked l now ≡ true → Exceeded l now
unfolding is_blocked
is_blocked-Exceeded l now v h = ground arith

-- After any history of a new limiter in which its counter does not wrap, it blocks only while it
-- is not closed, has a positive limit that the used bytes have reached, and is in its window.
pub run-new_limiter-Exceeded :
    (o : Options) (loaded : Option Record) (start now : ℤ) (es : List (ℤ × Event))
    → FitsAll (new_limiter o loaded start) es
    → is_blocked (run (new_limiter o loaded start) es) now ≡ true
    → Exceeded (run (new_limiter o loaded start) es) now
run-new_limiter-Exceeded o loaded start now es fits h =
    is_blocked-Exceeded _ now (run-IsSound _ es fits (new_limiter-IsSound o loaded start)) h

-- A positive number of bytes in a direction that counts, in the window of a limiter that is not
-- closed, is added to the used bytes, and the limiter then blocks exactly if it has a limit and
-- the sum reaches it, as long as the counter does not wrap.
pub add-is_blocked :
    (l : Limiter) (n : ℕ) (dir : Direction) (now : ℤ)
    → IsSound l
    → l.closed ≡ false
    → counts l.direction dir ≡ true
    → active l now ≡ true
    → 0 < n
    → l.used + n < 2 ^ 64
    → ((add l (pos n) dir now).used ≡ l.used + n)
      × (is_blocked (add l (pos n) dir now) now ≡ (ltb 0 l.limit && leb l.limit (l.used + n)))
unfolding add is_blocked
add-is_blocked l n dir now v c d a p fits = ground (arith, mod-eq_of_lt fits)

-- An update overwrites the fields that it gives and keeps the others, and leaves the limiter
-- blocking at that time exactly if it is not closed, enforces its limit, and the used bytes reach
-- the limit, all with the new values.
pub update-is_blocked :
    (l : Limiter) (u : Update) (now : ℤ)
    → ((update l u now).used ≡ or_old u.used l.used)
      × ((update l u now).limit ≡ or_old u.limit l.limit)
      × ((update l u now).starts_at ≡ or_old_time u.starts_at l.starts_at)
      × ((update l u now).expires_at ≡ or_old_time u.expires_at l.expires_at)
      × (is_blocked (update l u now) now ≡ (
          not l.closed
          && (enforcing (update l u now) now && leb (update l u now).limit (update l u now).used)))
unfolding update is_blocked
update-is_blocked l u now = ground arith
