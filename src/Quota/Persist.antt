-- ===== src/Quota/Persist.antt =====
-- The counter across a restart.
use go_gost_x.Prelude.{◌≡◌, refl, ◌∙◌, true, false, List, [], ◌∷◌, Option, some, arith, ℤ, eq_ℤ}
use go_gost_x.Quota.{
  reevaluate, overwrite, Limiter, Record, Options, restored, unix_nano_or_zero, new_limiter, add,
  update, flush_tick, bound_tick, close, Event, adds, updates, flush_ticks, bound_ticks, closes,
  step, run,
}

-- What the store holds: the last record saved, or else what it held at the start.
abbrev pub latest : List Record → Option Record → Option Record
latest [] loaded = loaded
latest (rec ∷ recs) loaded = some rec

eq_ℤ_refl : (t : ℤ) → eq_ℤ t t ≡ true
eq_ℤ_refl t = ground arith

-- A limiter with a store and nothing to flush is restored from the store with its counter.
pub record IsKept (loaded : Option Record) (l : Limiter) : Type 0 where
  pub stored : l.store ≡ true
  pub current : l.dirty ≡ false → restored l.starts_at l.expires_at (latest l.saved loaded) ≡ l.used

new_limiter-IsKept :
    (o : Options) (loaded : Option Record) (now : ℤ)
    → o.store ≡ true
    → IsKept loaded (new_limiter o loaded now)
unfolding new_limiter
new_limiter-IsKept o loaded now s = record { stored = s; current = λ d. ground arith }

reevaluate-IsKept :
    (loaded : Option Record) (l : Limiter) (now : ℤ)
    → l.store ≡ true
    → IsKept loaded (reevaluate l now)
reevaluate-IsKept loaded l now s = ground (arith, eq_ℤ_refl l.starts_at, eq_ℤ_refl l.expires_at)

step-IsKept :
    (loaded : Option Record) (l : Limiter) (now : ℤ) (e : Event)
    → IsKept loaded l
    → IsKept loaded (step l now e)
unfolding step add update flush_tick bound_tick close
step-IsKept loaded l now (adds n dir) v = ground arith
step-IsKept loaded l now (updates u) v = reevaluate-IsKept loaded (overwrite l u) now v.stored
step-IsKept loaded l now flush_ticks v =
    ground (arith, eq_ℤ_refl l.starts_at, eq_ℤ_refl l.expires_at)
step-IsKept loaded l now bound_ticks v =
    ground (arith, eq_ℤ_refl l.starts_at, eq_ℤ_refl l.expires_at)
step-IsKept loaded l now closes v = ground (arith, eq_ℤ_refl l.starts_at, eq_ℤ_refl l.expires_at)

run-IsKept :
    (loaded : Option Record) (l : Limiter) (es : List (ℤ × Event))
    → IsKept loaded l
    → IsKept loaded (run l es)
unfolding run
run-IsKept loaded l [] v = v
run-IsKept loaded l ((now, e) ∷ es) v =
    run-IsKept loaded (step l now e) es (step-IsKept loaded l now e v)

flush_tick-dirty : (l : Limiter) (now : ℤ) → (flush_tick l now).dirty ≡ false
unfolding flush_tick
flush_tick-dirty l now = ground arith

flush_tick-IsKept :
    (loaded : Option Record) (l : Limiter) (now : ℤ)
    → IsKept loaded l
    → IsKept loaded (flush_tick l now)
unfolding step
flush_tick-IsKept loaded l now v = step-IsKept loaded l now flush_ticks v

restart-used :
    (o : Options) (rec : Option Record) (l : Limiter) (now : ℤ)
    → o.store ≡ true
    → unix_nano_or_zero o.starts_at ≡ l.starts_at
    → unix_nano_or_zero o.expires_at ≡ l.expires_at
    → (new_limiter o rec now).used ≡ restored l.starts_at l.expires_at rec
unfolding new_limiter
restart-used o rec l now s a b = rw (s, a, b) refl

-- Nothing counted is lost over a restart: a limiter with a store, after any history and a flush,
-- is made anew from what the store then holds with the same number of used bytes, if the new
-- limiter has a store and the same window.
pub new_limiter-flush_tick :
    (o o' : Options) (loaded : Option Record) (start flush restart : ℤ) (es : List (ℤ × Event))
    → o.store ≡ true
    → o'.store ≡ true
    → unix_nano_or_zero o'.starts_at
      ≡ (flush_tick (run (new_limiter o loaded start) es) flush).starts_at
    → unix_nano_or_zero o'.expires_at
      ≡ (flush_tick (run (new_limiter o loaded start) es) flush).expires_at
    → (new_limiter o'
        (latest (flush_tick (run (new_limiter o loaded start) es) flush).saved loaded)
        restart).used
      ≡ (flush_tick (run (new_limiter o loaded start) es) flush).used
new_limiter-flush_tick o o' loaded start flush restart es s s' a b =
    let l : Limiter = run (new_limiter o loaded start) es in
    let v : IsKept loaded l = run-IsKept loaded _ es (new_limiter-IsKept o loaded start s) in
    restart-used o' _ (flush_tick l flush) restart s' a b
    ∙ (flush_tick-IsKept loaded l flush v).current (flush_tick-dirty l flush)
