-- ===== src/Quota/Wakeup.antt =====
-- Waiters are woken: a limiter never stops blocking within one generation of its channel.
use go_gost_x.Prelude.{◌≤◌, ◌<◌, ◌≡◌, ◌⊎◌, inl, inr, true, false, List, [], ◌∷◌, arith, ℤ}
use go_gost_x.Quota.{
  Limiter, add, update, flush_tick, bound_tick, close, Event, adds, updates, flush_ticks,
  bound_ticks, closes, step, run,
}

-- A waiter parks on a limiter that is not closed and has its flag set.
abbrev pub Parks : Limiter → Type 0
Parks l = (l.blocked ≡ true) × (l.closed ≡ false)

step-Parks :
    (l : Limiter) (now : ℤ) (e : Event)
    → (l.generation ≤ (step l now e).generation)
      × (Parks l → Parks (step l now e) ⊎ (l.generation < (step l now e).generation))
unfolding step add update flush_tick bound_tick close
step-Parks l now (adds n dir) = (ground arith, λ p. ground arith)
step-Parks l now (updates u) = (ground arith, λ p. ground arith)
step-Parks l now flush_ticks = (ground arith, λ p. ground arith)
step-Parks l now bound_ticks = (ground arith, λ p. ground arith)
step-Parks l now closes = (ground arith, λ p. ground arith)

generation_mono : (l : Limiter) (es : List (ℤ × Event)) → l.generation ≤ (run l es).generation
unfolding run
generation_mono l [] = omega arith
generation_mono l ((now, e) ∷ es) =
    omega (arith, (step-Parks l now e).0, generation_mono (step l now e) es)

-- Where a waiter parks with the channel of a generation, then after any events the limiter still
-- has its flag set and is not closed, or a later generation has begun, so the waiter's channel has
-- been closed.
pub run-Parks :
    (l : Limiter) (es : List (ℤ × Event))
    → Parks l
    → Parks (run l es) ⊎ (l.generation < (run l es).generation)
unfolding run
run-Parks l [] p = inl p
run-Parks l ((now, e) ∷ es) p = elim ((step-Parks l now e).1 p) [
  | inl q ↦ elim (run-Parks (step l now e) es q) [
    | inl r ↦ inl r
    | inr lt ↦ inr (omega (arith, (step-Parks l now e).0))
  ]
  | inr lt ↦ inr (omega (arith, generation_mono (step l now e) es))
]
