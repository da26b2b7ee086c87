-- ===== src/Tests/Quotas.antt =====
-- A quota of 100 bytes between the times 10 and 1000, with a store.
use go_gost_x.Prelude.{◌<◌, ◌≡◌, refl, ◌⊎◌, true, List, [], ◌∷◌, none, some, arith, ℤ, pos}
use go_gost_x.Quota.{
  total, into, Limiter, Options, Update, new_limiter, is_blocked, Event, adds, bound_ticks, run,
  step,
}
use go_gost_x.Quota.Invariant.{Exceeded, run-new_limiter-Exceeded}
use go_gost_x.Quota.Wakeup.{Parks, run-Parks}

abbrev quota : Options
quota = record {
  limit = 100;
  starts_at = some (pos 10);
  expires_at = some (pos 1000);
  direction = total;
  store = true;
}

abbrev history : List (ℤ × Event)
history = (pos 20, adds (pos 60) into) ∷ (pos 30, adds (pos 50) into) ∷ []

abbrev fresh : Limiter
fresh = new_limiter quota none (pos 20)

abbrev no_change : Update
no_change = record { used = none; limit = none; starts_at = none; expires_at = none }

blocks : is_blocked (run fresh history) (pos 40) ≡ true
unfolding is_blocked run step new_limiter
blocks = refl

run-new_limiter-Exceeded_example : Exceeded (run fresh history) (pos 40)
unfolding is_blocked run step new_limiter
run-new_limiter-Exceeded_example =
    run-new_limiter-Exceeded quota none (pos 20) (pos 40) history (omega arith) blocks

parks : Parks (run fresh history)
unfolding run step new_limiter
parks = (refl, refl)

run-Parks_example :
    Parks (run (run fresh history) ((pos 2000, bound_ticks) ∷ []))
    ⊎ ((run fresh history).generation
        < (run (run fresh history) ((pos 2000, bound_ticks) ∷ [])).generation)
run-Parks_example = run-Parks (run fresh history) ((pos 2000, bound_ticks) ∷ []) parks
