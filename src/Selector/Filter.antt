-- ===== src/Selector/Filter.antt =====
-- selector/filter.go and selector/latency.go: the filters.
pub mod Kept
pub mod Healthy
use go_gost_x.Prelude.{
  Bool, true, not, ◌||◌, List, [], ◌∷◌, Option, none, some, ℤ, pos, ◌-ℤ◌, ltb_ℤ, leb_ℤ, leb, length,
  if◌then◌else◌,
}
use go_gost_x.Selector.View.{View, Marker, Probe}

-- DefaultMaxFails, and DefaultFailTimeout in nanoseconds.
abbrev pub default_max_fails : ℤ
default_max_fails = pos 1

abbrev pub default_fail_timeout : ℤ
default_fail_timeout = pos 10000000000

abbrev or_else : Option ℤ → ℤ → ℤ
or_else none d = d
or_else (some n) d = n

abbrev positive_or : ℤ → ℤ → ℤ
positive_or n d = if leb_ℤ n (pos 0) then d else n

module _ {T : Type 0} where
  -- The append of each loop: the values that pass its test, in their order.
  unfoldable pub keep : (T → Bool) → List T → List T
  keep p [] = []
  keep p (v ∷ vs) = if p v then v ∷ keep p vs else keep p vs

  abbrev pub non_empty_or : List T → List T → List T
  non_empty_or [] bs = bs
  non_empty_or (v ∷ vs) bs = v ∷ vs

module _ {T : Type 0} (view : View T) where
  -- The limits that hold for a value: its metadata's before the filter's.
  abbrev pub max_fails_of : ℤ → T → ℤ
  max_fails_of max_fails v = positive_or (or_else (view.max_fails v) max_fails) default_max_fails

  abbrev pub fail_timeout_of : ℤ → T → ℤ
  fail_timeout_of timeout v =
      positive_or (or_else (view.fail_timeout v) timeout) default_fail_timeout

  abbrev alive_marker : ℤ → ℤ → ℤ → Option Marker → Bool
  alive_marker max_fails timeout now none = true
  alive_marker max_fails timeout now (some m) =
      ltb_ℤ m.count max_fails || leb_ℤ timeout (now -ℤ m.time)

  -- One round of the loop of failFilter.Filter; `now` is the time that time.Since reads.
  unfoldable pub alive : ℤ → ℤ → ℤ → T → Bool
  unfolding ◌-ℤ◌
  alive max_fails timeout now v =
      alive_marker (max_fails_of max_fails v) (fail_timeout_of timeout v) now (view.marker v)

  unfoldable pub fail_filter : ℤ → ℤ → ℤ → List T → List T
  unfolding keep alive
  fail_filter max_fails timeout now vs =
      if leb (length vs) 1 then vs else keep (alive max_fails timeout now) vs

  unfoldable pub backup_filter : List T → List T
  unfolding keep
  backup_filter vs =
      if leb (length vs) 1
      then vs
      else non_empty_or (keep (λ v. not (view.backup v)) vs) (keep view.backup vs)

  -- A value with no probe result passes.
  abbrev fast_probe : ℤ → Option Probe → Bool
  fast_probe max_latency none = true
  fast_probe max_latency (some r) = not (not r.success || ltb_ℤ max_latency r.latency)

  unfoldable pub latency_filter : ℤ → List T → List T
  unfolding keep
  latency_filter max_latency vs =
      if leb (length vs) 1 || leb_ℤ max_latency (pos 0)
      then vs
      else keep (λ v. fast_probe max_latency (view.probe v)) vs
