-- ===== src/Stats.antt =====
-- observer/stats/stats.go: the counters of a service. A nil *Stats is none.
pub mod Wrap
pub mod Refinement
pub mod Conservation
use go_gost_x.Prelude.{
  ℕ, ◌+◌, ◌-◌, ◌%◌, ◌^◌, Bool, true, false, Option, none, some, ℤ, pos, negsuc, ltb_ℤ,
  if◌then◌else◌, List, [], ◌∷◌,
}

-- The kinds of go-gost/core; `other` is a number that is none of theirs.
pub data Kind : Type 0 where
  total_conns current_conns input_bytes output_bytes total_errs other : Kind

pub record Stats : Type 0 where
  pub updated : Bool
  pub total_conns : ℕ
  pub current_conns : ℕ
  pub input_bytes : ℕ
  pub output_bytes : ℕ
  pub total_errs : ℕ
  pub reset_traffic : Bool

unfoldable pub new_stats : Bool → Stats
new_stats reset = record {
  updated = false;
  total_conns = 0;
  current_conns = 0;
  input_bytes = 0;
  output_bytes = 0;
  total_errs = 0;
  reset_traffic = reset;
}

-- uint64(n)
abbrev pub to_uint64 : ℤ → ℕ
to_uint64 (pos n) = n % 2 ^ 64
to_uint64 (negsuc n) = 2 ^ 64 - 1 - n % 2 ^ 64

-- Add of an atomic.Uint64.
abbrev pub plus : ℕ → ℤ → ℕ
plus c n = (c + to_uint64 n) % 2 ^ 64

abbrev count : Stats → Kind → ℤ → Stats
count s Kind.total_conns n =
    if ltb_ℤ (pos 0) n then record s { total_conns = plus s.total_conns n } else s
count s Kind.current_conns n = record s { current_conns = plus s.current_conns n }
count s Kind.input_bytes n = record s { input_bytes = plus s.input_bytes n }
count s Kind.output_bytes n = record s { output_bytes = plus s.output_bytes n }
count s Kind.total_errs n =
    if ltb_ℤ (pos 0) n then record s { total_errs = plus s.total_errs n } else s
count s Kind.other n = s

-- Add
unfoldable pub add : Option Stats → Kind → ℤ → Option Stats
add none k n = none
add (some s) k n = some (record (count s k n) { updated = true })

abbrev read : Stats → Kind → Stats × ℕ
read s Kind.total_conns = (s, s.total_conns)
read s Kind.current_conns = (s, s.current_conns)
read s Kind.input_bytes =
    if s.reset_traffic then (record s { input_bytes = 0 }, s.input_bytes) else (s, s.input_bytes)
read s Kind.output_bytes =
    if s.reset_traffic then (record s { output_bytes = 0 }, s.output_bytes) else (s, s.output_bytes)
read s Kind.total_errs = (s, s.total_errs)
read s Kind.other = (s, 0)

-- Get
unfoldable pub get : Option Stats → Kind → Option Stats × ℕ
get none k = (none, 0)
get (some s) k = let (s', v) = read s k in (some s', v)

-- Reset; none for the panic at a nil.
unfoldable pub reset : Option Stats → Option Stats
reset none = none
reset (some s) = some (record s {
  updated = false;
  total_conns = 0;
  current_conns = 0;
  input_bytes = 0;
  output_bytes = 0;
  total_errs = 0;
})

-- IsUpdated; at a nil it panics, and the answer is none.
unfoldable pub is_updated : Option Stats → Option Stats × Option Bool
is_updated none = (none, none)
is_updated (some s) = (some (record s { updated = false }), some s.updated)

pub data Call : Type 0 where
  adds : Kind → ℤ → Call
  gets : Kind → Call
  resets asks : Call

abbrev pub step : Option Stats → Call → Option Stats
step s (adds k n) = add s k n
step s (gets k) = (get s k).0
step s resets = reset s
step s asks = (is_updated s).0

-- A history of calls, the latest first.
unfoldable pub run : Option Stats → List Call → Option Stats
run s [] = s
run s (c ∷ cs) = step (run s cs) c
