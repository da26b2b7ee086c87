-- ===== src/Selector/Strategy.antt =====
-- selector/strategy.go and selector/latency.go: the strategies. What the context holds is an argument;
-- `intn` is the random source's Intn, `crc32` is crc32.ChecksumIEEE.
pub mod RoundRobin
pub mod Lowest
pub mod Member
use go_gost_x.Prelude.{
  pos_part, ℕ, suc, ◌+◌, ◌-◌, ◌%◌, ◌^◌, Bool, true, false, not, ◌&&◌, ◌||◌, List, [], ◌∷◌, Option,
  none, some, ℤ, pos, ltb_ℤ, leb_ℤ, get_elem?, length, if◌then◌else◌,
}
use go_gost_x.Text.{Text, is_empty}
use go_gost_x.Selector.View.{View, Probe}
use go_gost_x.Selector.Weighted.{Weighted, reset, add, next}

module _ {T : Type 0} where
  -- The counter is a uint64; AddUint64 wraps, and 1 is taken off its result.
  unfoldable pub apply_round_robin : ℕ → List T → Option T × ℕ
  apply_round_robin counter [] = (none, counter)
  apply_round_robin counter (v ∷ vs) =
      let counter' = (counter + 1) % 2 ^ 64 in
      let n = (counter' + 2 ^ 64 - 1) % 2 ^ 64 in
      (get_elem? (v ∷ vs) (n % length (v ∷ vs)), counter')

  unfoldable pub apply_fifo : List T → Option T
  apply_fifo [] = none
  apply_fifo (v ∷ vs) = some v

  -- What hashStrategy reads: the client's ID, and the hash source if the context has one.
  unfoldable pub apply_hash : (Text → ℕ) → Text → Option Text → (ℕ → ℕ) → List T → Option T
  apply_hash crc32 client source intn [] = none
  apply_hash crc32 client source intn (v ∷ vs) =
      if not (is_empty client)
      then get_elem? (v ∷ vs) (crc32 client % length (v ∷ vs))
      else (elim source [
        | some s ↦ get_elem? (v ∷ vs) (crc32 s % length (v ∷ vs))
        | none ↦ get_elem? (v ∷ vs) (intn (length (v ∷ vs)))
      ])

  module _ (view : View T) where
    abbrev pub weight_of : T → ℤ
    weight_of v = if leb_ℤ (view.weight v) (pos 0) then pos 1 else view.weight v

    add_each : List T → Weighted T → Weighted T
    add_each [] rw = rw
    add_each (v ∷ vs) rw = add_each vs (add v (weight_of v) rw)

    unfoldable pub apply_random : (ℕ → ℕ) → Weighted T → List T → Option T × Weighted T
    unfolding add_each reset next
    apply_random intn rw [] = (none, rw)
    apply_random intn rw (v ∷ vs) =
        let rw' = add_each (v ∷ vs) (reset rw) in (next (intn (pos_part rw'.sum)) rw', rw')

    -- The variables of the loop of lowestLatencyStrategy.Apply, with the value for its index.
    pub record Best : Type 0 where
      pub best : Option (T × ℤ)
      pub fallback : Option T

    abbrev fall_back : T → Best → Best
    fall_back v b = elim b.fallback [ none ↦ record b { fallback = some v } | some u ↦ b ]

    abbrev improves : ℤ → Option (T × ℤ) → Bool
    improves latency none = true
    improves latency (some (u, best)) = ltb_ℤ latency best

    abbrev consider : T → Option Probe → Best → Best
    consider v none b = fall_back v b
    consider v (some r) b =
        if not r.success
        then fall_back v b
        else if improves r.latency b.best
        then record b { best = some (v, r.latency) }
        else b

    lowest_loop : List T → Best → Best
    lowest_loop [] b = b
    lowest_loop (v ∷ vs) b = lowest_loop vs (consider v (view.probe v) b)

    abbrev choose : T → Best → T
    choose v b = elim b.best [
      | some (u, latency) ↦ u
      | none ↦ elim b.fallback [ some u ↦ u | none ↦ v ]
    ]

    unfoldable pub apply_lowest : List T → Option T
    unfolding lowest_loop
    apply_lowest [] = none
    apply_lowest (v ∷ vs) =
        some (choose v (lowest_loop (v ∷ vs) (record { best = none; fallback = none })))
