-- ===== src/Tests/Selecting.antt =====
-- The selectors over three nodes.
use go_gost_x.Prelude.{
  ◌≡◌, refl, Bool, true, false, List, [], ◌∷◌, map, Option, none, some, arith, Memᴰ, ℤ, pos, ◌≤ℤ◌,
  ◌-◌,
}
use go_gost_x.Selector.View.{View, Marker, Probe}
use go_gost_x.Selector.Filter.{alive}
use go_gost_x.Selector.Weighted.{new, next}
use go_gost_x.Selector.Weighted.Shares.{add_all, next-add_all}
use go_gost_x.Selector.Strategy.{apply_lowest}
use go_gost_x.Selector.Strategy.RoundRobin.{picks, picks-length}
use go_gost_x.Selector.Strategy.Lowest.{Measured, apply_lowest-Measured}
use go_gost_x.Selector.Select.{fail, backup, round_robin, Env, select}
use go_gost_x.Selector.Select.Laws.{Draws, Preferred, select-Preferred}

data Node : Type 0 where
  near far spare : Node

-- `near` has failed twice just now; `spare` is a backup; only `far` has been probed.
abbrev marker_of : Node → Option Marker
marker_of near = some (record { count = pos 2; time = pos 100 })
marker_of far = none
marker_of spare = none

abbrev backup_of : Node → Bool
backup_of spare = true
backup_of near = false
backup_of far = false

abbrev probe_of : Node → Option Probe
probe_of far = some (record { success = true; latency = pos 30 })
probe_of near = none
probe_of spare = none

abbrev nodes : View Node
nodes = record {
  max_fails = λ v. none;
  fail_timeout = λ v. none;
  marker = marker_of;
  backup = backup_of;
  weight = λ v. pos 1;
  probe = probe_of;
}

abbrev all_nodes : List Node
all_nodes = near ∷ far ∷ spare ∷ []

abbrev env : Env
env = record { now = pos 200; intn = λ n. n - 1; crc32 = λ s. 0; client = []; source = none }

draws : Draws env
draws n h = omega arith

far_alive : alive nodes (pos 1) (pos 0) (pos 200) far ≡ true
unfolding alive
far_alive = refl

near_dead : alive nodes (pos 1) (pos 0) (pos 200) near ≡ false
unfolding alive
near_dead = refl

select-Preferred_example :
    (u : Node) × ((select nodes env
        (fail (pos 1) (pos 0) ∷ backup ∷ [])
        (round_robin 5)
        all_nodes).0
      ≡ some u)
    × Memᴰ u all_nodes
    × Preferred nodes (pos 1) (pos 0) (pos 200) u
select-Preferred_example =
    select-Preferred nodes env (pos 1) (pos 0) (round_robin 5) all_nodes far draws tt
      (Memᴰ.tail (Memᴰ.head refl)) (far_alive, refl)

picks-length_example : picks 3 4 all_nodes ≡ map some (far ∷ spare ∷ near ∷ [])
picks-length_example = picks-length 4 all_nodes (omega arith) (omega arith)

next-add_all_example : next 2 (add_all ((near, pos 2) ∷ (far, pos 3) ∷ []) new) ≡ some far
next-add_all_example =
    next-add_all ((near, pos 2) ∷ []) [] far (pos 3) 2 (omega arith) (omega arith) (omega arith)
      (omega arith)

apply_lowest-Measured_example :
    (u : Node) × (l : ℤ) × (apply_lowest nodes all_nodes ≡ some u)
    × Memᴰ u all_nodes
    × Measured nodes u l
    × ((w : Node) (n : ℤ) → Memᴰ w all_nodes → Measured nodes w n → l ≤ℤ n)
apply_lowest-Measured_example =
    apply_lowest-Measured nodes all_nodes far (pos 30) (Memᴰ.tail (Memᴰ.head refl)) refl
