-- ===== src/Selector/Select.antt =====
-- selector/selector.go: defaultSelector. A filter and a strategy are values of the types below, one
-- constructor for each implementation of selector.Filter and, but for parallelStrategy, which makes
-- a new node, of selector.Strategy.
pub mod Laws
use go_gost_x.Prelude.{ℕ, List, [], ◌∷◌, Option, none, some, ℤ}
use go_gost_x.Text.{Text}
use go_gost_x.Selector.View.{View}
use go_gost_x.Selector.Filter.{fail_filter, backup_filter, latency_filter}
use go_gost_x.Selector.Weighted.{Weighted}
use go_gost_x.Selector.Strategy.{
  apply_round_robin, apply_fifo, apply_hash, apply_random, apply_lowest,
}

pub data Filter : Type 0 where
  fail : ℤ → ℤ → Filter
  backup : Filter
  latency : ℤ → Filter

-- The strategies with their state: the counter, and the weighted items of the last call.
pub data Strategy (T : Type 0) : Type 0 where
  round_robin : ℕ → Strategy T
  random : Weighted T → Strategy T
  fifo : Strategy T
  hash : Strategy T
  lowest_latency : Strategy T

-- What a call reads beside its arguments: the time, the random source, and the context.
pub record Env : Type 0 where
  pub now : ℤ
  pub intn : ℕ → ℕ
  pub crc32 : Text → ℕ
  pub client : Text
  pub source : Option Text

module _ {T : Type 0} (view : View T) where
  unfoldable pub run_filter : ℤ → Filter → List T → List T
  unfolding fail_filter backup_filter latency_filter
  run_filter now (fail max_fails timeout) vs = fail_filter view max_fails timeout now vs
  run_filter now backup vs = backup_filter view vs
  run_filter now (latency max_latency) vs = latency_filter view max_latency vs

  -- The loop of `Select` over its filters.
  unfoldable pub run_filters : ℤ → List Filter → List T → List T
  run_filters now [] vs = vs
  run_filters now (f ∷ fs) vs = run_filters now fs (run_filter now f vs)

  unfoldable pub apply : Env → Strategy T → List T → Option T × Strategy T
  unfolding apply_round_robin apply_fifo apply_hash apply_random apply_lowest
  apply env (round_robin counter) vs =
      let (v, counter') = apply_round_robin counter vs in (v, round_robin counter')
  apply env (random rw) vs = let (v, rw') = apply_random view env.intn rw vs in (v, random rw')
  apply env fifo vs = (apply_fifo vs, fifo)
  apply env hash vs = (apply_hash env.crc32 env.client env.source env.intn vs, hash)
  apply env lowest_latency vs = (apply_lowest view vs, lowest_latency)

  abbrev pub apply_to : Env → Strategy T → List T → Option T × Strategy T
  apply_to env strategy [] = (none, strategy)
  apply_to env strategy (v ∷ vs) = apply env strategy (v ∷ vs)

  unfoldable pub select : Env → List Filter → Strategy T → List T → Option T × Strategy T
  unfolding run_filters run_filter apply
  select env filters strategy vs = apply_to env strategy (run_filters env.now filters vs)
