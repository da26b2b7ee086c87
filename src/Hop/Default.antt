-- ===== src/Hop/Default.antt =====
-- config/parsing/selector: a hop with the selector that a configuration gives it by default.
use go_gost_x.Prelude.{
  ℕ, suc, ◌≡◌, refl, sym, subst, ◌∙◌, ◌⊎◌, inl, inr, Bool, true, false, List, [], ◌∷◌, Option, none,
  some, Memᴰ,
}
use go_gost_x.Selector.View.{View}
use go_gost_x.Selector.OneOf.{OneOf}
use go_gost_x.Selector.Filter.{default_max_fails, default_fail_timeout, fail_filter, backup_filter}
use go_gost_x.Selector.Filter.Kept.{fail_filter-keeps, backup_filter-some}
use go_gost_x.Selector.Filter.Healthy.{healthy, healthy-alive}
use go_gost_x.Selector.Select.{
  Filter, fail, backup, Strategy, round_robin, Env, run_filters, run_filter,
}
use go_gost_x.Selector.Select as Selector
use go_gost_x.Selector.Select.Laws.{Draws, select-OneOf}
use go_gost_x.Hop.Node.{Node, SelectOptions, Contains, bypassed_by}
use go_gost_x.Hop.Gate.{admitted}
use go_gost_x.Hop.Tier.{Pick}
use go_gost_x.Hop.Tier.Best.{contends, Best, Within, Answers}
use go_gost_x.Hop.Scan.Ranking.{candidates}
use go_gost_x.Hop.Select.{ChainHop, select}
use go_gost_x.Hop.Select.Laws.{Sorts, mixed}
use go_gost_x.Hop.Select.Best.{select-Best, select-some}

-- DefaultNodeSelector
unfoldable pub default_filters : List Filter
default_filters = fail default_max_fails default_fail_timeout ∷ backup ∷ []

unfoldable pub default_strategy : ℕ → Strategy Node
default_strategy counter = round_robin counter

-- The counter that a call leaves.
abbrev counter_of : Strategy Node → ℕ
counter_of (round_robin counter) = counter
counter_of s = 0

-- What the calls of a selector read, one after the other; its state is the counter of its strategy.
pub record Reading : Type 0 where
  pub env : Env
  pub draws : Draws env

abbrev pub Calls : Type 0
Calls = ℕ × (ℕ → Reading)

-- The nodes as a selector reads them.
module _ (view : View Node) where
  unfoldable pub pick_by : List Filter → Pick Calls
  unfolding default_strategy
  pick_by filters (counter, readings) ns =
      let (v, s) = Selector.select view (readings 0).env filters (default_strategy counter) ns in
      (v, (counter_of s, λ k. readings (suc k)))

  unfoldable pub default_hop : List (Option Node) → Option Contains → ChainHop Calls
  unfolding pick_by default_filters
  default_hop nodes bypass = record {
    nodes = nodes;
    bypass = bypass;
    selector = some (pick_by default_filters);
  }

  pub pick_by-Within : (filters : List Filter) → Within (some (pick_by filters))
  unfolding pick_by default_strategy
  pick_by-Within filters (counter, readings) ns v e = given (
      select-OneOf view (readings 0).env filters (default_strategy counter) ns (readings 0).draws
        tt)
    where
      got : Option Node
      got = (Selector.select view (readings 0).env filters (default_strategy counter) ns).0

      given :
          ((run_filters view (readings 0).env.now filters ns ≡ []) × (got ≡ none)) ⊎ OneOf ns got
          → Memᴰ v ns
      given (inl (p, q)) = absurd (nothing (sym q ∙ e))
        where
          nothing : none ≡ some v → ⊥
          nothing r = cc
      given (inr m) = subst (OneOf ns) e m

  pub pick_by-Answers : Answers (healthy view default_max_fails) (some (pick_by default_filters))
  unfolding pick_by default_strategy default_filters run_filters run_filter
  pick_by-Answers (counter, readings) ns w i h = given got refl (
      select-OneOf view (readings 0).env default_filters (default_strategy counter) ns
        (readings 0).draws tt)
    where
      got : Option Node
      got = (Selector.select view (readings 0).env default_filters (default_strategy counter) ns).0

      live : List Node
      live = fail_filter view default_max_fails default_fail_timeout (readings 0).env.now ns

      left : (u : Node) × Memᴰ u (backup_filter view live)
      left = backup_filter-some view w live (
          fail_filter-keeps view default_max_fails default_fail_timeout (readings 0).env.now w ns i
            (healthy-alive view default_max_fails default_fail_timeout (readings 0).env.now w h))

      given :
          (r : Option Node)
          → got ≡ r
          → ((backup_filter view live ≡ []) × (got ≡ none)) ⊎ OneOf ns got
          → (v : Node) × (got ≡ some v)
      given (some v) e x = (v, e)
      given none e (inl (p, q)) = elim (subst (Memᴰ left.0) p left.1) [ ]
      given none e (inr m) = absurd (subst (OneOf ns) e m)

  -- A hop with the default selector, whose bypass lets the address through, returns a node where
  -- a contender among the nodes that are not bypassed and pass their matchers or filters has not
  -- failed as often as its limit: one of these nodes, which no such contender has a higher priority
  -- than, and whose priority some contender has. It needs a sort that sorts, and random sources
  -- whose draws stay below their bounds.
  pub select_default-Best :
      (sort_slice : (Node → Node → Bool) → List Node → List Node) (nodes : List (Option Node))
      (bypass : Option Contains) (o : SelectOptions) (calls : Calls) (w : Node)
      → Sorts sort_slice
      → bypassed_by bypass o ≡ false
      → Memᴰ (some w) nodes
      → admitted o w ≡ true
      → contends (mixed (candidates o nodes)) w ≡ true
      → healthy view default_max_fails w ≡ true
      → (v : Node) × ((select sort_slice (default_hop nodes bypass) o calls).0 ≡ some v)
        × Best (healthy view default_max_fails) (mixed (candidates o nodes)) (candidates o nodes) v
  unfolding default_hop
  select_default-Best sort_slice nodes bypass o calls w s b i a c h =
      let (v, e) =
        select-some sort_slice (healthy view default_max_fails) (default_hop nodes bypass) o calls w
          s (pick_by-Within default_filters) pick_by-Answers b i a c h in
      let (p, j, q, best) =
        select-Best sort_slice (healthy view default_max_fails) (default_hop nodes bypass) o calls v
          s (pick_by-Within default_filters) pick_by-Answers e in
      (v, e, best)
