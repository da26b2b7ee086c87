-- ===== src/Selector/Select/Laws.antt =====
-- What a selection returns.
use go_gost_x.Prelude.{
  ℕ, ◌<◌, ◌≤◌, Bool, not, leb, length, if◌then◌else◌, max_int, arith, ◌≡◌, refl, ◌⊎◌, inl, inr,
  subst, true, false, List, [], ◌∷◌, Option, none, some, ℤ, Memᴰ,
}
use go_gost_x.Selector.View.{View}
use go_gost_x.Selector.OneOf.{OneOf}
use go_gost_x.Selector.Filter.{alive, keep, non_empty_or, fail_filter, backup_filter}
use go_gost_x.Selector.Filter.Kept.{
  fail_filter-keeps, backup_filter-keeps, fail_filter-Memᴰ, backup_filter-Memᴰ, latency_filter-Memᴰ,
}
use go_gost_x.Selector.Weighted.Shares.{total}
use go_gost_x.Selector.Strategy.{apply_fifo}
use go_gost_x.Selector.Strategy.Member.{
  apply_round_robin-OneOf, apply_hash-OneOf, apply_random-OneOf, weighted,
}
use go_gost_x.Selector.Strategy.Lowest.{apply_lowest-OneOf}
use go_gost_x.Selector.Select.{
  Filter, fail, backup, latency, Strategy, round_robin, random, fifo, hash, lowest_latency, Env,
  run_filter, run_filters, apply, apply_to, select,
}

-- What rand.Intn promises: a draw below its bound.
abbrev pub Draws : Env → Type 0
Draws env = (n : ℕ) → 0 < n → env.intn n < n

module _ {T : Type 0} (view : View T) where
  -- The sum of the values' weights is an int, where the strategy adds them up.
  abbrev pub Summable : Strategy T → List T → Type 0
  Summable (random rw) vs = total (weighted view vs) ≤ max_int
  Summable (round_robin c) vs = Unit {0}
  Summable fifo vs = Unit {0}
  Summable hash vs = Unit {0}
  Summable lowest_latency vs = Unit {0}

  apply_to-OneOf :
      (env : Env) (strategy : Strategy T) (vs : List T)
      → Draws env
      → Summable strategy vs
      → ((vs ≡ []) × ((apply_to view env strategy vs).0 ≡ none))
        ⊎ OneOf vs (apply_to view env strategy vs).0
  unfolding apply apply_fifo
  apply_to-OneOf env strategy [] d s = inl (refl, refl)
  apply_to-OneOf env (round_robin c) (v ∷ vs) d s = inr (apply_round_robin-OneOf c v vs)
  apply_to-OneOf env (random rw) (v ∷ vs) d s = inr (apply_random-OneOf view env.intn rw v vs s)
  apply_to-OneOf env fifo (v ∷ vs) d s = inr (Memᴰ.head refl)
  apply_to-OneOf env hash (v ∷ vs) d s =
      inr (apply_hash-OneOf env.crc32 env.client env.source env.intn v vs d)
  apply_to-OneOf env lowest_latency (v ∷ vs) d s = inr (apply_lowest-OneOf view v vs)

  run_filter-Memᴰ :
      (now : ℤ) (f : Filter) (vs : List T) (u : T) → Memᴰ u (run_filter view now f vs) → Memᴰ u vs
  unfolding run_filter
  run_filter-Memᴰ now (fail m t) vs u i = (fail_filter-Memᴰ view m t now u u vs i).0
  run_filter-Memᴰ now backup vs u i = (backup_filter-Memᴰ view u u vs i).0
  run_filter-Memᴰ now (latency m) vs u i = latency_filter-Memᴰ view m u vs i

  run_filters-Memᴰ :
      (now : ℤ) (fs : List Filter) (vs : List T) (u : T)
      → Memᴰ u (run_filters view now fs vs)
      → Memᴰ u vs
  unfolding run_filters
  run_filters-Memᴰ now [] vs u i = i
  run_filters-Memᴰ now (f ∷ fs) vs u i =
      run_filter-Memᴰ now f vs u (run_filters-Memᴰ now fs (run_filter view now f vs) u i)

  OneOf-mono :
      (us vs : List T) (o : Option T) → ((u : T) → Memᴰ u us → Memᴰ u vs) → OneOf us o → OneOf vs o
  OneOf-mono us vs none h i = i
  OneOf-mono us vs (some u) h i = h u i

  -- With any filters and any strategy, a selection returns one of the given values, or no value:
  -- that only if the filters leave none. It needs a random source whose draws stay below their
  -- bound, and weights whose sum is an int, where the strategy adds them up.
  pub select-OneOf :
      (env : Env) (filters : List Filter) (strategy : Strategy T) (vs : List T)
      → Draws env
      → Summable strategy (run_filters view env.now filters vs)
      → ((run_filters view env.now filters vs ≡ [])
          × ((select view env filters strategy vs).0 ≡ none))
        ⊎ OneOf vs (select view env filters strategy vs).0
  unfolding select
  select-OneOf env filters strategy vs d s =
      elim (apply_to-OneOf env strategy (run_filters view env.now filters vs) d s) [
        | inl h ↦ inl h
        | inr i ↦ inr (
            OneOf-mono (run_filters view env.now filters vs) vs _
              (run_filters-Memᴰ env.now filters vs) i)
      ]

  -- A value passes for the fail filter and is no backup.
  abbrev pub Preferred : ℤ → ℤ → ℤ → T → Type 0
  Preferred max_fails timeout now v =
      (alive view max_fails timeout now v ≡ true) × (view.backup v ≡ false)

  keep-total :
      (p : T → Bool) (vs : List T) → total (weighted view (keep p vs)) ≤ total (weighted view vs)
  unfolding keep weighted
  keep-total p [] = omega arith
  keep-total p (v ∷ vs) = by_case (p v) (keep-total p vs)
    where
      by_case :
          (b : Bool)
          → total (weighted view (keep p vs)) ≤ total (weighted view vs)
          → total (weighted view (if b then v ∷ keep p vs else keep p vs))
            ≤ total (weighted view (v ∷ vs))
      by_case true le = omega arith
      by_case false le = omega arith

  if-total :
      (b : Bool) (vs us ws : List T)
      → total (weighted view us) ≤ total (weighted view vs)
      → total (weighted view ws) ≤ total (weighted view vs)
      → total (weighted view (if b then us else ws)) ≤ total (weighted view vs)
  if-total true vs us ws le lt = le
  if-total false vs us ws le lt = lt

  non_empty_or-total :
      (vs us ws : List T)
      → total (weighted view us) ≤ total (weighted view vs)
      → total (weighted view ws) ≤ total (weighted view vs)
      → total (weighted view (non_empty_or us ws)) ≤ total (weighted view vs)
  non_empty_or-total vs [] ws le lt = lt
  non_empty_or-total vs (u ∷ us) ws le lt = le

  fail_filter-total :
      (max_fails timeout now : ℤ) (vs : List T)
      → total (weighted view (fail_filter view max_fails timeout now vs)) ≤ total (weighted view vs)
  unfolding fail_filter
  fail_filter-total max_fails timeout now vs =
      if-total (leb (length vs) 1) vs vs _ (omega arith)
        (keep-total (alive view max_fails timeout now) vs)

  backup_filter-total :
      (vs : List T) → total (weighted view (backup_filter view vs)) ≤ total (weighted view vs)
  unfolding backup_filter
  backup_filter-total vs = if-total (leb (length vs) 1) vs vs _ (omega arith) (
      non_empty_or-total vs (keep (λ v. not (view.backup v)) vs) _
        (keep-total (λ v. not (view.backup v)) vs) (keep-total view.backup vs))

  preferred-Summable :
      (strategy : Strategy T) (vs us : List T)
      → total (weighted view us) ≤ total (weighted view vs)
      → Summable strategy vs
      → Summable strategy us
  preferred-Summable (random rw) vs us le s = omega arith
  preferred-Summable (round_robin c) vs us le s = tt
  preferred-Summable fifo vs us le s = tt
  preferred-Summable hash vs us le s = tt
  preferred-Summable lowest_latency vs us le s = tt

  -- With a fail filter and then a backup filter, where some of the given values is alive and no
  -- backup, every strategy selects such a value. A value is alive where its marker counts fewer
  -- fails than its limit, or the last one is its timeout ago or longer, or it has no marker. It
  -- needs a random source whose draws stay below their bound and, where the strategy adds the
  -- weights up, values whose weights have a sum that is an int.
  pub select-Preferred :
      (env : Env) (max_fails timeout : ℤ) (strategy : Strategy T) (vs : List T) (v : T)
      → Draws env
      → Summable strategy vs
      → Memᴰ v vs
      → Preferred max_fails timeout env.now v
      → (u : T) × ((select view env (fail max_fails timeout ∷ backup ∷ []) strategy vs).0 ≡ some u)
        × Memᴰ u vs
        × Preferred max_fails timeout env.now u
  unfolding select run_filters run_filter
  select-Preferred env max_fails timeout strategy vs v d s i (a, b) =
      chosen (apply_to view env strategy rest).0 (apply_to-OneOf env strategy rest d small)
    where
      live : List T
      live = fail_filter view max_fails timeout env.now vs

      rest : List T
      rest = backup_filter view live

      small : Summable strategy rest
      small =
          preferred-Summable strategy vs rest
            (let f = fail_filter-total max_fails timeout env.now vs in
              let b = backup_filter-total live in omega (arith, f, b))
            s

      v_live : Memᴰ v live
      v_live = fail_filter-keeps view max_fails timeout env.now v vs i a

      v_rest : Memᴰ v rest
      v_rest = backup_filter-keeps view v live v_live b

      chosen :
          (o : Option T)
          → ((rest ≡ []) × (o ≡ none)) ⊎ OneOf rest o
          → (u : T) × (o ≡ some u) × Memᴰ u vs × Preferred max_fails timeout env.now u
      chosen none (inl (e, q)) = elim (subst (Memᴰ v) e v_rest) [ ]
      chosen none (inr h) = absurd h
      chosen (some u) (inl (e, q)) = elim (subst (Memᴰ v) e v_rest) [ ]
      chosen (some u) (inr m) =
          let (in_live, plain) = backup_filter-Memᴰ view u v live m in
          let (in_vs, alive_u) = fail_filter-Memᴰ view max_fails timeout env.now u v vs in_live in
          (u, refl, in_vs, ((alive_u i a).0, (plain v_live b).0))
