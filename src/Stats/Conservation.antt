-- ===== src/Stats/Conservation.antt =====
-- Traffic that the readers of the counters are told.
use go_gost_x.Prelude.{
  ℕ, ◌+◌, ◌%◌, ◌^◌, ◌≡◌, refl, ◌∙◌, ap, sym, Bool, true, false, not, List, [], ◌∷◌, Option, some,
  arith, all, if◌then◌else◌,
}
use go_gost_x.Stats.{Kind, Stats, Call, new_stats, to_uint64, plus, get, run}
use go_gost_x.Stats.Wrap.{to_uint64-add}
use go_gost_x.Stats.Refinement.{same, is_traffic, amount, sum, pending, word, word_step, run-get}

-- The values that the Gets of a kind returned in a history, added.
unfoldable pub returned : Option Stats → Kind → List Call → ℕ
returned s k [] = 0
returned s k (Call.gets j ∷ cs) = returned s k cs + (if same j k then (get (run s cs) k).1 else 0)
returned s k (Call.adds j n ∷ cs) = returned s k cs
returned s k (Call.resets ∷ cs) = returned s k cs
returned s k (Call.asks ∷ cs) = returned s k cs

abbrev pub is_reset : Call → Bool
is_reset Call.resets = true
is_reset _ = false

abbrev start : Option Stats
start = some (new_stats true)

total : Kind → List Call → ℕ
total k cs = to_uint64 (sum (amount k) cs)

total-cons :
    (k : Kind) (c : Call) (cs : List Call) → total k (c ∷ cs) ≡ plus (total k cs) (amount k c)
unfolding total
total-cons k c cs = sym (to_uint64-add (sum (amount k) cs) (amount k c))

told :
    (k : Kind) (c : Call) (cs : List Call)
    → is_traffic k ≡ true
    → is_reset c ≡ false
    → (returned start k cs + word true k cs) % 2 ^ 64 ≡ total k cs
    → (returned start k (c ∷ cs) + word true k (c ∷ cs)) % 2 ^ 64 ≡ total k (c ∷ cs)
unfolding returned
told k c cs t z ih = ground (arith, word_step true k c cs, total-cons k c cs, (run-get true cs k).0)

told_all :
    (k : Kind) (cs : List Call)
    → is_traffic k ≡ true
    → all (λ c. not (is_reset c)) cs ≡ true
    → (returned start k cs + word true k cs) % 2 ^ 64 ≡ total k cs
unfolding returned pending total
told_all k [] t h = refl
told_all k (c ∷ cs) t h = told k c cs t (ground arith) (told_all k cs t (ground arith))

-- Where Get resets traffic and there is no Reset, nothing is lost and nothing is told twice: in any
-- history the values that the Gets of a direction returned, with the one that a Get returns next,
-- add up to the bytes that were added for it, modulo 2 ^ 64.
pub returned-get :
    (k : Kind) (cs : List Call)
    → is_traffic k ≡ true
    → all (λ c. not (is_reset c)) cs ≡ true
    → (returned (some (new_stats true)) k cs + (get (run (some (new_stats true)) cs) k).1) % 2 ^ 64
      ≡ to_uint64 (sum (amount k) cs)
unfolding pending total
returned-get k cs t h =
    ap (λ v. (returned start k cs + v) % 2 ^ 64) (run-get true cs k).0 ∙ told_all k cs t h
