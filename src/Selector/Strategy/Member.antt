-- ===== src/Selector/Strategy/Member.antt =====
-- Every strategy returns one of its candidates.
use go_gost_x.Prelude.{
  ℕ, ◌%◌, ◌<◌, ◌≤◌, max_int, ◌≡◌, refl, sym, ap, subst, ◌∙◌, Bool, true, false, not, List, [], ◌∷◌,
  Option, none, some, arith, ℤ, pos_part, get_elem?, length, if◌then◌else◌, All,
}
use native.Mathlib.Nat.{mod-lt}
use go_gost_x.Text.{Text, is_empty}
use go_gost_x.Selector.View.{View}
use go_gost_x.Selector.Weighted.{Weighted, add, reset, new, next}
use go_gost_x.Selector.Weighted.Shares.{add_all, Positive, total}
use go_gost_x.Selector.Weighted.Member.{names, next-OneOf}
use go_gost_x.Selector.OneOf.{OneOf, get_elem?-OneOf}
use go_gost_x.Selector.Strategy.{apply_round_robin, apply_hash, apply_random, add_each, weight_of}

module _ {T : Type 0} where
  pub apply_round_robin-OneOf :
      (c : ℕ) (v : T) (vs : List T) → OneOf (v ∷ vs) (apply_round_robin c (v ∷ vs)).0
  unfolding apply_round_robin
  apply_round_robin-OneOf c v vs = get_elem?-OneOf (v ∷ vs) _ (mod-lt _ (omega arith))

  pub apply_hash-OneOf :
      (crc32 : Text → ℕ) (client : Text) (source : Option Text) (intn : ℕ → ℕ) (v : T) (vs : List T)
      → ((n : ℕ) → 0 < n → intn n < n)
      → OneOf (v ∷ vs) (apply_hash crc32 client source intn (v ∷ vs))
  unfolding apply_hash
  apply_hash-OneOf crc32 client source intn v vs draws = go (not (is_empty client)) source
    where
      go :
          (b : Bool) (o : Option Text)
          → OneOf (v ∷ vs) (
              if b
              then get_elem? (v ∷ vs) (crc32 client % length (v ∷ vs))
              else (elim o as (λ _. Option T) [
                | some s ↦ get_elem? (v ∷ vs) (crc32 s % length (v ∷ vs))
                | none ↦ get_elem? (v ∷ vs) (intn (length (v ∷ vs)))
              ]))
      go true o = get_elem?-OneOf (v ∷ vs) _ (mod-lt _ (omega arith))
      go false (some s) = get_elem?-OneOf (v ∷ vs) _ (mod-lt _ (omega arith))
      go false none = get_elem?-OneOf (v ∷ vs) _ (draws (length (v ∷ vs)) (omega arith))

module _ {T : Type 0} (view : View T) where
  unfoldable pub weighted : List T → List (T × ℤ)
  weighted [] = []
  weighted (v ∷ vs) = (v, weight_of view v) ∷ weighted vs

  weight_of-Positive : (v : T) → Positive (v, weight_of view v)
  weight_of-Positive v = ground arith

  weighted-Positive : (vs : List T) → All Positive (weighted vs)
  unfolding weighted
  weighted-Positive [] = tt
  weighted-Positive (v ∷ vs) = (weight_of-Positive v, weighted-Positive vs)

  names-weighted : (vs : List T) → names (weighted vs) ≡ vs
  unfolding weighted
  names-weighted [] = refl
  names-weighted (v ∷ vs) = ap (◌∷◌ v) (names-weighted vs)

  add_each-add_all :
      (vs : List T) (rw : Weighted T) → add_each view vs rw ≡ add_all (weighted vs) rw
  unfolding add_each weighted
  add_each-add_all [] r = refl
  add_each-add_all (v ∷ vs) r = add_each-add_all vs (add v (weight_of view v) r)

  reset-new : (r : Weighted T) → reset r ≡ new
  unfolding reset new
  reset-new r = refl

  pub apply_random-OneOf :
      (intn : ℕ → ℕ) (r : Weighted T) (v : T) (vs : List T)
      → total (weighted (v ∷ vs)) ≤ max_int
      → OneOf (v ∷ vs) (apply_random view intn r (v ∷ vs)).0
  unfolding apply_random weighted
  apply_random-OneOf intn r v vs le =
      let w : Weighted T = add_each view (v ∷ vs) (reset r) in
      let e : w ≡ add_all (weighted (v ∷ vs)) new =
        add_each-add_all (v ∷ vs) (reset r) ∙ ap (add_all (weighted (v ∷ vs))) (reset-new r) in
      subst (λ us. OneOf us (next (intn (pos_part w.sum)) w)) (names-weighted (v ∷ vs))
        (subst (λ x. OneOf (names (weighted (v ∷ vs))) (next (intn (pos_part w.sum)) x)) (sym e)
          (next-OneOf (intn (pos_part w.sum)) v (weight_of view v) (weighted vs)
            (weighted-Positive (v ∷ vs)) le))
