-- ===== src/Selector/Weighted.antt =====
-- selector/weighted.go: RandomWeighted. The draw of rand.Intn(sum) is an argument of `next`;
-- an int has 64 bits.
pub mod Shares
pub mod Member
use go_gost_x.Prelude.{
  ℕ, suc, ◌+◌, Bool, true, false, List, [], ◌∷◌, ◌++◌, Option, none, some, ℤ, pos, ◌+ℤ◌, ◌-ℤ◌,
  leb_ℤ, int_64, if◌then◌else◌,
}

pub record Weighted (T : Type 0) : Type 0 where
  pub items : List (T × ℤ)
  pub sum : ℤ

module _ {T : Type 0} where
  unfoldable pub new : Weighted T
  new = record { items = []; sum = pos 0 }

  unfoldable pub add : T → ℤ → Weighted T → Weighted T
  unfolding ◌+ℤ◌ int_64
  add item weight rw = record { items = items ++ (item, weight) ∷ []; sum = int_64 (sum +ℤ weight) }
    where
      open rw use {items, sum}

  -- The loop of `Next`; past its end stands the last item.
  scan : ℤ → T → List (T × ℤ) → T
  scan weight last [] = last
  scan weight last ((item, w) ∷ rest) =
      let left = int_64 (weight -ℤ w) in
      let later = scan left item rest in if leb_ℤ left (pos 0) then item else later

  scan_items : ℤ → List (T × ℤ) → Option T
  scan_items weight [] = none
  scan_items weight ((item, w) ∷ rest) = some (scan weight item ((item, w) ∷ rest))

  unfoldable pub next : ℕ → Weighted T → Option T
  unfolding scan scan_items ◌-ℤ◌ int_64
  next draw rw = if leb_ℤ rw.sum (pos 0) then none else scan_items (pos (draw + 1)) rw.items

  unfoldable pub reset : Weighted T → Weighted T
  reset rw = record { items = []; sum = pos 0 }
