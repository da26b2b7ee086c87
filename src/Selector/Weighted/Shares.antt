-- ===== src/Selector/Weighted/Shares.antt =====
-- How many of the draws select an item.
use go_gost_x.Prelude.{
  some, ℕ, ◌+◌, ◌-◌, ◌≤◌, ◌<◌, ◌≡◌, refl, ◌∙◌, ap, List, [], ◌∷◌, ◌++◌, ℤ, pos, negsuc, pos_part,
  ◌+ℤ◌, ◌-ℤ◌, ◌≤ℤ◌, arith, All, max_int, int_64, int_64-pos, int_64-difference,
}
use mathlib.Core.List.{append_assoc, append-nil}
use go_gost_x.Selector.Weighted.{new, next, scan_items, Weighted, add, scan}

passed :
    (draw u : ℕ) → u ≤ draw → draw < max_int → int_64 (pos (draw + 1) -ℤ pos u) ≡ pos (draw - u + 1)
unfolding ◌-ℤ◌
passed draw u le hi = int_64-difference (draw + 1) u (omega arith) (omega arith) ∙ ground arith

module _ {T : Type 0} where
  abbrev pub total : List (T × ℤ) → ℕ
  total [] = 0
  total ((x, w) ∷ its) = pos_part w + total its

  abbrev pub Positive : T × ℤ → Type 0
  Positive (x, w) = pos 1 ≤ℤ w

  -- Each item is added in turn.
  abbrev pub add_all : List (T × ℤ) → Weighted T → Weighted T
  add_all [] rw = rw
  add_all ((x, w) ∷ its) rw = add_all its (add x w rw)

  pub add_all-items :
      (its : List (T × ℤ)) (rw : Weighted T) → (add_all its rw).items ≡ rw.items ++ its
  unfolding add
  add_all-items [] r = rw append-nil refl
  add_all-items ((x, w) ∷ its) r = add_all-items its (add x w r) ∙ append_assoc r.items _ its

  pub add_all-sum :
      (its : List (T × ℤ)) (rw : Weighted T) (n : ℕ)
      → All Positive its
      → n + total its ≤ max_int
      → rw.sum ≡ pos n
      → (add_all its rw).sum ≡ pos (n + total its)
  unfolding add ◌+ℤ◌
  add_all-sum [] r n v le e = e ∙ ap pos (omega arith)
  add_all-sum ((x, pos w) ∷ its) r n v le e =
      add_all-sum its (add x (pos w) r) (n + w) v.1 (omega arith)
        (ground (arith, int_64-pos (n + w) (omega arith)))
      ∙ ap pos (omega arith)
  add_all-sum ((x, negsuc w) ∷ its) r n v le e = absurd (omega (arith, v.0))

  scan-share :
      (before after : List (T × ℤ)) (x last : T) (w : ℤ) (draw : ℕ)
      → All Positive (before ++ (x, w) ∷ after)
      → total before ≤ draw
      → draw < total before + pos_part w
      → total before + pos_part w ≤ max_int
      → scan (pos (draw + 1)) last (before ++ (x, w) ∷ after) ≡ x
  unfolding scan ◌-ℤ◌
  scan-share [] after x last (pos w) draw v le lt hi =
      rw (int_64-difference (draw + 1) w (omega arith) (omega arith)) (ground arith)
  scan-share [] after x last (negsuc w) draw v le lt hi = absurd (omega (arith, v.0))
  scan-share ((y, pos u) ∷ before) after x last w draw v le lt hi =
      rw (passed draw u (omega arith) (omega arith)) (
        ground (
          arith,
          scan-share before after x y w (draw - u) v.1 (omega arith) (omega arith) (omega arith),
        ))
  scan-share ((y, negsuc u) ∷ before) after x last w draw v le lt hi = absurd (omega (arith, v.0))

  total-append : (xs ys : List (T × ℤ)) → total (xs ++ ys) ≡ total xs + total ys
  total-append [] ys = omega arith
  total-append ((x, w) ∷ xs) ys = omega (arith, total-append xs ys)

  scan_items-share :
      (before after : List (T × ℤ)) (x : T) (w : ℤ) (draw : ℕ)
      → All Positive (before ++ (x, w) ∷ after)
      → total before ≤ draw
      → draw < total before + pos_part w
      → total before + pos_part w ≤ max_int
      → scan_items (pos (draw + 1)) (before ++ (x, w) ∷ after) ≡ some x
  unfolding scan_items
  scan_items-share [] after x w draw v le lt hi =
      ap some (scan-share [] after x x w draw v le lt hi)
  scan_items-share ((y, u) ∷ before) after x w draw v le lt hi =
      ap some (scan-share ((y, u) ∷ before) after x y w draw v le lt hi)

  -- After items of positive weights, with a sum that is an int, have been added to an empty selector,
  -- each item is selected by as many of the draws as its weight says: by those from the sum of the
  -- weights before it up to that sum and its own weight.
  pub next-add_all :
      (before after : List (T × ℤ)) (x : T) (w : ℤ) (draw : ℕ)
      → All Positive (before ++ (x, w) ∷ after)
      → total before ≤ draw
      → draw < total before + pos_part w
      → total (before ++ (x, w) ∷ after) ≤ max_int
      → next draw (add_all (before ++ (x, w) ∷ after) new) ≡ some x
  unfolding next new
  next-add_all before after x w draw v le lt fits =
      let its : List (T × ℤ) = before ++ (x, w) ∷ after in
      let parts = total-append before ((x, w) ∷ after) in
      ground (
        arith,
        add_all-sum its new 0 v (omega arith) refl,
        add_all-items its new,
        parts,
        scan_items-share before after x w draw v le lt (omega (arith, parts)),
      )
