-- ===== src/Selector/Weighted/Member.antt =====
-- What `next` returns is one of the items.
use go_gost_x.Prelude.{
  subst, sym, ℕ, ◌+◌, ◌≡◌, refl, ◌⊎◌, inl, inr, List, [], ◌∷◌, arith, ℤ, pos, ◌-ℤ◌, leb_ℤ, Memᴰ,
  All, Bool-cases, int_64, max_int, ◌≤◌,
}
use go_gost_x.Selector.OneOf.{OneOf}
use go_gost_x.Selector.Weighted.{Weighted, new, next, scan, scan_items}
use go_gost_x.Selector.Weighted.Shares.{add_all, Positive, total, add_all-items, add_all-sum}

module _ {T : Type 0} where
  abbrev pub names : List (T × ℤ) → List T
  names [] = []
  names ((x, w) ∷ its) = x ∷ names its

  scan-Memᴰ :
      (n : ℤ) (last : T) (its : List (T × ℤ))
      → (scan n last its ≡ last) ⊎ Memᴰ (scan n last its) (names its)
  unfolding scan
  scan-Memᴰ n last [] = inl refl
  scan-Memᴰ n last ((x, w) ∷ its) = elim (Bool-cases (leb_ℤ (int_64 (n -ℤ w)) (pos 0))) [
    | inl e ↦ rw e (inr (Memᴰ.head refl))
    | inr e ↦ rw e (elim (scan-Memᴰ (int_64 (n -ℤ w)) x its) [
      | inl h ↦ inr (Memᴰ.head h)
      | inr h ↦ inr (Memᴰ.tail h)
    ])
  ]

  scan_items-OneOf :
      (n : ℤ) (x : T) (w : ℤ) (its : List (T × ℤ))
      → OneOf (names ((x, w) ∷ its)) (scan_items n ((x, w) ∷ its))
  unfolding scan_items
  scan_items-OneOf n x w its = elim (scan-Memᴰ n x ((x, w) ∷ its)) [
    | inl h ↦ Memᴰ.head h
    | inr h ↦ h
  ]

  started :
      (draw : ℕ) (x : T) (w : ℤ) (its : List (T × ℤ)) (r : Weighted T)
      → All Positive ((x, w) ∷ its)
      → r.sum ≡ pos (0 + total ((x, w) ∷ its))
      → r.items ≡ (x, w) ∷ its
      → next draw r ≡ scan_items (pos (draw + 1)) ((x, w) ∷ its)
  unfolding next
  started draw x w its r v s e = ground arith

  -- With positive weights the sum is not 0, and the scan begins.
  pub next-OneOf :
      (draw : ℕ) (x : T) (w : ℤ) (its : List (T × ℤ))
      → All Positive ((x, w) ∷ its)
      → total ((x, w) ∷ its) ≤ max_int
      → OneOf (names ((x, w) ∷ its)) (next draw (add_all ((x, w) ∷ its) new))
  unfolding next new
  next-OneOf draw x w its v le =
      let r : Weighted T = add_all ((x, w) ∷ its) new in
      subst (OneOf (names ((x, w) ∷ its)))
        (sym (
          started draw x w its r v (add_all-sum ((x, w) ∷ its) new 0 v (omega arith) refl)
            (add_all-items ((x, w) ∷ its) new)))
        (scan_items-OneOf (pos (draw + 1)) x w its)
