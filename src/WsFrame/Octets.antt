-- ===== src/WsFrame/Octets.antt =====
-- The first two bytes of a header.
use Prim.Native.Nat.{bit_or}
use go_gost_x.Prelude.{
  List, ◌∷◌, [], ap, Memᴰ-any, inr, inl, [], Bool-cases, List, Memᴰ, any, ℕ, zero, suc, ◌%◌, ◌<◌,
  ◌==◌, ◌≡◌, refl, Bool, true, false, not, ◌&&◌, arith, ==_iff,
}
use go_gost_x.WsFrame.{bit, flag, first_byte}

upto : ℕ → List ℕ
upto zero = []
upto (suc n) = n ∷ upto n

Memᴰ-upto : (x n : ℕ) → x < n → Memᴰ x (upto n)
unfolding upto
Memᴰ-upto x zero l = absurd (omega arith)
Memᴰ-upto x (suc n) l = elim (Bool-cases (x == n)) [
  | inl e ↦ Memᴰ.head ((==_iff x n).0 e)
  | inr e ↦ Memᴰ.tail (Memᴰ-upto x n (ground arith))
]

-- No number below the bound fails the test.
holds_below : ℕ → (ℕ → Bool) → Bool
holds_below n p = not (any (λ x. not (p x)) (upto n))

holds_at : (n x : ℕ) (p : ℕ → Bool) → x < n → holds_below n p ≡ true → p x ≡ true
unfolding holds_below
holds_at n x p l h = elim (Bool-cases (p x)) [
  | inl e ↦ e
  | inr e ↦ absurd (let m = Memᴰ-any (λ y. not (p y)) (Memᴰ-upto x n l) (ap not e) in cc)
]

abbrev same : Bool → Bool → Bool
same true b = b
same false b = not b

same_eq : (a b : Bool) → same a b ≡ true → b ≡ a
same_eq a b h = ground arith

and_parts : (a b : Bool) → (a && b) ≡ true → (a ≡ true) × (b ≡ true)
and_parts true b h = (refl, h)
and_parts false b h = cc

reads_back : Bool → Bool → Bool → Bool → ℕ → Bool
unfolding first_byte
reads_back f r1 r2 r3 op =
    let b = first_byte f r1 r2 r3 op in
    same f (bit b 7)
    && (same r1 (bit b 6) && (same r2 (bit b 5) && (same r3 (bit b 4) && b % 16 == op)))

reads_back_table : (f r1 r2 r3 : Bool) → holds_below 16 (reads_back f r1 r2 r3) ≡ true
unfolding holds_below upto reads_back
reads_back_table true true true true = refl
reads_back_table true true true false = refl
reads_back_table true true false true = refl
reads_back_table true true false false = refl
reads_back_table true false true true = refl
reads_back_table true false true false = refl
reads_back_table true false false true = refl
reads_back_table true false false false = refl
reads_back_table false true true true = refl
reads_back_table false true true false = refl
reads_back_table false true false true = refl
reads_back_table false true false false = refl
reads_back_table false false true true = refl
reads_back_table false false true false = refl
reads_back_table false false false true = refl
reads_back_table false false false false = refl

-- The flags and the opcode are read back from the first byte.
pub first_byte_bits :
    (f r1 r2 r3 : Bool) (op : ℕ)
    → op < 16
    → (bit (first_byte f r1 r2 r3 op) 7 ≡ f)
      × (bit (first_byte f r1 r2 r3 op) 6 ≡ r1)
      × (bit (first_byte f r1 r2 r3 op) 5 ≡ r2)
      × (bit (first_byte f r1 r2 r3 op) 4 ≡ r3)
      × (first_byte f r1 r2 r3 op % 16 ≡ op)
unfolding reads_back
first_byte_bits f r1 r2 r3 op lt =
    let b = first_byte f r1 r2 r3 op in
    let (h7, q6) =
      and_parts _ _ (holds_at 16 op (reads_back f r1 r2 r3) lt (reads_back_table f r1 r2 r3)) in
    let (h6, q5) = and_parts _ _ q6 in
    let (h5, q4) = and_parts _ _ q5 in
    let (h4, h) = and_parts _ _ q4 in
    (same_eq f _ h7, same_eq r1 _ h6, same_eq r2 _ h5, same_eq r3 _ h4, (==_iff (b % 16) op).0 h)

masks_back : Bool → ℕ → Bool
masks_back m x = let b = bit_or (flag m 128) x in same m (bit b 7) && b % 128 == x

masks_back_table : (m : Bool) → holds_below 128 (masks_back m) ≡ true
unfolding holds_below upto masks_back
masks_back_table true = refl
masks_back_table false = refl

-- The mask's flag and the seven other bits are read back from the second byte.
pub mask_bits :
    (m : Bool) (x : ℕ)
    → x < 128
    → (bit (bit_or (flag m 128) x) 7 ≡ m) × (bit_or (flag m 128) x % 128 ≡ x)
unfolding masks_back
mask_bits m x lt =
    let b = bit_or (flag m 128) x in
    let (h7, h) = and_parts _ _ (holds_at 128 x (masks_back m) lt (masks_back_table m)) in
    (same_eq m _ h7, (==_iff (b % 128) x).0 h)
