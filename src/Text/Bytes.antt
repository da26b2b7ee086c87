-- ===== src/Text/Bytes.antt =====
-- strings.IndexByte, LastIndexByte, Split, TrimSuffix and equality, over bytes.
use Prim.Native.Char.{code}
use Prim.Native.String.{String}
use go_gost_x.Prelude.{
  ℕ, suc, ◌-◌, ◌≡◌, refl, ◌↔◌, Bool, true, false, ◌&&◌, List, [], ◌∷◌, Option, none, some, arith,
  if◌then◌else◌, ◌==◌, any, take, drop,
}

abbrev pub Text : Type 0
Text = List ℕ

-- The bytes of an ASCII text.
abbrev pub bytes : String → Text
bytes String.[] = []
bytes (String.◌∷◌ c s) = code c ∷ bytes s

abbrev pub dot : ℕ
dot = b'.'

abbrev pub text_eq : Text → Text → Bool
text_eq [] [] = true
text_eq [] (c ∷ t) = false
text_eq (b ∷ s) [] = false
text_eq (b ∷ s) (c ∷ t) = b == c && text_eq s t

pub text_eq→eq : (s t : Text) → text_eq s t ≡ true → s ≡ t
text_eq→eq [] [] h = refl
text_eq→eq [] (c ∷ t) h = cc
text_eq→eq (b ∷ s) [] h = cc
text_eq→eq (b ∷ s) (c ∷ t) h = ground (arith, text_eq→eq s t)

pub text_eq_refl : (s : Text) → text_eq s s ≡ true
text_eq_refl [] = refl
text_eq_refl (b ∷ s) = ground (arith, text_eq_refl s)

pub text_eq_iff : (s t : Text) → (text_eq s t ≡ true) ↔ (s ≡ t)
text_eq_iff s t = (text_eq→eq s t, λ e. ground (arith, e, text_eq_refl s))

pub text_eq_comm : (s t : Text) → text_eq s t ≡ text_eq t s
text_eq_comm [] [] = refl
text_eq_comm [] (c ∷ t) = refl
text_eq_comm (b ∷ s) [] = refl
text_eq_comm (b ∷ s) (c ∷ t) = ground (arith, text_eq_comm s t)

abbrev pub is_empty : Text → Bool
is_empty [] = true
is_empty (b ∷ s) = false

-- The position of the first byte `c`; none for Go's -1.
abbrev pub index_byte : ℕ → Text → Option ℕ
index_byte c [] = none
index_byte c (b ∷ s) =
    if b == c then some 0 else elim (index_byte c s) [ none ↦ none | some i ↦ some (suc i) ]

abbrev pub last_index_byte : ℕ → Text → Option ℕ
last_index_byte c [] = none
last_index_byte c (b ∷ s) = elim (last_index_byte c s) [
  | none ↦ if b == c then some 0 else none
  | some i ↦ some (suc i)
]

abbrev pub contains_byte : ℕ → Text → Bool
contains_byte c s = any (λ b. b == c) s

-- strings.Split at one byte: never empty.
abbrev pub split_cons : ℕ → List Text → List Text
split_cons b [] = (b ∷ []) ∷ []
split_cons b (w ∷ ws) = (b ∷ w) ∷ ws

abbrev pub split : ℕ → Text → List Text
split c [] = [] ∷ []
split c (b ∷ s) = let rest = split c s in if b == c then [] ∷ rest else split_cons b rest

-- Go's s[lo:hi], in range.
abbrev pub slice : ℕ → ℕ → Text → Text
slice lo hi s = take (hi - lo) (drop lo s)
