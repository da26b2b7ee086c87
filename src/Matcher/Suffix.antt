-- ===== src/Matcher/Suffix.antt =====
-- The loop that the domain and the address matcher share: from one dot of a name to the next.
use go_gost_x.Prelude.{
  ℕ, zero, suc, ◌<◌, ◌≡◌, refl, ◌≢◌, Bool, true, false, List, [], ◌∷◌, ◌++◌, none, some, arith,
  if◌then◌else◌, any, length, length-append, drop, All,
}
use go_gost_x.Text.{Text, dot, index_byte, contains_byte}

-- `hit` is the look-up of a text in the matcher's map. Each round but the last shortens the host,
-- so `suc (length host)` rounds are enough.
pub loop : (Text → Bool) → ℕ → Text → Bool
loop hit zero host = false
loop hit (suc fuel) host = elim (index_byte dot host) [
  | none ↦ false
  | some zero ↦ false
  | some (suc i) ↦
      let rest = loop hit fuel (drop (suc (suc i)) host) in
      if hit (drop (suc i) host) then true else rest
]

unfoldable pub match_name : (Text → Bool) → Text → Bool
unfolding loop
match_name hit host =
    if hit host then true else if hit (dot ∷ host) then true else loop hit (suc (length host)) host

-- The labels of a name, each with a dot before it.
abbrev pub dotted : List Text → Text
dotted [] = []
dotted (l ∷ ls) = dot ∷ (l ++ dotted ls)

abbrev pub suffixes : List Text → List Text
suffixes [] = []
suffixes (l ∷ ls) = dotted (l ∷ ls) ∷ suffixes ls

-- A label is not empty and holds no dot.
abbrev pub IsLabel : Text → Type 0
IsLabel l = (l ≢ []) × (contains_byte dot l ≡ false)

pub index_byte-label :
    (l : Text) (ls : List Text) (m : Text)
    → contains_byte dot l ≡ false
    → index_byte dot (l ++ dotted (m ∷ ls)) ≡ some (length l)
index_byte-label [] ls m h = refl
index_byte-label (b ∷ l) ls m h = ground (arith, index_byte-label l ls m)

pub index_byte-last : (l : Text) → contains_byte dot l ≡ false → index_byte dot (l ++ []) ≡ none
index_byte-last [] h = refl
index_byte-last (b ∷ l) h = ground (arith, index_byte-last l)

pub drop-append : (l s : Text) → drop (length l) (l ++ s) ≡ s
drop-append [] s = refl
drop-append (b ∷ l) s = drop-append l s

pub drop-append_suc : (l s : Text) (b : ℕ) → drop (suc (length l)) (l ++ b ∷ s) ≡ s
drop-append_suc [] s b = refl
drop-append_suc (c ∷ l) s b = drop-append_suc l s b

loop-suffixes :
    (hit : Text → Bool) (fuel : ℕ) (l : Text) (ls : List Text)
    → All IsLabel (l ∷ ls)
    → length (l ++ dotted ls) < fuel
    → loop hit fuel (l ++ dotted ls) ≡ any hit (suffixes ls)
unfolding loop
loop-suffixes hit zero l ls v h = elim h [ ]
loop-suffixes hit (suc fuel) [] ls v h = absurd (v.0.0 refl)
loop-suffixes hit (suc fuel) (b ∷ l) [] v h = rw (index_byte-last (b ∷ l) v.0.1, loop) refl
loop-suffixes hit (suc fuel) (b ∷ l) (m ∷ ls) v h =
    rw (index_byte-label (b ∷ l) ls m v.0.1, loop)
      (rw (drop-append (b ∷ l) (dotted (m ∷ ls)), drop-append_suc (b ∷ l) (m ++ dotted ls) dot)
        (ground (
          arith,
          loop-suffixes hit fuel m ls v.1 (omega (arith, length-append l (dotted (m ∷ ls)))),
        )))

-- The texts that a host's name is looked up by: itself, and each of its tails from a dot on,
-- the whole name with a dot before it among them.
abbrev pub keys : Text → List Text → List Text
keys l ls = (l ++ dotted ls) ∷ suffixes (l ∷ ls)

pub match_name-keys :
    (hit : Text → Bool) (l : Text) (ls : List Text)
    → All IsLabel (l ∷ ls)
    → match_name hit (l ++ dotted ls) ≡ any hit (keys l ls)
unfolding match_name
match_name-keys hit l ls v =
    ground (arith, loop-suffixes hit (suc (length (l ++ dotted ls))) l ls v (omega arith))
