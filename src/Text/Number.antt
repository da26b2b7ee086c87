-- ===== src/Text/Number.antt =====
-- strconv.Atoi for a 64-bit int: the value, and whether there is an error.
use go_gost_x.Prelude.{
  ℕ, ◌+◌, ◌-◌, ◌*◌, ◌^◌, Bool, true, false, ◌&&◌, [], ◌∷◌, ℤ, pos, neg, if◌then◌else◌, ◌==◌, ltb,
  leb,
}
use go_gost_x.Text.Bytes.{Text}

pub data Uint : Type 0 where
  value : ℕ → Uint
  syntax : Uint
  range : Uint

-- The loop of ParseUint in base 10: it stops at the first byte that is no digit, and where the
-- value leaves 64 bits.
abbrev digits : ℕ → Text → Uint
digits n [] = value n
digits n (b ∷ s) =
    let rest = digits (n * 10 + (b - b'0')) s in
    if leb b'0' b && leb b b'9'
    then if ltb (n * 10 + (b - b'0')) (2 ^ 64) then rest else range
    else syntax

abbrev parse_uint : Text → Uint
parse_uint [] = syntax
parse_uint (b ∷ s) = digits 0 (b ∷ s)

-- ParseInt's end: a value out of range is clamped, beside the error.
abbrev signed : Bool → Uint → ℤ × Bool
signed minus syntax = (pos 0, true)
signed true range = (neg (2 ^ 63), true)
signed false range = (pos (2 ^ 63 - 1), true)
signed true (value n) = if leb n (2 ^ 63) then (neg n, false) else (neg (2 ^ 63), true)
signed false (value n) = if ltb n (2 ^ 63) then (pos n, false) else (pos (2 ^ 63 - 1), true)

unfoldable pub atoi : Text → ℤ × Bool
atoi [] = (pos 0, true)
atoi (b ∷ s) =
    if b == b'-'
    then signed true (parse_uint s)
    else if b == b'+'
    then signed false (parse_uint s)
    else signed false (parse_uint (b ∷ s))
