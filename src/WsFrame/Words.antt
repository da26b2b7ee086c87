-- ===== src/WsFrame/Words.antt =====
-- encoding/binary, as far as a header needs it.
use go_gost_x.Prelude.{ℕ, ◌+◌, ◌*◌, ◌/◌, ◌%◌, ◌^◌, ◌<◌, ◌≡◌, List, [], ◌∷◌, arith}

unfoldable pub be16 : ℕ → List ℕ
be16 n = (n / 256 % 256) ∷ (n % 256) ∷ []

-- The 8 bytes of a 64-bit number, the highest first.
unfoldable pub be64 : ℕ → List ℕ
be64 n =
    (n / 256 ^ 7 % 256)
    ∷ (n / 256 ^ 6 % 256)
    ∷ (n / 256 ^ 5 % 256)
    ∷ (n / 256 ^ 4 % 256)
    ∷ (n / 256 ^ 3 % 256)
    ∷ (n / 256 ^ 2 % 256)
    ∷ (n / 256 % 256)
    ∷ (n % 256)
    ∷ []

unfoldable pub le32 : ℕ → List ℕ
le32 n = (n % 256) ∷ (n / 256 % 256) ∷ (n / 256 ^ 2 % 256) ∷ (n / 256 ^ 3 % 256) ∷ []

-- The number that the bytes are, in front of `acc`.
abbrev from_digits : ℕ → List ℕ → ℕ
from_digits acc [] = acc
from_digits acc (b ∷ bs) = from_digits (acc * 256 + b) bs

unfoldable pub of_be16 : List ℕ → ℕ
of_be16 bs = from_digits 0 bs

unfoldable pub of_be64 : List ℕ → ℕ
of_be64 bs = from_digits 0 bs

abbrev from_low : List ℕ → ℕ
from_low [] = 0
from_low (b ∷ bs) = b + 256 * from_low bs

unfoldable pub of_le32 : List ℕ → ℕ
of_le32 bs = from_low bs

pub of_be16-be16 : (n : ℕ) → n < 65536 → of_be16 (be16 n) ≡ n
unfolding of_be16 be16
of_be16-be16 n h = omega arith

pub of_le32-le32 : (n : ℕ) → n < 4294967296 → of_le32 (le32 n) ≡ n
unfolding of_le32 le32
of_le32-le32 n h = omega arith

pub of_be64-be64 : (n : ℕ) → n < 18446744073709551616 → of_be64 (be64 n) ≡ n
unfolding of_be64 be64
of_be64-be64 n h = omega arith
