-- ===== src/WsFrame.antt =====
-- internal/util/ws/frame.go: the header of a WebSocket frame. A reader is the bytes it has left, and
-- a writer is the bytes written. `n` is the count that the code returns.
pub mod Words
pub mod Octets
pub mod RoundTrip
pub mod Frames
use Prim.Native.Nat.{bit_or, bit_and}
use go_gost_x.Prelude.{
  ℕ, zero, suc, ◌+◌, ◌-◌, ◌/◌, ◌%◌, ◌^◌, ◌*◌, ◌==◌, Bool, true, false, not, ◌&&◌, List, [], ◌∷◌,
  ◌++◌, Option, none, some, if◌then◌else◌, ltb, leb, ℤ, pos, negsuc, ltb_ℤ, pos_part, length,
}
use go_gost_x.WsFrame.Words.{be16, be64, le32, of_be16, of_be64, of_le32}

pub record FrameHeader : Type 0 where
  pub fin : Bool
  pub rsv1 : Bool
  pub rsv2 : Bool
  pub rsv3 : Bool
  pub op_code : ℕ
  pub payload_length : ℤ
  pub masked : Bool
  pub mask_key : ℕ

pub data ReadError : Type 0 where
  eof unexpected_eof negative_length : ReadError

-- A header with the count and the bytes left, or an error with the count.
pub data Header : Type 0 where
  header : ℕ → FrameHeader → List ℕ → Header
  failed : ℕ → ReadError → Header

-- io.ReadFull: the bytes and the rest, or none where there are too few.
abbrev pub read_full : ℕ → List ℕ → Option (List ℕ × List ℕ)
read_full zero bs = some ([], bs)
read_full (suc k) [] = none
read_full (suc k) (b ∷ bs) = elim (read_full k bs) [ none ↦ none | some (xs, r) ↦ some (b ∷ xs, r) ]

-- Its error where there are too few bytes.
abbrev short : List ℕ → ReadError
short [] = eof
short (b ∷ bs) = unexpected_eof

abbrev pub bit : ℕ → ℕ → Bool
bit b k = b / 2 ^ k % 2 == 1

abbrev pub to_int64 : ℕ → ℤ
to_int64 v = if ltb v (2 ^ 63) then pos v else negsuc (2 ^ 64 - 1 - v)

-- The fields of the first two bytes; `len` is the payload's length and `key` the mask's.
unfoldable pub with_bits : ℕ → ℕ → ℤ → ℕ → FrameHeader
with_bits b0 b1 len key = record {
  fin = bit b0 7;
  rsv1 = bit b0 6;
  rsv2 = bit b0 5;
  rsv3 = bit b0 4;
  op_code = b0 % 16;
  payload_length = len;
  masked = bit b1 7;
  mask_key = key;
}

-- The mask, and the check of the length before it.
unfoldable pub read_mask : ℕ → ℕ → ℕ → ℤ → ℕ → List ℕ → Header
read_mask n b0 b1 len key bs =
    if ltb_ℤ len (pos 0)
    then failed n negative_length
    else if not (bit b1 7)
    then header n (with_bits b0 b1 len key) bs
    else elim (read_full 4 bs) as (λ _. Header) [
      | none ↦ failed (n + length bs) (short bs)
      | some (k, r) ↦ header (n + 4) (with_bits b0 b1 len (of_le32 k)) r
    ]

-- The switch on the length. In its first case `nn` is the 2 of the first read; that read is not
-- counted itself, since it adds `n` to `n`.
unfoldable pub read_length : ℕ → ℕ → ℕ → List ℕ → Header
read_length b0 b1 key bs =
    let l = b1 % 128 in
    if ltb l 126
    then read_mask 2 b0 b1 (pos l) key bs
    else if l == 126
    then (elim (read_full 2 bs) as (λ _. Header) [
      | none ↦ failed (length bs) (short bs)
      | some (w, r) ↦ read_mask 2 b0 b1 (pos (of_be16 w)) key r
    ])
    else (elim (read_full 8 bs) as (λ _. Header) [
      | none ↦ failed (length bs) (short bs)
      | some (w, r) ↦ read_mask 8 b0 b1 (to_int64 (of_be64 w)) key r
    ])

-- ReadFrom on a header whose mask key is `key` before.
unfoldable pub read_from : ℕ → List ℕ → Header
unfolding read_length
read_from key [] = failed 0 eof
read_from key (b0 ∷ []) = failed 0 unexpected_eof
read_from key (b0 ∷ b1 ∷ bs) = read_length b0 b1 key bs

-- Length()
unfoldable pub header_length : FrameHeader → ℕ
header_length h =
    2
    + (if ltb_ℤ (pos 65535) h.payload_length
        then 8
        else if ltb_ℤ (pos 125) h.payload_length
        then 2
        else 0)
    + (if h.masked then 4 else 0)

abbrev pub flag : Bool → ℕ → ℕ
flag b v = if b then v else 0

unfoldable pub first_byte : Bool → Bool → Bool → Bool → ℕ → ℕ
first_byte fin rsv1 rsv2 rsv3 op =
    bit_or (bit_or (bit_or (bit_or (flag fin 128) (flag rsv1 64)) (flag rsv2 32)) (flag rsv3 16))
      (op % 256)

abbrev length_bits : ℤ → ℕ
length_bits len =
    if ltb_ℤ (pos 65535) len
    then 127
    else if ltb_ℤ (pos 125) len
    then 126
    else if ltb_ℤ len (pos 0)
    then 0
    else pos_part len

unfoldable pub second_byte : Bool → ℤ → ℕ
second_byte masked len = bit_or (flag masked 128) (length_bits len)

abbrev length_bytes : ℤ → List ℕ
length_bytes len =
    if ltb_ℤ (pos 65535) len
    then be64 (pos_part len)
    else if ltb_ℤ (pos 125) len
    then be16 (pos_part len)
    else []

-- The bytes of WriteTo.
unfoldable pub write_to : FrameHeader → List ℕ
unfolding first_byte second_byte be16 be64 le32
write_to h =
    first_byte h.fin h.rsv1 h.rsv2 h.rsv3 h.op_code
    ∷ second_byte h.masked h.payload_length
    ∷ (length_bytes h.payload_length ++ (if h.masked then le32 h.mask_key else []))
