-- ===== src/WsFrame/RoundTrip.antt =====
-- A header that is written is read back, and its length is Length().
use Prim.Native.Nat.{bit_or}
use go_gost_x.Prelude.{
  ℕ, ◌+◌, ◌-◌, ◌%◌, ◌^◌, ◌<◌, ◌≡◌, refl, ◌∙◌, ap, ap₂, sym, subst, inl, inr, Bool, true, false,
  List, [], ◌++◌, if◌then◌else◌, ltb, lt→ltb, ℤ, pos, negsuc, ltb_ℤ, pos_part, ◌≤ℤ◌, length, arith,
  Bool-cases,
}
use mathlib.Core.List.{append_assoc}
use go_gost_x.WsFrame.{
  FrameHeader, header, bit, flag, to_int64, with_bits, read_mask, read_length, read_from,
  header_length, first_byte, length_bits, second_byte, length_bytes, write_to,
}
use go_gost_x.WsFrame.Words.{be16, be64, le32, of_be16-be16, of_be64-be64, of_le32-le32}
use go_gost_x.WsFrame.Octets.{first_byte_bits, mask_bits}

-- A header whose fields have the sizes of the wire.
pub record IsEncodable (h : FrameHeader) : Type 0 where
  pub op : h.op_code < 16
  pub natural : pos 0 ≤ℤ h.payload_length
  pub signed : pos_part h.payload_length < 2 ^ 63
  pub key : h.mask_key < 2 ^ 32
  pub unmasked : h.masked ≡ false → h.mask_key ≡ 0

-- The count that ReadFrom returns.
pub counted : FrameHeader → ℕ
counted h = (if ltb_ℤ (pos 65535) h.payload_length then 8 else 2) + (if h.masked then 4 else 0)

natural_len : (len : ℕ) → ltb_ℤ (pos len) (pos 0) ≡ false
natural_len len = ground arith

-- The part after the length, for given first bytes.
read_mask-write :
    (n b0 b1 : ℕ) (len : ℕ) (m : Bool) (key : ℕ) (rest : List ℕ)
    → bit b1 7 ≡ m
    → key < 2 ^ 32
    → (m ≡ false → key ≡ 0)
    → read_mask n b0 b1 (pos len) 0 ((if m then le32 key else []) ++ rest)
      ≡ header (n + (if m then 4 else 0)) (with_bits b0 b1 (pos len) key) rest
unfolding le32 read_mask
read_mask-write n b0 b1 len true key rest b k u =
    let p = natural_len len in
    rw p (rw b (ap (λ x. header (n + 4) (with_bits b0 b1 (pos len) x) rest) (of_le32-le32 key k)))
read_mask-write n b0 b1 len false key rest b k u =
    let p = natural_len len in
    rw p
      (rw b (ap₂ (λ c x. header c (with_bits b0 b1 (pos len) x) rest) (omega arith) (sym (u refl))))

-- What stands after the length.
abbrev tail_of : Bool → ℕ → List ℕ → List ℕ
tail_of m key rest = (if m then le32 key else []) ++ rest

module _ (b0 b1 len : ℕ) (m : Bool) (key : ℕ) (rest : List ℕ) (b : bit b1 7 ≡ m) (k : key < 2 ^ 32)
    (u : m ≡ false → key ≡ 0) where
  -- The three forms of the length.
  read_small :
      len < 126
      → b1 % 128 ≡ len
      → read_length b0 b1 0 (tail_of m key rest)
        ≡ header (2 + (if m then 4 else 0)) (with_bits b0 b1 (pos len) key) rest
  unfolding read_length
  read_small l e =
      let t : ltb len 126 ≡ true = lt→ltb len 126 l in
      rw e (rw t (read_mask-write 2 b0 b1 len m key rest b k u))

  read_middle :
      len < 65536
      → b1 % 128 ≡ 126
      → read_length b0 b1 0 (be16 len ++ tail_of m key rest)
        ≡ header (2 + (if m then 4 else 0)) (with_bits b0 b1 (pos len) key) rest
  unfolding read_length be16
  read_middle l e = rw e (
      ap (λ x. read_mask 2 b0 b1 (pos x) 0 (tail_of m key rest)) (of_be16-be16 len l)
      ∙ read_mask-write 2 b0 b1 len m key rest b k u)

  read_long :
      len < 2 ^ 63
      → b1 % 128 ≡ 127
      → read_length b0 b1 0 (be64 len ++ tail_of m key rest)
        ≡ header (8 + (if m then 4 else 0)) (with_bits b0 b1 (pos len) key) rest
  unfolding read_length be64
  read_long l e =
      let t : to_int64 len ≡ pos len =
        ap (λ c. if c then pos len else negsuc (2 ^ 64 - 1 - len)) (lt→ltb len (2 ^ 63) l) in
      rw e (
        ap (λ x. read_mask 8 b0 b1 x 0 (tail_of m key rest))
          (ap to_int64 (of_be64-be64 len (omega arith)) ∙ t)
        ∙ read_mask-write 8 b0 b1 len m key rest b k u)

ltb_pos : (a b : ℕ) → ltb_ℤ (pos a) (pos b) ≡ ltb a b
ltb_pos a b = ground arith

-- The length's bits and bytes in the three forms.
length_long :
    (len : ℕ)
    → ltb 65535 len ≡ true
    → (length_bits (pos len) ≡ 127) × (length_bytes (pos len) ≡ be64 len)
length_long len h = let e = ltb_pos 65535 len ∙ h in rw e (refl, refl)

length_middle :
    (len : ℕ)
    → ltb 65535 len ≡ false
    → ltb 125 len ≡ true
    → (length_bits (pos len) ≡ 126) × (length_bytes (pos len) ≡ be16 len)
length_middle len h g =
    let e = ltb_pos 65535 len ∙ h in let f = ltb_pos 125 len ∙ g in rw e (rw f (refl, refl))

length_small :
    (len : ℕ)
    → ltb 65535 len ≡ false
    → ltb 125 len ≡ false
    → (length_bits (pos len) ≡ len) × (length_bytes (pos len) ≡ [])
length_small len h g =
    let e = ltb_pos 65535 len ∙ h in
    let f = ltb_pos 125 len ∙ g in let n = natural_len len in rw e (rw f (rw n (refl, refl)))

read_length-write :
    (b0 : ℕ) (len : ℕ) (m : Bool) (key : ℕ) (rest : List ℕ)
    → len < 2 ^ 63
    → key < 2 ^ 32
    → (m ≡ false → key ≡ 0)
    → read_length b0 (second_byte m (pos len)) 0 (length_bytes (pos len) ++ tail_of m key rest)
      ≡ header
          ((if ltb 65535 len then 8 else 2) + (if m then 4 else 0))
          (with_bits b0 (second_byte m (pos len)) (pos len) key)
          rest
unfolding second_byte
read_length-write b0 len m key rest l k u = elim (Bool-cases (ltb 65535 len)) [
  | inl long ↦
      (let (x, y) = length_long len long in
        let (b, e) = bits 127 x (omega arith) in
        ap (λ c. read_length b0 b1 0 (c ++ tail_of m key rest)) y
        ∙ (read_long b0 b1 len m key rest b k u l e ∙ count long))
  | inr h ↦ (elim (Bool-cases (ltb 125 len)) [
    | inl middle ↦
        (let (x, y) = length_middle len h middle in
          let (b, e) = bits 126 x (omega arith) in
          ap (λ c. read_length b0 b1 0 (c ++ tail_of m key rest)) y
          ∙ (read_middle b0 b1 len m key rest b k u (ground arith) e ∙ count h))
    | inr small ↦
        (let (x, y) = length_small len h small in
          let (b, e) = bits len x (ground arith) in
          ap (λ c. read_length b0 b1 0 (c ++ tail_of m key rest)) y
          ∙ (read_small b0 b1 len m key rest b k u (ground arith) e ∙ count h))
  ])
]
  where
    b1 : ℕ
    b1 = second_byte m (pos len)

    bits : (x : ℕ) → length_bits (pos len) ≡ x → x < 128 → (bit b1 7 ≡ m) × (b1 % 128 ≡ x)
    bits x e lt =
        subst (λ y. (bit (bit_or (flag m 128) y) 7 ≡ m) × (bit_or (flag m 128) y % 128 ≡ x)) (sym e)
          (mask_bits m x lt)

    count :
        {c : Bool}
        → ltb 65535 len ≡ c
        → header ((if c then 8 else 2) + (if m then 4 else 0)) (with_bits b0 b1 (pos len) key) rest
          ≡ header
              ((if ltb 65535 len then 8 else 2) + (if m then 4 else 0))
              (with_bits b0 b1 (pos len) key)
              rest
    count e =
        ap
          (λ c.
            header ((if c then 8 else 2) + (if m then 4 else 0)) (with_bits b0 b1 (pos len) key)
              rest)
          (sym e)

-- The same, for a length that is an integer.
read_length-write_ℤ :
    (b0 : ℕ) (len : ℤ) (m : Bool) (key : ℕ) (rest : List ℕ)
    → pos 0 ≤ℤ len
    → pos_part len < 2 ^ 63
    → key < 2 ^ 32
    → (m ≡ false → key ≡ 0)
    → read_length b0 (second_byte m len) 0 (length_bytes len ++ tail_of m key rest)
      ≡ header
          ((if ltb_ℤ (pos 65535) len then 8 else 2) + (if m then 4 else 0))
          (with_bits b0 (second_byte m len) len key)
          rest
read_length-write_ℤ b0 (pos n) m key rest p l k u =
    read_length-write b0 n m key rest l k u
    ∙ ap
        (λ c.
          header ((if c then 8 else 2) + (if m then 4 else 0))
            (with_bits b0 (second_byte m (pos n)) (pos n) key) rest)
        (sym (ltb_pos 65535 n))
read_length-write_ℤ b0 (negsuc n) m key rest p l k u = absurd (omega arith)

length_bits-lt : (len : ℤ) → length_bits len < 128
length_bits-lt len = ground arith

with_bits-write :
    (h : FrameHeader)
    → IsEncodable h
    → with_bits
        (first_byte h.fin h.rsv1 h.rsv2 h.rsv3 h.op_code)
        (second_byte h.masked h.payload_length)
        h.payload_length
        h.mask_key
      ≡ h
unfolding with_bits second_byte
with_bits-write h v =
    let (h7, h6, h5, h4, op) = first_byte_bits h.fin h.rsv1 h.rsv2 h.rsv3 h.op_code v.op in
    let (m, low) =
      mask_bits h.masked (length_bits h.payload_length) (length_bits-lt h.payload_length) in
    λ i. record {
      fin = h7 i;
      rsv1 = h6 i;
      rsv2 = h5 i;
      rsv3 = h4 i;
      op_code = op i;
      payload_length = h.payload_length;
      masked = m i;
      mask_key = h.mask_key;
    }

pub read_from-write_to :
    (h : FrameHeader) (rest : List ℕ)
    → IsEncodable h
    → read_from 0 (write_to h ++ rest) ≡ header (counted h) h rest
unfolding read_from write_to counted
read_from-write_to h rest v =
    let b0 = first_byte h.fin h.rsv1 h.rsv2 h.rsv3 h.op_code in
    let b1 = second_byte h.masked h.payload_length in
    ap (read_length b0 b1 0)
      (append_assoc (length_bytes h.payload_length) (if h.masked then le32 h.mask_key else []) rest)
    ∙ (read_length-write_ℤ b0 h.payload_length h.masked h.mask_key rest v.natural v.signed v.key
          v.unmasked
        ∙ ap (λ x. header (counted h) x rest) (with_bits-write h v))

length-write_to : (h : FrameHeader) → length (write_to h) ≡ header_length h
unfolding write_to header_length be16 be64 le32
length-write_to h = ground arith

counted-header_length :
    (h : FrameHeader)
    → counted h + (if ltb_ℤ (pos 125) h.payload_length then 2 else 0) ≡ header_length h
unfolding counted header_length
counted-header_length h = ground arith

-- WriteTo writes as many bytes of a header as Length() says, and reading them back, of a header with
-- fields of the wire's sizes, takes just these bytes; but the count that ReadFrom returns is 2 below
-- their number, unless the length has its short form.
pub read_from-count :
    (h : FrameHeader) (rest : List ℕ)
    → IsEncodable h
    → (n : ℕ) × (read_from 0 (write_to h ++ rest) ≡ header n h rest)
      × (n + (if ltb_ℤ (pos 125) h.payload_length then 2 else 0) ≡ length (write_to h))
      × (length (write_to h) ≡ header_length h)
read_from-count h rest v = (
  counted h,
  read_from-write_to h rest v,
  counted-header_length h ∙ sym (length-write_to h),
  length-write_to h,
)
