-- ===== src/Matcher/Addr.antt =====
-- net/netip.Addr: its kind, the 16 bytes of As16 and the zone. The zero Addr is none elsewhere.
use go_gost_x.Prelude.{
  ℕ, Bool, true, false, ◌&&◌, ◌||◌, List, [], ◌∷◌, ◌++◌, Option, none, some, if◌then◌else◌, ltb,
  ◌==◌, length, take,
}
use go_gost_x.Text.{Text, text_eq}

pub data Kind : Type 0 where
  is_4 is_4in6 is_6 : Kind

pub record Addr : Type 0 where
  pub kind : Kind
  pub as_16 : List ℕ
  pub zone : Text

-- addr.Is4() || addr.Is4In6()
abbrev pub four : Kind → Bool
four is_4 = true
four is_4in6 = true
four is_6 = false

abbrev pub bit_len : Kind → ℕ
bit_len is_4 = 32
bit_len is_4in6 = 128
bit_len is_6 = 128

abbrev pub unmap_kind : Kind → Addr → Addr
unmap_kind is_4in6 a = record { kind = is_4; as_16 = a.as_16; zone = [] }
unmap_kind is_4 a = a
unmap_kind is_6 a = a

abbrev pub unmap : Addr → Addr
unmap a = unmap_kind a.kind a

-- The first twelve bytes of an IPv4-mapped IPv6 address.
abbrev pub mapped_prefix : List ℕ
mapped_prefix = 0 ∷ 0 ∷ 0 ∷ 0 ∷ 0 ∷ 0 ∷ 0 ∷ 0 ∷ 0 ∷ 0 ∷ 255 ∷ 255 ∷ []

abbrev pub is_mapped : List ℕ → Bool
is_mapped b = text_eq (take 12 b) mapped_prefix

-- netip.AddrFromSlice: four or sixteen bytes.
unfoldable pub addr_from_slice : List ℕ → Option Addr
addr_from_slice b =
    if length b == 4
    then some (record { kind = is_4; as_16 = mapped_prefix ++ b; zone = [] })
    else if length b == 16
    then some (record { kind = if is_mapped b then is_4in6 else is_6; as_16 = b; zone = [] })
    else none

abbrev pub less_text : List ℕ → List ℕ → Bool
less_text b [] = false
less_text [] (d ∷ c) = true
less_text (b ∷ s) (c ∷ t) = ltb b c || b == c && less_text s t

-- Addr.Less: by the length in bits, then by value, then by zone.
unfoldable pub less : Addr → Addr → Bool
less a b =
    if bit_len a.kind == bit_len b.kind
    then less_text a.as_16 b.as_16 || text_eq a.as_16 b.as_16 && less_text a.zone b.zone
    else ltb (bit_len a.kind) (bit_len b.kind)

abbrev pub kind_eq : Kind → Kind → Bool
kind_eq is_4 is_4 = true
kind_eq is_4in6 is_4in6 = true
kind_eq is_6 is_6 = true
kind_eq j k = false

-- Go's == on addresses.
abbrev pub addr_eq : Addr → Addr → Bool
addr_eq a b = kind_eq a.kind b.kind && text_eq a.as_16 b.as_16 && text_eq a.zone b.zone
