-- ===== src/Matcher/Ip.antt =====
-- internal/matcher: IPMatcher and IPRangeMatcher, with the address ranges of internal/net/addr.go.
-- `parse_addr` is netip.ParseAddr, `trim` strings.TrimSpace.
use go_gost_x.Prelude.{
  inr, subst, inl, refl, Bool-cases, ℕ, ◌≡◌, Bool, true, false, not, ◌||◌, List, [], ◌∷◌, Option,
  none, some, arith, if◌then◌else◌, any,
}
use go_gost_x.Text.{text_eq_iff, Text, split}
use go_gost_x.Matcher.Addr.{
  is_4, is_4in6, is_6, Kind, Addr, bit_len, unmap, addr_from_slice, addr_eq, kind_eq, less,
}
use go_gost_x.Matcher.Split.{split_addr}

abbrev has : List Addr → Addr → Bool
has set a = any (λ b. addr_eq b a) set

abbrev put : Option Addr → List Addr → List Addr
put none set = set
put (some a) set = if has set (unmap a) then set else unmap a ∷ set

fill : List (List ℕ) → List Addr → List Addr
fill [] set = set
fill (ip ∷ ips) set = fill ips (put (addr_from_slice ip) set)

unfoldable pub ip_matcher : List (List ℕ) → List Addr
unfolding fill addr_from_slice
ip_matcher ips = fill ips []

pub record IpRange : Type 0 where
  pub min : Addr
  pub max : Addr

-- IPRange.Contains
unfoldable pub contains : IpRange → Addr → Bool
unfolding less
contains r a = not (less a r.min || less r.max a)

module _ (parse_addr : Text → Option Addr) where
  unfoldable pub match_ip : List Addr → Text → Bool
  match_ip set ip = elim (parse_addr ip) [ none ↦ false | some a ↦ has set (unmap a) ]

  -- The loop returns at the first range that holds the address; an empty list holds none.
  unfoldable pub match_ip_range : List IpRange → Text → Bool
  unfolding contains split_addr
  match_ip_range ranges addr = elim (parse_addr (split_addr addr).0) [
    | none ↦ false
    | some a ↦ any (λ r. contains r a) ranges
  ]

  module _ (trim : Text → Text) where
    abbrev range_of : Option Addr → Option Addr → Option IpRange
    range_of none hi = none
    range_of (some lo) none = none
    range_of (some lo) (some hi) = some (record { min = lo; max = hi })

    abbrev parse_parts : Text → List Text → Option IpRange
    parse_parts s (w ∷ []) = range_of (parse_addr (trim s)) (parse_addr (trim s))
    parse_parts s (lo ∷ hi ∷ []) = range_of (parse_addr (trim lo)) (parse_addr (trim hi))
    parse_parts s ws = none

    -- IPRange.Parse; none for its error.
    unfoldable pub parse_range : Text → Option IpRange
    parse_range s = parse_parts s (split b'-' s)

-- A range holds addresses of its own bit length only.
pub contains-bit_len :
    (r : IpRange) (a : Addr)
    → bit_len r.min.kind ≡ bit_len r.max.kind
    → contains r a ≡ true
    → bit_len a.kind ≡ bit_len r.min.kind
unfolding contains
contains-bit_len r a e h = ground arith

-- The value in the map of an address of `ips` is its address without the IPv4 mapping.
abbrev pub same_ip : List ℕ → Addr → Bool
same_ip ip a = elim (addr_from_slice ip) [ none ↦ false | some b ↦ addr_eq (unmap b) a ]

kind_eq→eq : (j k : Kind) → kind_eq j k ≡ true → j ≡ k
kind_eq→eq is_4 is_4 h = refl
kind_eq→eq is_4in6 is_4in6 h = refl
kind_eq→eq is_6 is_6 h = refl
kind_eq→eq is_4 is_4in6 h = cc
kind_eq→eq is_4 is_6 h = cc
kind_eq→eq is_4in6 is_4 h = cc
kind_eq→eq is_4in6 is_6 h = cc
kind_eq→eq is_6 is_4 h = cc
kind_eq→eq is_6 is_4in6 h = cc

addr_eq→eq : (a b : Addr) → addr_eq a b ≡ true → a ≡ b
addr_eq→eq a b h =
    ground (arith, kind_eq→eq a.kind b.kind, text_eq_iff a.as_16 b.as_16, text_eq_iff a.zone b.zone)

has-put :
    (ip : List ℕ) (a : Addr) (set : List Addr)
    → has (put (addr_from_slice ip) set) a ≡ (same_ip ip a || has set a)
has-put ip a set = go (addr_from_slice ip)
  where
    go :
        (o : Option Addr)
        → has (put o set) a
          ≡ (elim o as (λ _. Bool) [ none ↦ false | some b ↦ addr_eq (unmap b) a ] || has set a)
    go none = refl
    go (some b) = elim (Bool-cases (has set (unmap b))) [
      | inl old ↦ rw old (elim (Bool-cases (addr_eq (unmap b) a)) [
        | inl same ↦ rw same (subst (λ x. has set x ≡ true) (addr_eq→eq (unmap b) a same) old)
        | inr other ↦ rw other
      ])
      | inr new ↦ rw new
    ]

has-fill :
    (ips : List (List ℕ)) (set : List Addr) (a : Addr)
    → has (fill ips set) a ≡ (any (λ ip. same_ip ip a) ips || has set a)
unfolding fill
has-fill [] set a = refl
has-fill (ip ∷ ips) set a =
    ground (arith, has-fill ips (put (addr_from_slice ip) set) a, has-put ip a set)

-- A text matches a list of addresses exactly when it is an address, and one of the list is that
-- address, the IPv4 mapping taken off both; an entry of other than 4 or 16 bytes matches nothing.
pub match_ip-same_ip :
    (parse_addr : Text → Option Addr) (ips : List (List ℕ)) (ip : Text)
    → match_ip parse_addr (ip_matcher ips) ip ≡ elim (parse_addr ip) as (λ _. Bool) [
      | none ↦ false
      | some a ↦ any (λ b. same_ip b (unmap a)) ips
    ]
unfolding match_ip ip_matcher
match_ip-same_ip parse_addr ips ip = go (parse_addr ip)
  where
    go :
        (o : Option Addr)
        → elim o as (λ _. Bool) [ none ↦ false | some a ↦ has (fill ips []) (unmap a) ]
          ≡ elim o as (λ _. Bool) [ none ↦ false | some a ↦ any (λ b. same_ip b (unmap a)) ips ]
    go none = refl
    go (some a) = ground (arith, has-fill ips [] (unmap a))
