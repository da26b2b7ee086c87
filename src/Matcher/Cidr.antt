-- ===== src/Matcher/Cidr.antt =====
-- internal/matcher: ipNetToPrefix and CIDRMatcher. `parse_addr` is netip.ParseAddr.
pub mod Mapped
use go_gost_x.Prelude.{
  ℕ, ◌+◌, ◌≤◌, ◌<◌, ◌≡◌, refl, ◌↔◌, ◌∙◌, Bool, true, false, ◌||◌, List, [], ◌∷◌, Option, none, some,
  arith, ltb, if◌then◌else◌, any, length, Memᴰ, min,
}
use go_gost_x.Text.{Text}
use go_gost_x.Matcher.Addr.{
  Addr, Kind, is_4, is_4in6, is_6, four, bit_len, unmap, addr_from_slice, is_mapped,
}
use go_gost_x.Matcher.CidrTrie.{
  Prefix, CidrTrie, new_cidr_trie, insert, contains, bit_at, insert_all,
}
use go_gost_x.Matcher.CidrTrie.Coverage.{
  covers, Covers, contains-insert_all, contains-insert_all-Covers, contains-new,
}

-- net.IPNet: the address's bytes, and the length that Mask.Size reports.
pub record IpNet : Type 0 where
  pub ip : List ℕ
  pub ones : ℕ

abbrev prefix_from : Addr → ℕ → Prefix
prefix_from a ones = record {
  addr = a;
  bits = if ltb (bit_len a.kind) ones then bit_len a.kind else ones;
}

abbrev prefix_of : Option Addr → ℕ → Option Prefix
prefix_of none ones = none
prefix_of (some a) ones = some (prefix_from (unmap a) ones)

unfoldable pub ip_net_to_prefix : IpNet → Option Prefix
unfolding addr_from_slice
ip_net_to_prefix inet = prefix_of (addr_from_slice inet.ip) inet.ones

fill : List IpNet → CidrTrie → CidrTrie
fill [] t = t
fill (n ∷ ns) t = fill ns (elim (ip_net_to_prefix n) [ none ↦ t | some p ↦ insert p t ])

unfoldable pub cidr_matcher : List IpNet → CidrTrie
unfolding fill ip_net_to_prefix insert new_cidr_trie
cidr_matcher inets = fill inets new_cidr_trie

-- The prefixes of the networks that have one.
abbrev pub prefixes : List IpNet → List Prefix
prefixes [] = []
prefixes (n ∷ ns) = elim (ip_net_to_prefix n) [ none ↦ prefixes ns | some p ↦ p ∷ prefixes ns ]

fill-insert_all : (ns : List IpNet) (t : CidrTrie) → fill ns t ≡ insert_all (prefixes ns) t
unfolding fill
fill-insert_all [] t = refl
fill-insert_all (n ∷ ns) t = go (ip_net_to_prefix n) (fill-insert_all ns)
  where
    go :
        (o : Option Prefix)
        → ((u : CidrTrie) → fill ns u ≡ insert_all (prefixes ns) u)
        → fill ns (elim o as (λ _. CidrTrie) [ none ↦ t | some p ↦ insert p t ])
          ≡ insert_all
              (elim o as (λ _. List Prefix) [ none ↦ prefixes ns | some p ↦ p ∷ prefixes ns ])
              t
    go none ih = ih t
    go (some p) ih = ih (insert p t)

module _ (parse_addr : Text → Option Addr) where
  unfoldable pub match_cidr : CidrTrie → Text → Bool
  unfolding contains
  match_cidr t ip = elim (parse_addr ip) [ none ↦ false | some a ↦ contains t (unmap a) ]

  -- A text matches a list of networks exactly when it is an address that one of them covers: the
  -- address without its IPv4 mapping is of the network's family, and has the network's leading
  -- bits. A network whose address is not of 4 or 16 bytes covers nothing.
  pub match_cidr-Covers :
      (nets : List IpNet) (ip : Text) (a : Addr)
      → parse_addr ip ≡ some a
      → (match_cidr (cidr_matcher nets) ip ≡ true)
        ↔ ((p : Prefix) × Memᴰ p (prefixes nets) × Covers p (unmap a))
  unfolding match_cidr cidr_matcher
  match_cidr-Covers nets ip a e =
      rw (e, match_cidr)
        (rw (fill-insert_all nets new_cidr_trie)
          (contains-insert_all-Covers (prefixes nets) (unmap a)))
