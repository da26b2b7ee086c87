-- ===== src/Matcher/Cidr/Mapped.antt =====
-- Networks that are written over an IPv4-mapped IPv6 address.
use go_gost_x.Prelude.{
  ℕ, ◌<◌, ◌≡◌, refl, ◌↔◌, true, List, [], ◌∷◌, Option, some, arith, length, Memᴰ, subst, sym,
}
use go_gost_x.Text.{Text}
use go_gost_x.Matcher.Addr.{Addr, is_4, unmap, is_mapped}
use go_gost_x.Matcher.CidrTrie.{Prefix}
use go_gost_x.Matcher.CidrTrie.Coverage.{Covers}
use go_gost_x.Matcher.Cidr.{
  IpNet, ip_net_to_prefix, prefixes, cidr_matcher, match_cidr, match_cidr-Covers,
}

abbrev pub host_route : List ℕ → Prefix
host_route ip = record { addr = record { kind = is_4; as_16 = ip; zone = [] }; bits = 32 }

ip_net_to_prefix-mapped :
    (n : IpNet)
    → length n.ip ≡ 16
    → is_mapped n.ip ≡ true
    → 32 < n.ones
    → ip_net_to_prefix n ≡ some (host_route n.ip)
unfolding ip_net_to_prefix
ip_net_to_prefix-mapped n len map lt = ground arith

module _ (parse_addr : Text → Option Addr) where
  -- A network over an IPv4-mapped address with a length above 32, such as ::ffff:10.0.0.0/120,
  -- matches the one IPv4 address with the same 32 bits, and no other address of the network.
  pub match_cidr-mapped :
      (n : IpNet) (ip : Text) (a : Addr)
      → length n.ip ≡ 16
      → is_mapped n.ip ≡ true
      → 32 < n.ones
      → parse_addr ip ≡ some a
      → (match_cidr parse_addr (cidr_matcher (n ∷ [])) ip ≡ true)
        ↔ Covers (host_route n.ip) (unmap a)
  match_cidr-mapped n ip a len map lt e = (there, back)
    where
      whole : prefixes (n ∷ []) ≡ host_route n.ip ∷ []
      whole = rw (ip_net_to_prefix-mapped n len map lt, prefixes) refl

      only :
          (p : Prefix) × Memᴰ p (host_route n.ip ∷ []) × Covers p (unmap a)
          → Covers (host_route n.ip) (unmap a)
      only (p, Memᴰ.head q, v) = subst (λ r. Covers r (unmap a)) q v
      only (p, Memᴰ.tail m, v) = elim m [ ]

      there :
          match_cidr parse_addr (cidr_matcher (n ∷ [])) ip ≡ true
          → Covers (host_route n.ip) (unmap a)
      there h = only (
          subst (λ ps. (p : Prefix) × Memᴰ p ps × Covers p (unmap a)) whole
            ((match_cidr-Covers parse_addr (n ∷ []) ip a e).0 h))

      back :
          Covers (host_route n.ip) (unmap a)
          → match_cidr parse_addr (cidr_matcher (n ∷ [])) ip ≡ true
      back v =
          (match_cidr-Covers parse_addr (n ∷ []) ip a e).1
            (host_route n.ip, subst (Memᴰ (host_route n.ip)) (sym whole) (Memᴰ.head refl), v)
