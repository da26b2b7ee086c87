-- ===== src/Tests/Matching.antt =====
-- The matchers of internal/matcher on addresses and names.
use go_gost_x.Prelude.{
  ℕ, ◌≡◌, refl, ◌↔◌, true, false, List, [], ◌∷◌, ◌++◌, Option, none, some, Memᴰ, All, pos,
}
use go_gost_x.Text.{Text, bytes, split_host_port, atoi}
use go_gost_x.Matcher.Addr.{Addr, is_4, mapped_prefix}
use go_gost_x.Matcher.CidrTrie
use go_gost_x.Matcher.CidrTrie.{Prefix, insert_all, new_cidr_trie}
use go_gost_x.Matcher.CidrTrie.Coverage.{Covers, contains-insert_all-Covers}
use go_gost_x.Matcher.Cidr.{IpNet, cidr_matcher, match_cidr}
use go_gost_x.Matcher.Ip.{IpRange, contains, contains-bit_len}
use go_gost_x.Matcher.Suffix.{IsLabel}
use go_gost_x.Matcher.Split.{split_addr}
use go_gost_x.Matcher.Domain.{domain_matcher, match_domain, match_domain-keys}
use go_gost_x.Matcher.Address.{addr_matcher, match_addr, match_addr-keys, asks}

host_and_port : split_host_port (bytes "[::1]:80") ≡ some (bytes "::1", bytes "80")
unfolding split_host_port
host_and_port = refl

no_port : split_host_port (bytes "::1") ≡ none
unfolding split_host_port
no_port = refl

port_number : atoi (bytes "8080") ≡ (pos 8080, false)
unfolding atoi
port_number = refl

abbrev ip4 : ℕ → ℕ → ℕ → ℕ → Addr
ip4 a b c d = record { kind = is_4; as_16 = mapped_prefix ++ a ∷ b ∷ c ∷ d ∷ []; zone = [] }

-- A parser that knows one text.
abbrev parse_one : Text → Option Addr
parse_one s = some (ip4 10 0 0 7)

abbrev nets : List IpNet
nets = record { ip = 10 ∷ 0 ∷ 0 ∷ 0 ∷ []; ones = 8 } ∷ []

in_net : match_cidr parse_one (cidr_matcher nets) (bytes "10.0.0.7") ≡ true
unfolding match_cidr cidr_matcher
in_net = refl

-- ::ffff:10.0.0.0/120
abbrev mapped_net : IpNet
mapped_net = record { ip = mapped_prefix ++ 10 ∷ 0 ∷ 0 ∷ 0 ∷ []; ones = 120 }

abbrev low_range : IpRange
low_range = record { min = ip4 10 0 0 1; max = ip4 10 0 0 9 }

in_range : contains low_range (ip4 10 0 0 7) ≡ true
unfolding contains
in_range = refl

contains-bit_len_example : ◌≡◌ {A = ℕ} 32 32
contains-bit_len_example = contains-bit_len low_range (ip4 10 0 0 7) refl in_range

abbrev same_text : Text → Text
same_text s = s

abbrev domains : List Text
domains = bytes ".example.com" ∷ bytes "localhost" ∷ []

abbrev labels : List Text
labels = bytes "example" ∷ bytes "com" ∷ []

labels-All : All IsLabel (bytes "api" ∷ labels)
labels-All = ((λ e. cc, refl), ((λ e. cc, refl), ((λ e. cc, refl), tt)))

match_domain-keys_example :
    match_domain same_text (domain_matcher same_text domains) (bytes "api.example.com") ≡ true
match_domain-keys_example =
    match_domain-keys same_text domains (bytes "api.example.com") (bytes "api") labels refl
      labels-All

abbrev patterns : List Text
patterns = bytes ".example.com:80-90" ∷ []

match_addr-keys_example :
    match_addr same_text (addr_matcher same_text patterns) (bytes "api.example.com:88") ≡ true
unfolding split_addr go_gost_x.Matcher.Address.entry go_gost_x.Matcher.Address.port_admits
match_addr-keys_example =
    match_addr-keys same_text patterns (bytes "api.example.com:88") (bytes "api") labels refl
      labels-All

abbrev trie_prefixes : List Prefix
trie_prefixes = record { addr = ip4 10 0 0 0; bits = 8 } ∷ []

contains-insert_all-Covers_example :
    (CidrTrie.contains (insert_all trie_prefixes new_cidr_trie) (ip4 10 0 0 7) ≡ true)
    ↔ ((p : Prefix) × Memᴰ p trie_prefixes × Covers p (ip4 10 0 0 7))
contains-insert_all-Covers_example = contains-insert_all-Covers trie_prefixes (ip4 10 0 0 7)

abbrev ips : List (List ℕ)
ips = (10 ∷ 0 ∷ 0 ∷ 7 ∷ []) ∷ []
