-- ===== src/Tests/Naming.antt =====
-- A table with a name, a wildcard and IPv6.
use go_gost_x.Prelude.{
  none, none, some, if◌then◌else◌, Option, ◌≡◌, refl, true, false, List, [], ◌∷◌, ◌++◌,
}
use go_gost_x.Text.{text_eq, Text, bytes, dot}
use go_gost_x.Matcher.Suffix.{dotted, keys}
use go_gost_x.Hosts.{Ip, Mapping, reload, lookup_host, answer}
use go_gost_x.Hosts.Lines.{parse_line}
use go_gost_x.Hosts.Tails.{first}
use go_gost_x.Hosts.Table.{ips_of, non_nil, lookup_host-reload}

abbrev v4 : Ip
v4 = 10 ∷ 0 ∷ 0 ∷ 1 ∷ []

-- ::ffff:10.0.0.1
abbrev mapped : Ip
mapped = 0 ∷ 0 ∷ 0 ∷ 0 ∷ 0 ∷ 0 ∷ 0 ∷ 0 ∷ 0 ∷ 0 ∷ 255 ∷ 255 ∷ v4

abbrev v6 : Ip
v6 = 32 ∷ 1 ∷ 13 ∷ 184 ∷ 0 ∷ 0 ∷ 0 ∷ 0 ∷ 0 ∷ 0 ∷ 0 ∷ 0 ∷ 0 ∷ 0 ∷ 0 ∷ 1 ∷ []

abbrev own : List Mapping
own =
    record { hostname = bytes ".b.c"; ip = v4 }
    ∷ record { hostname = bytes ".b.c"; ip = mapped }
    ∷ record { hostname = bytes "."; ip = v6 }
    ∷ []

abbrev loaded : List Mapping
loaded = record { hostname = bytes ".b.c"; ip = v6 } ∷ []

wildcard : lookup_host (reload own loaded) (bytes "ip") (bytes "a.b.c") ≡ (v4 ∷ v6 ∷ [], true)
unfolding lookup_host reload
wildcard = refl

wildcard_4 : lookup_host (reload own loaded) (bytes "ip4") (bytes "a.b.c") ≡ (v4 ∷ [], true)
unfolding lookup_host reload
wildcard_4 = refl

default_6 : lookup_host (reload own loaded) (bytes "ip4") (bytes "c") ≡ ([], false)
unfolding lookup_host reload
default_6 = refl

lookup_host-reload_example :
    lookup_host (reload own loaded) (bytes "ip6") (bytes "a" ++ dotted (bytes "b" ∷ bytes "c" ∷ []))
    ≡ answer (bytes "ip6") (
        first
          (λ k. non_nil (ips_of k [] (own ++ loaded)))
          (keys (bytes "a") (bytes "b" ∷ bytes "c" ∷ []) ++ ((dot ∷ []) ∷ [])))
lookup_host-reload_example =
    lookup_host-reload own loaded (bytes "ip6") (bytes "a") (bytes "b" ∷ bytes "c" ∷ [])
      (((λ h. cc), refl), (((λ h. cc), refl), (((λ h. cc), refl), tt)))

abbrev as_is : Text → Text
as_is s = s

abbrev parse_ip : Text → Option Ip
parse_ip s = if text_eq s (bytes "10.0.0.1") then some v4 else none

two_names :
    parse_line as_is parse_ip (bytes "10.0.0.1  a.b .b # a comment")
    ≡ record { hostname = bytes "a.b"; ip = v4 } ∷ record { hostname = bytes ".b"; ip = v4 } ∷ []
unfolding parse_line
two_names = refl
