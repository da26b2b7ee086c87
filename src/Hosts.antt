-- ===== src/Hosts.antt =====
-- hosts/hosts.go: the table of host names. A nil slice of addresses is none; the slices in the table
-- are never empty.
pub mod Tails
pub mod Table
pub mod Lines
use go_gost_x.Prelude.{
  ℕ, zero, suc, ◌==◌, Bool, true, false, not, ◌&&◌, List, [], ◌∷◌, ◌++◌, Option, none, some,
  if◌then◌else◌, any, length, drop,
}
use go_gost_x.Text.{Text, bytes, dot, index_byte, lookup, insert, text_eq}
use go_gost_x.Matcher.Addr.{is_mapped}

-- net.IP
abbrev pub Ip : Type 0
Ip = List ℕ

-- IP.To4
abbrev pub to_4 : Ip → Option Ip
to_4 ip =
    if length ip == 4
    then some ip
    else if length ip == 16 && is_mapped ip
    then some (drop 12 ip)
    else none

-- IP.Equal
abbrev pub equal : Ip → Ip → Bool
equal ip x =
    if length ip == length x
    then text_eq ip x
    else if length ip == 4 && length x == 16
    then is_mapped x && text_eq ip (drop 12 x)
    else length ip == 16 && length x == 4 && (is_mapped ip && text_eq (drop 12 ip) x)

pub record Mapping : Type 0 where
  pub hostname : Text
  pub ip : Ip

abbrev pub Mappings : Type 0
Mappings = List (Text × List Ip)

abbrev pub or_nil : Option (List Ip) → List Ip
or_nil none = []
or_nil (some ips) = ips

abbrev pub add_ip : Ip → List Ip → List Ip
add_ip ip ips = if any (equal ip) ips then ips else ips ++ (ip ∷ [])

-- The function `mapf` of reload.
abbrev pub map_ip : Mappings → Mapping → Mappings
map_ip m x = insert x.hostname (add_ip x.ip (or_nil (lookup x.hostname m))) m

unfoldable pub map_all : Mappings → List Mapping → Mappings
map_all m [] = m
map_all m (x ∷ xs) = map_all (map_ip m x) xs

-- reload, with the mappings of the options and those that `load` gives.
unfoldable pub reload : List Mapping → List Mapping → Mappings
unfolding map_all
reload own loaded = map_all [] (own ++ loaded)

abbrev pub or_next : {A : Type 0} → Option A → Option A → Option A
or_next none o = o
or_next (some a) o = some a

-- The loop from one dot of the host to the next. Each round but the last shortens the host, so
-- `suc (length host)` rounds are enough.
unfoldable pub tails : {A : Type 0} → (Text → Option A) → ℕ → Text → Option A
tails find zero host = none
tails find (suc fuel) host = elim (index_byte dot host) [
  | none ↦ none
  | some zero ↦ none
  | some (suc i) ↦
      let rest = tails find fuel (drop (suc (suc i)) host) in
      or_next (find (drop (suc i) host)) rest
]

unfoldable pub find_ips : (Text → Option (List Ip)) → Text → Option (List Ip)
unfolding tails
find_ips find host =
    or_next (find host) (
      or_next (find (dot ∷ host)) (or_next (tails find (suc (length host)) host) (find (dot ∷ []))))

abbrev only_4 : List Ip → List Ip
only_4 [] = []
only_4 (ip ∷ ips) = let rest = only_4 ips in elim (to_4 ip) [ none ↦ rest | some v ↦ v ∷ rest ]

abbrev only_6 : List Ip → List Ip
only_6 [] = []
only_6 (ip ∷ ips) = let rest = only_6 ips in elim (to_4 ip) [ none ↦ ip ∷ rest | some v ↦ rest ]

abbrev is_some_ip : List Ip → Bool
is_some_ip [] = false
is_some_ip (ip ∷ ips) = true

-- The switch on the network.
abbrev pub of_network : Text → List Ip → List Ip
of_network network ips =
    if text_eq network (bytes "ip4")
    then only_4 ips
    else if text_eq network (bytes "ip6")
    then only_6 ips
    else ips

abbrev pub answer : Text → Option (List Ip) → List Ip × Bool
answer network none = ([], false)
answer network (some ips) = let v = of_network network ips in (v, is_some_ip v)

-- Lookup
unfoldable pub lookup_host : Mappings → Text → Text → List Ip × Bool
unfolding find_ips
lookup_host m network host = answer network (find_ips (λ k. lookup k m) host)
