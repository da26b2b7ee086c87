-- ===== src/Tests/Admitting.antt =====
-- A blacklist of the address 10.0.0.1.
use go_gost_x.Prelude.{ℕ, ◌≡◌, refl, ◌↔◌, false, List, [], ◌∷◌, ◌++◌, Option, none, some}
use go_gost_x.Text.{Text}
use go_gost_x.Matcher.Addr.{Addr, is_4, mapped_prefix}
use go_gost_x.Matcher.CidrTrie.{new_cidr_trie}
use go_gost_x.Matcher.Cidr.{IpNet}
use go_gost_x.Admission.{LocalAdmission, admit, reload}
use go_gost_x.Admission.Patterns.{Listed}
use go_gost_x.Admission.Denial.{admit-Listed}

abbrev four_bytes : List ℕ
four_bytes = 10 ∷ 0 ∷ 0 ∷ 1 ∷ []

abbrev ten : Addr
ten = record { kind = is_4; as_16 = mapped_prefix ++ four_bytes; zone = [] }

abbrev as_ten : Text → Option Addr
as_ten s = some ten

abbrev bytes_of : Text → Option (List ℕ)
bytes_of s = some four_bytes

abbrev no_net : Text → Option IpNet
no_net s = none

abbrev black : LocalAdmission
black = record { ips = []; cidrs = new_cidr_trie; whitelist = false; matchers = (49 ∷ []) ∷ [] }

admit-Listed_example :
    (admit as_ten (reload bytes_of no_net bytes_of black []) (49 ∷ []) ≡ false)
    ↔ Listed bytes_of no_net bytes_of (black.matchers ++ []) ten
admit-Listed_example = admit-Listed as_ten bytes_of no_net bytes_of black [] (49 ∷ []) ten refl refl
