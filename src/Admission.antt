-- ===== src/Admission.antt =====
-- admission/admission.go: which clients are accepted. Parameters are net.ParseIP, net.ParseCIDR,
-- net.ResolveIPAddr and netip.ParseAddr.
pub mod Patterns
pub mod Denial
use go_gost_x.Prelude.{
  ℕ, Bool, true, false, not, ◌&&◌, ◌||◌, List, [], ◌∷◌, ◌++◌, Option, none, some, if◌then◌else◌,
}
use go_gost_x.Text.{Text, is_empty, split_host_port}
use go_gost_x.Matcher.Addr.{Addr}
use go_gost_x.Matcher.CidrTrie.{CidrTrie}
use go_gost_x.Matcher.Cidr.{IpNet, cidr_matcher, match_cidr}
use go_gost_x.Matcher.Ip.{ip_matcher, match_ip}
use go_gost_x.Bypass.{host_of}

pub record LocalAdmission : Type 0 where
  pub ips : List Addr
  pub cidrs : CidrTrie
  pub whitelist : Bool
  pub matchers : List Text

module _ (parse_addr : Text → Option Addr) where
  abbrev pub matched : LocalAdmission → Text → Bool
  matched p addr = match_ip parse_addr p.ips addr || match_cidr parse_addr p.cidrs addr

  unfoldable pub admit : LocalAdmission → Text → Bool
  unfolding match_ip match_cidr split_host_port
  admit p addr =
      if is_empty addr
      then true
      else (let m = matched p (host_of addr) in not p.whitelist && not m || p.whitelist && m)

-- The two lists of `reload`.
pub record Found : Type 0 where
  pub ips : List (List ℕ)
  pub inets : List IpNet

module _ (parse_ip : Text → Option (List ℕ)) (parse_cidr : Text → Option IpNet)
    (resolve : Text → Option (List ℕ)) where
  abbrev put_resolved : Option (List ℕ) → Found → Found
  put_resolved none f = f
  put_resolved (some ip) f = record f { ips = ip ∷ f.ips }

  abbrev put_net : Text → Option IpNet → Found → Found
  put_net pattern none f = put_resolved (resolve pattern) f
  put_net pattern (some inet) f = record f { inets = inet ∷ f.inets }

  abbrev pub put_ip : Text → Option (List ℕ) → Found → Found
  put_ip pattern none f = put_net pattern (parse_cidr pattern) f
  put_ip pattern (some ip) f = record f { ips = ip ∷ f.ips }

  unfoldable pub find : List Text → Found
  find [] = record { ips = []; inets = [] }
  find (p ∷ ps) = put_ip p (parse_ip p) (find ps)

  unfoldable pub reload : LocalAdmission → List Text → LocalAdmission
  unfolding find ip_matcher cidr_matcher
  reload p loaded =
      let f = find (p.matchers ++ loaded) in
      record p { ips = ip_matcher f.ips; cidrs = cidr_matcher f.inets }

-- Admit of a group, on what each member answers; a nil member has no answer.
unfoldable pub group_admit : List (Option Bool) → Bool
group_admit [] = true
group_admit (none ∷ rest) = group_admit rest
group_admit (some a ∷ rest) = if not a then false else group_admit rest
