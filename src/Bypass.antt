-- ===== src/Bypass.antt =====
-- bypass/bypass.go: which addresses skip the proxy chain. Parameters are net.ParseCIDR, net.ParseIP,
-- netip.ParseAddr, strings.TrimSpace and ToLower, and the globs. A loader is what it holds.
pub mod Decision
use go_gost_x.Prelude.{
  ℕ, ◌==◌, Bool, true, false, not, ◌&&◌, ◌||◌, List, [], ◌∷◌, ◌++◌, Option, none, some,
  if◌then◌else◌, any,
}
use go_gost_x.Text.{Text, text_eq, is_empty, split_host_port}
use go_gost_x.Matcher.Addr.{Addr}
use go_gost_x.Matcher.Cidr.{IpNet, cidr_matcher, match_cidr}
use go_gost_x.Matcher.Ip.{IpRange, parse_range, match_ip_range}
use go_gost_x.Matcher.Address.{addr_matcher, match_addr}
use go_gost_x.Matcher.Wildcard.{wildcard_matcher, match_wildcard}

-- matcher.Matcher of each field.
pub record PatternSet : Type 0 where
  pub cidr : Text → Bool
  pub addr : Text → Bool
  pub wildcard : Text → Bool
  pub ip_range : Text → Bool

-- The four lists of classifyPatterns.
pub record Classes : Type 0 where
  pub addrs : List Text
  pub inets : List IpNet
  pub wildcards : List Text
  pub ip_ranges : List IpRange

pub record Options : Type 0 where
  pub whitelist : Bool
  pub matchers : List Text
  pub network : Text

pub record LocalBypass : Type 0 where
  pub patterns : Option PatternSet
  pub options : Options

pub data BypassDecision : Type 0 where
  bypasses proxies : BypassDecision

abbrev pub is_bypass : BypassDecision → Bool
is_bypass bypasses = true
is_bypass proxies = false

-- The host of an address, or all of it where there is none.
abbrev host_or : Text → Option (Text × Text) → Text
host_or addr none = addr
host_or addr (some (host, port)) = if is_empty host then addr else host

abbrev pub host_of : Text → Text
host_of addr = host_or addr (split_host_port addr)

-- strings.ContainsAny(s, "*?")
abbrev has_wildcard : Text → Bool
has_wildcard s = any (λ c. c == 42 || c == 63) s

-- s up to the first '#'
abbrev before_hash : Text → Text
before_hash [] = []
before_hash (c ∷ s) = if c == 35 then [] else c ∷ before_hash s

module _ (is_ip : Text → Bool) where
  unfoldable pub match_any : Option PatternSet → Text → Bool
  unfolding split_host_port
  match_any none addr = false
  match_any (some ps) addr =
      if ps.ip_range addr
      then true
      else if ps.addr addr
      then true
      else if is_ip (host_of addr) && ps.cidr (host_of addr)
      then true
      else ps.wildcard addr

  unfoldable pub match_host : Option PatternSet → Text → Bool
  unfolding split_host_port
  match_host none host = false
  match_host (some ps) host =
      if is_empty host
      then false
      else if is_ip (host_of host)
      then false
      else if ps.addr (host_of host)
      then true
      else ps.wildcard (host_of host)

  unfoldable pub decide : LocalBypass → Text → Text → Text → BypassDecision
  decide p network addr host =
      if not (is_empty p.options.network) && not (text_eq p.options.network network)
      then proxies
      else (elim p.patterns [
        | none ↦
            (if not (is_empty p.options.network)
              then (if p.options.whitelist then proxies else bypasses)
              else proxies)
        | some ps ↦
            (let matched = match_any (some ps) addr || match_host (some ps) host in
              if p.options.whitelist
              then (if matched then proxies else bypasses)
              else if matched
              then bypasses
              else proxies)
      ])

  unfoldable pub contains : LocalBypass → Text → Text → Text → Bool
  unfolding decide
  contains p network addr host =
      if is_empty addr then false else is_bypass (decide p network addr host)

-- bypass.Bypass, asked of one address.
pub record Rule : Type 0 where
  pub whitelist : Bool
  pub contains : Bool

-- The first loop of `evaluate`: hasWhitelist and allWhitelistBypass.
abbrev white_loop : List Rule → Bool → Bool × Bool
white_loop [] has = (has, true)
white_loop (r ∷ rs) has =
    if not r.whitelist
    then white_loop rs has
    else if not r.contains
    then (true, false)
    else white_loop rs true

-- The second loop.
abbrev black_loop : List Rule → BypassDecision
black_loop [] = proxies
black_loop (r ∷ rs) =
    if r.whitelist then black_loop rs else if r.contains then bypasses else black_loop rs

unfoldable pub evaluate : List Rule → BypassDecision
evaluate rs =
    let (has, allow) = white_loop rs false in if has && allow then bypasses else black_loop rs

-- What a loader holds: the entries of a Lister, or the lines of its contents, none without them.
pub data Source : Type 0 where
  listed : List Text → Source
  lines : Option (List Text) → Source

module _ (trim : Text → Text) where
  unfoldable pub parse_line : Text → Text
  parse_line s = trim (before_hash s)

  abbrev pub parse_each : List Text → List Text
  parse_each [] = []
  parse_each (s ∷ ss) =
      if is_empty (parse_line s) then parse_each ss else parse_line s ∷ parse_each ss

  abbrev pub parse_patterns : Option (List Text) → List Text
  parse_patterns none = []
  parse_patterns (some ss) = parse_each ss

  abbrev from_file : Option Source → List Text
  from_file none = []
  from_file (some (listed ss)) = parse_each ss
  from_file (some (lines ss)) = parse_patterns ss

  -- The entries of a list of Redis are taken as they are.
  abbrev from_redis : Option Source → List Text
  from_redis none = []
  from_redis (some (listed ss)) = ss
  from_redis (some (lines ss)) = parse_patterns ss

  unfoldable pub load : Option Source → Option Source → Option (List Text) → List Text
  load file redis http = from_file file ++ (from_redis redis ++ parse_patterns http)

module _ (parse_cidr : Text → Option IpNet) (parse_addr : Text → Option Addr)
    (trim lower : Text → Text) (Glob : Type 0) (compile : Text → Option Glob)
    (test : Glob → Text → Bool) where
  abbrev compiles : Option Glob → Bool
  compiles none = false
  compiles (some g) = true

  abbrev put_range : Text → Option IpRange → Classes → Classes
  put_range pattern none c = record c { addrs = pattern ∷ c.addrs }
  put_range pattern (some r) c = record c { ip_ranges = r ∷ c.ip_ranges }

  abbrev put_pattern : Text → Option IpNet → Classes → Classes
  put_pattern pattern none c =
      if has_wildcard pattern && compiles (compile pattern)
      then record c { wildcards = pattern ∷ c.wildcards }
      else put_range pattern (parse_range parse_addr trim pattern) c
  put_pattern pattern (some inet) c = record c { inets = inet ∷ c.inets }

  -- The loop of classifyPatterns.
  unfoldable pub classify : List Text → Classes
  unfolding parse_range
  classify [] = record { addrs = []; inets = []; wildcards = []; ip_ranges = [] }
  classify (p ∷ ps) = put_pattern p (parse_cidr p) (classify ps)

  unfoldable pub pattern_set : List Text → PatternSet
  unfolding classify match_cidr match_addr match_wildcard match_ip_range
  pattern_set patterns =
      let c = classify patterns in
      record {
        cidr = match_cidr parse_addr (cidr_matcher c.inets);
        addr = match_addr lower (addr_matcher lower c.addrs);
        wildcard =
            match_wildcard Glob compile test lower
              (wildcard_matcher Glob compile test lower c.wildcards);
        ip_range = match_ip_range parse_addr c.ip_ranges;
      }

  -- `loaded` is what `load` returns. The patterns stay as they are when there are none now.
  unfoldable pub reload : LocalBypass → List Text → LocalBypass
  unfolding pattern_set
  reload p loaded = elim (p.options.matchers ++ loaded) [
    | [] ↦ p
    | q ∷ qs ↦ record p { patterns = some (pattern_set (q ∷ qs)) }
  ]
