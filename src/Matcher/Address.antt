-- ===== src/Matcher/Address.antt =====
-- internal/matcher/matcher.go: AddrMatcher. `lower` is strings.ToLower.
use go_gost_x.Prelude.{
  ◌≡◌, refl, Bool, true, false, ◌&&◌, ◌||◌, List, [], ◌∷◌, ◌++◌, Option, none, some, arith,
  if◌then◌else◌, any, any-append, any-swap, All, any-ext, any_none, sym, ◌∙◌, ℤ,
}
use go_gost_x.Text.{Text, text_eq, text_eq_iff, lookup, insert, lookup-insert, atoi, is_empty}
use go_gost_x.Matcher.PortRange.{PortRange, parse, contains}
use go_gost_x.Matcher.Suffix.{match_name, dotted, IsLabel, keys, match_name-keys}
use go_gost_x.Matcher.Split.{split_addr}

-- A nil *PortRange is any port.
abbrev pub Ports : Type 0
Ports = List (Option PortRange)

abbrev pub AddrMap : Type 0
AddrMap = List (Text × Ports)

unfoldable pub port_admits : Option PortRange → ℤ → Bool
unfolding contains
port_admits none port = true
port_admits (some pr) port = contains pr port

unfoldable pub port_range_match : Ports → ℤ → Bool
unfolding port_admits
port_range_match prs port = any (λ pr. port_admits pr port) prs

abbrev ports_of : Option Ports → Ports
ports_of none = []
ports_of (some prs) = prs

-- m.addrs[host] = append(m.addrs[host], pr)
abbrev add : Text → Option PortRange → AddrMap → AddrMap
add host pr m = insert host (ports_of (lookup host m) ++ pr ∷ []) m

-- if prs, ok := m.addrs[host]; ok { portRangeMatch(prs, port) }
abbrev hits : AddrMap → ℤ → Text → Bool
hits m port host = elim (lookup host m) [ none ↦ false | some prs ↦ port_range_match prs port ]

abbrev is_nil : AddrMap → Bool
is_nil [] = true
is_nil (e ∷ m) = false

hits-add :
    (host : Text) (pr : Option PortRange) (m : AddrMap) (port : ℤ) (k : Text)
    → hits (add host pr m) port k ≡ (text_eq host k && port_admits pr port || hits m port k)
unfolding port_range_match
hits-add host pr m port k = ground (
  arith,
  text_eq_iff host k,
  lookup-insert host k (ports_of (lookup host m) ++ pr ∷ []) m,
  any-append (λ q. port_admits q port) (ports_of (lookup host m)) (pr ∷ []),
)

module _ (lower : Text → Text) where
  -- The key and the port range of a pattern.
  unfoldable pub entry : Text → Text × Option PortRange
  unfolding split_addr parse
  entry addr =
      let (host, port) = split_addr addr in
      if is_empty host then (lower addr, none) else (lower host, parse port)

  fill : List Text → AddrMap → AddrMap
  fill [] m = m
  fill (a ∷ rest) m = fill rest (add (entry a).0 (entry a).1 m)

  unfoldable pub addr_matcher : List Text → AddrMap
  unfolding fill entry
  addr_matcher addrs = fill addrs []

  unfoldable pub match_addr : AddrMap → Text → Bool
  unfolding split_addr atoi match_name port_range_match
  match_addr m addr =
      if is_nil m
      then false
      else (let (host, sp) = split_addr addr in match_name (hits m (atoi sp).0) (lower host))

  -- What a pattern asks of a port and of a text that the matcher looks up.
  abbrev pub asks : Text → ℤ → Text → Bool
  asks pattern port k = text_eq (entry pattern).0 k && port_admits (entry pattern).1 port

  hits-fill :
      (ps : List Text) (m : AddrMap) (port : ℤ) (k : Text)
      → hits (fill ps m) port k ≡ (any (λ p. asks p port k) ps || hits m port k)
  unfolding fill
  hits-fill [] m port k = refl
  hits-fill (p ∷ ps) m port k = ground (
    arith,
    hits-fill ps (add (entry p).0 (entry p).1 m) port k,
    hits-add (entry p).0 (entry p).1 m port k,
  )

  hits-fill_nil :
      (ps : List Text) (port : ℤ) (k : Text)
      → hits (fill ps []) port k ≡ any (λ p. asks p port k) ps
  hits-fill_nil ps port k = ground (arith, hits-fill ps [] port k)

  match_addr-hits :
      (m : AddrMap) (addr l : Text) (ls : List Text)
      → lower (split_addr addr).0 ≡ l ++ dotted ls
      → All IsLabel (l ∷ ls)
      → match_addr m addr ≡ any (hits m (atoi (split_addr addr).1).0) (keys l ls)
  unfolding match_addr
  match_addr-hits [] addr l ls e v = sym (any_none (keys l ls))
  match_addr-hits (x ∷ m) addr l ls e v = rw e (match_name-keys (hits (x ∷ m) _) l ls v)

  -- A matcher built from a list of patterns matches an address whose host is made of non-empty
  -- labels exactly when one of the patterns admits the port, and its host, in lower case, is the
  -- address's host, or one of its tails from a dot on, the whole host after a dot among them.
  pub match_addr-keys :
      (patterns : List Text) (addr l : Text) (ls : List Text)
      → lower (split_addr addr).0 ≡ l ++ dotted ls
      → All IsLabel (l ∷ ls)
      → match_addr (addr_matcher patterns) addr
        ≡ any (λ p. any (asks p (atoi (split_addr addr).1).0) (keys l ls)) patterns
  unfolding addr_matcher
  match_addr-keys patterns addr l ls e v =
      match_addr-hits (addr_matcher patterns) addr l ls e v
      ∙ any-ext (hits (addr_matcher patterns) (atoi (split_addr addr).1).0)
          (λ k. any (λ p. asks p (atoi (split_addr addr).1).0 k) patterns) (keys l ls)
          (hits-fill_nil patterns (atoi (split_addr addr).1).0)
      ∙ any-swap (λ p k. asks p (atoi (split_addr addr).1).0 k) patterns (keys l ls)
