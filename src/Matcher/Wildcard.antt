-- ===== src/Matcher/Wildcard.antt =====
-- internal/matcher: WildcardMatcher. The globs of github.com/gobwas/glob are a parameter: a type
-- `Glob` with `compile` (glob.Compile, none for its error) and `test` (Glob.Match). `lower` is
-- strings.ToLower.
use go_gost_x.Prelude.{Bool, ◌&&◌, List, [], ◌∷◌, ◌++◌, Option, none, some, if◌then◌else◌, any, ℤ}
use go_gost_x.Text.{Text, atoi, is_empty}
use go_gost_x.Matcher.PortRange.{PortRange, parse}
use go_gost_x.Matcher.Split.{split_addr}
use go_gost_x.Matcher.Address.{port_admits}

module _ (Glob : Type 0) (compile : Text → Option Glob) (test : Glob → Text → Bool)
    (lower : Text → Text) where
  pub record Pattern : Type 0 where
    pub glob : Glob
    pub pr : Option PortRange

  -- One round of the loop: a pattern that does not compile is left out.
  unfoldable pub pattern_of : Text → Option Pattern
  unfolding split_addr parse
  pattern_of pattern =
      let (host, port) = split_addr pattern in
      elim (compile (lower (if is_empty host then pattern else host))) [
        | none ↦ none
        | some g ↦ some (record { glob = g; pr = parse port })
      ]

  fill : List Text → List Pattern → List Pattern
  fill [] ps = ps
  fill (p ∷ rest) ps = fill rest (elim (pattern_of p) [ none ↦ ps | some q ↦ ps ++ q ∷ [] ])

  unfoldable pub wildcard_matcher : List Text → List Pattern
  unfolding fill pattern_of
  wildcard_matcher patterns = fill patterns []

  abbrev pub admits : Pattern → Text → ℤ → Bool
  admits q host port = test q.glob host && port_admits q.pr port

  unfoldable pub match_wildcard : List Pattern → Text → Bool
  unfolding split_addr atoi port_admits
  match_wildcard ps addr =
      let (host, sp) = split_addr addr in any (λ q. admits q (lower host) (atoi sp).0) ps
