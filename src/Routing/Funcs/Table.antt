-- ===== src/Routing/Funcs/Table.antt =====
-- routing/matcher.go: httpFuncs.
pub mod Each
pub mod Total
use go_gost_x.Prelude.{List, [], ◌∷◌, Option, none, some}
use go_gost_x.Text.{Text, bytes, lookup}
use go_gost_x.Routing.Funcs.{
  Packages, Built, panics, Func, expect, client_ip, network, proto, method, path, path_regexp,
  path_prefix, body_regexp, admission, bypass,
}
use go_gost_x.Routing.Funcs.Host.{host, host_regexp}
use go_gost_x.Routing.Funcs.Keyed.{header, header_regexp, query, query_regexp, body_json}

module _ {F : Type 0} (p : Packages F) where
  unfoldable pub http_funcs : List (Text × Func)
  unfolding client_ip network proto method path path_regexp path_prefix body_regexp admission bypass
      host host_regexp header header_regexp query query_regexp body_json
  http_funcs =
      (bytes "ClientIP", expect (1 ∷ []) (client_ip p))
      ∷ (bytes "Network", expect (1 ∷ []) (network p))
      ∷ (bytes "Proto", expect (1 ∷ []) (proto p))
      ∷ (bytes "Host", expect (1 ∷ []) (host p))
      ∷ (bytes "HostRegexp", expect (1 ∷ []) (host_regexp p))
      ∷ (bytes "Method", expect (1 ∷ []) (method p))
      ∷ (bytes "Path", expect (1 ∷ []) (path p))
      ∷ (bytes "PathRegexp", expect (1 ∷ []) (path_regexp p))
      ∷ (bytes "PathPrefix", expect (1 ∷ []) (path_prefix p))
      ∷ (bytes "Header", expect (1 ∷ 2 ∷ 3 ∷ []) (header p))
      ∷ (bytes "HeaderRegexp", expect (1 ∷ 2 ∷ []) (header_regexp p))
      ∷ (bytes "Query", expect (1 ∷ 2 ∷ 3 ∷ []) (query p))
      ∷ (bytes "QueryRegexp", expect (1 ∷ 2 ∷ []) (query_regexp p))
      ∷ (bytes "BodyJSON", expect (2 ∷ 3 ∷ []) (body_json p))
      ∷ (bytes "BodyRegexp", expect (1 ∷ []) (body_regexp p))
      ∷ (bytes "Bypass", expect (1 ∷ []) (bypass p))
      ∷ (bytes "Admission", expect (1 ∷ []) (admission p))
      ∷ []

  -- What addRule asks of the table: a name that is not in it, which the parser lets no rule have, is
  -- a panic.
  abbrev pub by_name : Option Func → List Text → Built
  by_name none values = panics
  by_name (some fn) values = fn values

  unfoldable pub matcher : Text → List Text → Built
  unfolding http_funcs
  matcher name values = by_name (lookup name http_funcs) values
