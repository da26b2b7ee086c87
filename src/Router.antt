-- ===== src/Router.antt =====
-- router/router.go: the routes of a local router. The routes of the operating system are left out.
pub mod First
use go_gost_x.Prelude.{
  ℕ, Bool, true, false, ◌||◌, List, [], ◌∷◌, ◌++◌, Option, none, some, if◌then◌else◌, map,
}
use go_gost_x.Text.{Text, is_empty, text_eq}
use go_gost_x.Loader.{Source, lists, reads, Loaders, fields_of}

-- router.Route; `net` is Contains of the network.
pub record Route : Type 0 where
  pub net : Option (List ℕ → Bool)
  pub dst : Text
  pub gateway : Text

-- A nil route is none.
module _ (trim_space : Text → Text) (parse_cidr : Text → Option (List ℕ → Bool)) where
  unfoldable pub parse_route : Text → Text → Option Route
  parse_route dst gateway =
      if is_empty dst
      then none
      else some (record { net = parse_cidr dst; dst = dst; gateway = gateway })

  abbrev of_fields : List Text → Option Route
  unfolding parse_route
  of_fields [] = none
  of_fields (d ∷ []) = none
  of_fields (d ∷ g ∷ rest) = parse_route d g

  unfoldable pub parse_line : Text → Option Route
  unfolding of_fields
  parse_line s = of_fields (fields_of trim_space s)

  abbrev non_nil : List (Option Route) → List (Option Route)
  non_nil [] = []
  non_nil (none ∷ rs) = non_nil rs
  non_nil (some r ∷ rs) = some r ∷ non_nil rs

  unfoldable pub parse_routes : Option (List Text) → List (Option Route)
  unfolding parse_line
  parse_routes none = []
  parse_routes (some ss) = non_nil (map parse_line ss)

  -- The lines of a lister are all taken, with nil for one that is no route.
  abbrev from_source : Option Source → List (Option Route)
  from_source none = []
  from_source (some (lists ss)) = map parse_line ss
  from_source (some (reads r)) = parse_routes r

  abbrev from_http : Option (Option (List Text)) → List (Option Route)
  from_http none = []
  from_http (some r) = parse_routes r

  unfoldable pub load : Loaders → List (Option Route)
  unfolding parse_line parse_routes
  load l = from_source l.file_loader ++ (from_source l.redis_loader ++ from_http l.http_loader)

  unfoldable pub reload : List (Option Route) → Loaders → List (Option Route)
  unfolding load
  reload own l = own ++ load l

-- Contains of a network that may be nil, and of an address that may be nil.
abbrev pub covers : Option (List ℕ → Bool) → Option (List ℕ) → Bool
covers none ip = false
covers (some contains) none = false
covers (some contains) (some ip) = contains ip

abbrev pub serves : Text → Option (List ℕ) → Route → Bool
serves dst ip r = text_eq r.dst dst || covers r.net ip

-- The loop over the routes; none for a panic, of a nil route.
unfoldable pub first_route : Text → Option (List ℕ) → List (Option Route) → Option (Option Route)
first_route dst ip [] = some none
first_route dst ip (none ∷ rs) = none
first_route dst ip (some r ∷ rs) =
    let rest = first_route dst ip rs in if serves dst ip r then some (some r) else rest

-- GetRoute
unfoldable pub get_route :
    (Text → Option (List ℕ)) → List (Option Route) → Text → Option (Option Route)
unfolding first_route
get_route parse_ip routes dst =
    if is_empty dst then some none else first_route dst (parse_ip dst) routes
