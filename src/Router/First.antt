-- ===== src/Router/First.antt =====
-- Which route GetRoute returns.
use go_gost_x.Prelude.{
  ℕ, ◌≡◌, refl, Bool, true, false, List, [], ◌∷◌, ◌++◌, Option, none, some, if◌then◌else◌, any, map,
  arith,
}
use go_gost_x.Text.{Text, is_empty}
use go_gost_x.Router.{Route, serves, first_route, get_route}

-- The result is the first route that serves: no earlier one does, or none does at all.
abbrev pub IsFirst : (Route → Bool) → List Route → Option Route → Type 0
IsFirst f rs none = any f rs ≡ false
IsFirst f rs (some r) =
    (us : List Route) × (vs : List Route) × (rs ≡ us ++ (r ∷ vs))
    × (any f us ≡ false)
    × (f r ≡ true)

first_route-IsFirst :
    (dst : Text) (ip : Option (List ℕ)) (rs : List Route)
    → (o : Option Route) × (first_route dst ip (map some rs) ≡ some o)
      × IsFirst (serves dst ip) rs o
unfolding first_route
first_route-IsFirst dst ip [] = (none, refl, refl)
first_route-IsFirst dst ip (r ∷ rs) = by_case (serves dst ip r) refl (first_route-IsFirst dst ip rs)
  where
    skipped :
        (o : Option Route)
        → serves dst ip r ≡ false
        → IsFirst (serves dst ip) rs o
        → IsFirst (serves dst ip) (r ∷ rs) o
    skipped none e h = ground (arith, e, h)
    skipped (some q) e (us, vs, p, n, y) = (r ∷ us, vs, rw p refl, ground (arith, e, n), y)

    by_case :
        (b : Bool)
        → serves dst ip r ≡ b
        → (o : Option Route) × (first_route dst ip (map some rs) ≡ some o)
          × IsFirst (serves dst ip) rs o
        → (o : Option Route) × ((if b then some (some r) else first_route dst ip (map some rs))
            ≡ some o)
          × IsFirst (serves dst ip) (r ∷ rs) o
    by_case true e ih = (some r, refl, ([], rs, refl, refl, e))
    by_case false e (o, q, h) = (o, q, skipped o e h)

-- For a destination that is not empty, and routes none of which is nil, GetRoute does not panic, and
-- returns the first route that has the destination as its text or whose network contains it, or
-- nil if there is no such route.
pub get_route-IsFirst :
    (parse_ip : Text → Option (List ℕ)) (rs : List Route) (dst : Text)
    → is_empty dst ≡ false
    → (o : Option Route) × (get_route parse_ip (map some rs) dst ≡ some o)
      × IsFirst (serves dst (parse_ip dst)) rs o
unfolding get_route
get_route-IsFirst parse_ip rs dst e = rw e (first_route-IsFirst dst (parse_ip dst) rs)
