-- ===== src/Chain/Path.antt =====
-- Which nodes a route goes through, and where it is split.
use go_gost_x.Prelude.{
  ◌≡◌, refl, sym, ap, ◌∙◌, Bool, true, false, List, [], ◌∷◌, ◌++◌, Option, none, some,
  if◌then◌else◌,
}
use mathlib.Core.List.{append-nil, append_assoc}
use go_gost_x.Text.{Text}
use go_gost_x.Chain.Route.{
  Route, empty, add_node, direct, over, Hop, extend, extend_or_stop, build, route, route_path,
  via_path,
}

module _ {N S : Type 0} (network address host : Text) where
  -- The nodes that the hops choose, up to the first hop that chooses none.
  abbrev pub chosen_with : (S → List N) → Option N × S → List N
  chosen_with next (none, st) = []
  chosen_with next (some n, st) = n ∷ next st

  unfoldable pub chosen : List (Hop S N) → S → List N
  chosen [] st = []
  chosen (h ∷ hs) st = chosen_with (chosen hs) (h network address host st)

module _ {N : Type 0} (multiplex : N → Bool) where
  -- The nodes that multiplex are the ones with a route before them, and only the first node of a
  -- route does.
  abbrev pub IsSplit : Route N → Type 0
  IsSplit empty = Unit
  IsSplit (add_node rt n direct) = (multiplex n ≡ false) × IsSplit rt
  IsSplit (add_node empty n (over rt)) = (multiplex n ≡ true) × IsSplit rt
  IsSplit (add_node (add_node rt m v) n (over u)) = ⊥

  extend-route_path :
      (rt : Route N) (n : N) → route_path (extend multiplex rt n) ≡ route_path rt ++ (n ∷ [])
  unfolding route_path via_path
  extend-route_path rt n = by_case (multiplex n)
    where
      by_case :
          (b : Bool)
          → route_path (if b then add_node empty n (over rt) else add_node rt n direct)
            ≡ route_path rt ++ (n ∷ [])
      by_case true = refl
      by_case false = refl

  extend-IsSplit : (rt : Route N) (n : N) → IsSplit rt → IsSplit (extend multiplex rt n)
  extend-IsSplit rt n s = by_case _ refl
    where
      by_case :
          (b : Bool)
          → multiplex n ≡ b
          → IsSplit (if b then add_node empty n (over rt) else add_node rt n direct)
      by_case true e = (e, s)
      by_case false e = (e, s)

  module _ {S : Type 0} (network address host : Text) where
    build-chosen :
        (hs : List (Hop S N)) (rt : Route N) (st : S)
        → IsSplit rt
        → (route_path (build multiplex network address host hs rt st).0
            ≡ route_path rt ++ chosen network address host hs st)
          × IsSplit (build multiplex network address host hs rt st).0
    unfolding build chosen
    build-chosen [] rt st s = (sym (append-nil (route_path rt)), s)
    build-chosen (h ∷ hs) rt st s =
        by_case (h network address host st)
          (λ n st'. build-chosen hs (extend multiplex rt n) st' (extend-IsSplit rt n s))
      where
        by_case :
            (r : Option N × S)
            → ((n : N) (st' : S)
                → (route_path
                      (build multiplex network address host hs (extend multiplex rt n) st').0
                    ≡ route_path (extend multiplex rt n) ++ chosen network address host hs st')
                  × IsSplit (build multiplex network address host hs (extend multiplex rt n) st').0)
            → (route_path
                  (extend_or_stop multiplex (build multiplex network address host hs) rt r).0
                ≡ route_path rt
                  ++ chosen_with network address host (chosen network address host hs) r)
              × IsSplit (extend_or_stop multiplex (build multiplex network address host hs) rt r).0
        by_case (none, st') ih = (sym (append-nil (route_path rt)), s)
        by_case (some n, st') ih =
            let (e, i) = ih n st' in
            (
              e
                  ∙ ap (λ us. us ++ chosen network address host hs st') (extend-route_path rt n)
                  ∙ append_assoc (route_path rt) (n ∷ []) _,
              i,
            )

    -- A chain with hops gives a route that goes, with the routes before its nodes counted, through
    -- the nodes that the hops choose, in the order of the hops and up to the first that chooses
    -- none; and the route is split before each node that multiplexes and nowhere else.
    pub route-chosen :
        (h : Hop S N) (hs : List (Hop S N)) (st : S)
        → (rt : Route N) × ((route multiplex network address host (h ∷ hs) st).0 ≡ some rt)
          × (route_path rt ≡ chosen network address host (h ∷ hs) st)
          × IsSplit rt
    unfolding route route_path
    route-chosen h hs st = let (e, i) = build-chosen (h ∷ hs) empty st tt in (_, refl, e, i)
