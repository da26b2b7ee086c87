-- ===== src/Chain/Group.antt =====
-- chain/chain.go: chainGroup. A chain is its Route; an entry's matcher is asked with a request that
-- has a network and a host only.
use go_gost_x.Prelude.{
  ◌≡◌, refl, ap, Bool, true, false, List, [], ◌∷◌, Option, none, some, if◌then◌else◌, any, arith,
  Bool-cases, inl, inr,
}
use go_gost_x.Text.{Text}
use go_gost_x.Selector.Filter.{keep}
use go_gost_x.Routing.Request.{Request}
use go_gost_x.Hop.Group.{matched}
use go_gost_x.Chain.Route.{Route}

-- chain.Chainer
abbrev pub Routes : Type 0 → Type 0 → Type 0
Routes S N = Text → Text → Text → S → Option (Route N) × S

-- *ChainEntry
pub record ChainEntry (S N : Type 0) : Type 0 where
  pub chainer : Routes S N
  pub matcher : Option (Request → Bool)

abbrev given : Option (Request → Bool) → Bool
given none = false
given (some m) = true

abbrev pub has_matcher : {S N : Type 0} → ChainEntry S N → Bool
has_matcher e = given e.matcher

matched-given :
    (m : Option (Request → Bool)) (req : Request) → given m ≡ false → matched m req ≡ true
matched-given none req h = refl
matched-given (some m) req h = cc

abbrev pub route_request : Text → Text → Request
route_request network host = record {
  client_ip = none;
  network = network;
  host = host;
  protocol = [];
  method = [];
  path = [];
  query = none;
  header = none;
  body = [];
}

module _ {S N : Type 0}
    (sel : Option (S → List (ChainEntry S N) → Option (ChainEntry S N) × S)) where
  -- selectFrom, for a slice that is not empty.
  abbrev pub select_from : List (ChainEntry S N) → S → Option (ChainEntry S N) × S
  select_from es st = elim sel [
    | none ↦ elim es [ [] ↦ (none, st) | e ∷ rest ↦ (some e, st) ]
    | some pick ↦ pick st es
  ]

  unfoldable pub matching : Request → List (ChainEntry S N) → List (ChainEntry S N)
  matching req es = keep (λ e. matched e.matcher req) es

  abbrev pub select_eligible : List (ChainEntry S N) → S → Option (ChainEntry S N) × S
  select_eligible [] st = (none, st)
  select_eligible (e ∷ es) st = select_from (e ∷ es) st

  unfoldable pub select_chain :
      Text → Text → List (ChainEntry S N) → S → Option (ChainEntry S N) × S
  unfolding matching
  select_chain network host [] st = (none, st)
  select_chain network host (e ∷ es) st =
      if any has_matcher (e ∷ es)
      then select_eligible (matching (route_request network host) (e ∷ es)) st
      else select_from (e ∷ es) st

  -- chainGroup.Route
  abbrev pub route_by : Text → Text → Text → Option (ChainEntry S N) × S → Option (Route N) × S
  route_by network address host (none, st) = (none, st)
  route_by network address host (some e, st) = e.chainer network address host st

  unfoldable pub group_route : Text → Text → Text → List (ChainEntry S N) → S → Option (Route N) × S
  unfolding select_chain
  group_route network address host es st =
      route_by network address host (select_chain network host es st)

  matching_all :
      (req : Request) (es : List (ChainEntry S N))
      → any has_matcher es ≡ false
      → matching req es ≡ es
  unfolding matching keep
  matching_all req [] h = refl
  matching_all req (e ∷ es) h =
      rw (matched-given e.matcher req (ground arith))
        (ap (λ us. e ∷ us) (matching_all req es (ground (arith, h))))

  -- The short way that a group takes where no entry has a matcher makes no difference: the group's
  -- route is that of the entry that its selector returns from among the entries whose matcher,
  -- if any, matches the network and the host, or nil without such entries.
  pub group_route-matching :
      (network address host : Text) (es : List (ChainEntry S N)) (st : S)
      → group_route network address host es st
        ≡ route_by network address host
            (select_eligible (matching (route_request network host) es) st)
  unfolding group_route select_chain keep
  group_route-matching network address host [] st = refl
  group_route-matching network address host (e ∷ es) st =
      elim (Bool-cases (any has_matcher (e ∷ es))) [
        | inl h ↦ rw h refl
        | inr h ↦ rw h (rw (matching_all (route_request network host) (e ∷ es) h) refl)
      ]
