-- ===== src/Routing/Funcs/Table/Each.antt =====
-- Each matcher by itself: whether it may panic.
use go_gost_x.Prelude.{
  any, length, leb, arith, ◌≡◌, refl, Bool, true, false, List, [], ◌∷◌, Option, none, some,
  if◌then◌else◌,
}
use go_gost_x.Text.{Text, text_eq, is_empty}
use go_gost_x.Routing.Request.{Request}
use go_gost_x.Routing.Funcs.{
  always, on_some, Built, built, panics, refused, bytes, address_test, has_prefix, non_empty_body,
  body_regexp, network, admission, path_regexp, client_ip, method, path_prefix, proto, bypass, path,
  Packages, matcher_of, is_ascii,
}
use go_gost_x.Routing.Funcs.Host.{host_regexp, host, host_pattern, host_test, request_host}
use go_gost_x.Routing.Funcs.Keyed.{
  values_of, header_regexp, query_regexp, header, query, body_json, keyed_by, body_json_by,
  parse_compare_params,
}

-- There is no panic: not where the matcher is built, and if it is, not on any request.
abbrev pub IsTotal : Built → Type 0
IsTotal panics = ⊥
IsTotal refused = Unit
IsTotal (built f) = (req : Request) → (b : Bool) × (f req ≡ some b)

matcher_of-IsTotal : {A : Type 0} (o : Option A) (f : A → Request → Bool) → IsTotal (matcher_of o f)
matcher_of-IsTotal none f = tt
matcher_of-IsTotal (some a) f = λ req. (f a req, refl)

pub if-IsTotal :
    (b : Bool) (m : Built) → (b ≡ true → IsTotal m) → IsTotal (if b then m else refused)
if-IsTotal true m t = t refl
if-IsTotal false m t = tt

pub host_test-total : (h n : Text) → is_empty h ≡ false → (b : Bool) × (host_test h n ≡ some b)
host_test-total h [] e = (false, refl)
host_test-total [] (c ∷ n) e = cc
host_test-total (b ∷ h) (c ∷ n) e = by_case (text_eq (c ∷ n) (b ∷ h)) _
  where
    by_case : (t u : Bool) → (r : Bool) × ((if t then some true else some u) ≡ some r)
    by_case true u = (true, refl)
    by_case false u = (u, refl)

module _ {F : Type 0} (p : Packages F) where
  pub header-IsTotal : (key : Text) (more : List Text) → IsTotal (header p (key ∷ more))
  unfolding header
  header-IsTotal key more = by_case (parse_compare_params p (key ∷ more))
    where
      by_case :
          (c : Option (Option (Text × F)))
          → IsTotal (keyed_by p (λ req. req.header) (p.canonical_key key) (key ∷ more) c)
      by_case none = tt
      by_case (some none) = λ req. (_, refl)
      by_case (some (some (op, v))) = λ req. (_, refl)

  pub query-IsTotal : (key : Text) (more : List Text) → IsTotal (query p (key ∷ more))
  unfolding query
  query-IsTotal key more = by_case (parse_compare_params p (key ∷ more))
    where
      by_case :
          (c : Option (Option (Text × F)))
          → IsTotal (keyed_by p (λ req. req.query) key (key ∷ more) c)
      by_case none = tt
      by_case (some none) = λ req. (_, refl)
      by_case (some (some (op, v))) = λ req. (_, refl)

  pub body_json-IsTotal :
      (path pattern : Text) (more : List Text) → IsTotal (body_json p (path ∷ pattern ∷ more))
  unfolding body_json
  body_json-IsTotal path pattern more = by_case (parse_compare_params p (path ∷ pattern ∷ more))
    where
      by_case :
          (c : Option (Option (Text × F))) → IsTotal (body_json_by p path (path ∷ pattern ∷ more) c)
      by_case none = tt
      by_case (some none) = matcher_of-IsTotal (p.compile pattern) _
      by_case (some (some (op, v))) = λ req. (_, refl)

  pub host-IsTotal : (v : Text) → is_empty (host_pattern p v) ≡ false → IsTotal (host p (v ∷ []))
  unfolding host
  host-IsTotal v e =
      if-IsTotal (is_ascii v) (built (λ req. host_test (host_pattern p v) (request_host p req)))
        (λ b req. host_test-total _ (request_host p req) e)

  pub client_ip-IsTotal : (v : Text) → IsTotal (client_ip p (v ∷ []))
  unfolding client_ip
  client_ip-IsTotal v =
      matcher_of-IsTotal (address_test p v) (λ test req. on_some req.client_ip test)

  pub network-IsTotal : (v : Text) → IsTotal (network p (v ∷ []))
  unfolding network
  network-IsTotal v = λ req. (_, refl)

  pub proto-IsTotal : (v : Text) → IsTotal (proto p (v ∷ []))
  unfolding proto
  proto-IsTotal v = λ req. (_, refl)

  pub host_regexp-IsTotal : (v : Text) → IsTotal (host_regexp p (v ∷ []))
  unfolding host_regexp
  host_regexp-IsTotal v =
      if-IsTotal (is_ascii v) (matcher_of (p.compile v) (λ re req. re (request_host p req)))
        (λ b. matcher_of-IsTotal (p.compile v) (λ re req. re (request_host p req)))

  pub method-IsTotal : (v : Text) → IsTotal (method p (v ∷ []))
  unfolding method
  method-IsTotal v = λ req. (_, refl)

  pub path-IsTotal : (v : Text) → IsTotal (path p (v ∷ []))
  unfolding path
  path-IsTotal v =
      if-IsTotal (has_prefix v (bytes "/")) (always (λ req. text_eq req.path v))
        (λ b req. (_, refl))

  pub path_regexp-IsTotal : (v : Text) → IsTotal (path_regexp p (v ∷ []))
  unfolding path_regexp
  path_regexp-IsTotal v = matcher_of-IsTotal (p.compile v) (λ re req. re req.path)

  pub path_prefix-IsTotal : (v : Text) → IsTotal (path_prefix p (v ∷ []))
  unfolding path_prefix
  path_prefix-IsTotal v =
      if-IsTotal (has_prefix v (bytes "/")) (always (λ req. has_prefix req.path v))
        (λ b req. (_, refl))

  pub body_regexp-IsTotal : (v : Text) → IsTotal (body_regexp p (v ∷ []))
  unfolding body_regexp
  body_regexp-IsTotal v = matcher_of-IsTotal (p.compile v) (λ re req. non_empty_body p req re)

  pub header_regexp-IsTotal :
      (key : Text) (more : List Text)
      → leb (length more) 1 ≡ true
      → IsTotal (header_regexp p (key ∷ more))
  unfolding header_regexp
  header_regexp-IsTotal key [] e = header-IsTotal key []
  header_regexp-IsTotal key (value ∷ []) e =
      matcher_of-IsTotal (p.compile value)
        (λ re req. on_some (values_of req.header (p.canonical_key key)) (any re))
  header_regexp-IsTotal key (value ∷ v ∷ more) e = absurd (ground arith)

  pub query_regexp-IsTotal :
      (key : Text) (more : List Text)
      → leb (length more) 1 ≡ true
      → IsTotal (query_regexp p (key ∷ more))
  unfolding query_regexp
  query_regexp-IsTotal key [] e = query-IsTotal key []
  query_regexp-IsTotal key (value ∷ []) e =
      matcher_of-IsTotal (p.compile value) (λ re req. on_some (values_of req.query key) (any re))
  query_regexp-IsTotal key (value ∷ v ∷ more) e = absurd (ground arith)

  pub bypass-IsTotal : (v : Text) → IsTotal (bypass p (v ∷ []))
  unfolding bypass
  bypass-IsTotal v = λ req. (_, refl)

  pub admission-IsTotal : (v : Text) → IsTotal (admission p (v ∷ []))
  unfolding admission
  admission-IsTotal v = λ req. (_, refl)
