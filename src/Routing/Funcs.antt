-- ===== src/Routing/Funcs.antt =====
-- routing/matcher.go: the functions of httpFuncs. Regular expressions, numbers, JSON and the texts of
-- addresses are of other packages, and parameters here, as are the registries' entries.
pub mod Host
pub mod Keyed
pub mod Table
use go_gost_x.Prelude.{
  ℕ, ◌==◌, Bool, true, false, not, ◌||◌, List, [], ◌∷◌, Option, none, some, if◌then◌else◌, length,
  zero, suc, all, any, ltb,
}
use go_gost_x.Text.{Text, text_eq, bytes, has_prefix}
use go_gost_x.Hosts.{equal}
use go_gost_x.Routing.Request.{Request}

-- `F` is float64; strconv.ParseFloat gives none for an error, and so do regexp.Compile and the
-- parsers of addresses; `parse_cidr` is Contains of the network.
pub record Packages (F : Type 0) : Type 0 where
  pub to_lower : Text → Text
  pub to_upper : Text → Text
  pub trim_space : Text → Text
  pub canonical_key : Text → Text
  pub compile : Text → Option (Text → Bool)
  pub parse_float : Text → Option F
  pub less : F → F → Bool
  pub less_or_equal : F → F → Bool
  pub same : F → F → Bool
  pub get_json : Text → Text → Text
  pub parse_ip : Text → Option (List ℕ)
  pub parse_cidr : Text → Option (List ℕ → Bool)
  pub admission : Text → Option (List ℕ → Bool)
  pub bypass : Text → Option (Text → Bool)

-- A matcher of a request; none is a panic.
abbrev pub Matcher : Type 0
Matcher = Request → Option Bool

-- What a function of httpFuncs does with its arguments: a panic, an error, or a matcher.
pub data Built : Type 0 where
  panics refused : Built
  built : Matcher → Built

abbrev pub Func : Type 0
Func = List Text → Built

-- An argument by its index; past the end of the arguments, that is a panic.
abbrev pub with_arg : List Text → ℕ → (Text → Built) → Built
with_arg [] i f = panics
with_arg (v ∷ vs) zero f = f v
with_arg (v ∷ vs) (suc i) f = with_arg vs i f

abbrev pub on_some : {A : Type 0} → Option A → (A → Bool) → Bool
on_some none f = false
on_some (some a) f = f a

-- A matcher that cannot panic, of something that may not have been had.
abbrev pub matcher_of : {A : Type 0} → Option A → (A → Request → Bool) → Built
matcher_of none f = refused
matcher_of (some a) f = built (λ req. some (f a req))

abbrev pub always : (Request → Bool) → Built
always f = built (λ req. some (f req))

-- expectNParameters
abbrev pub expect : List ℕ → Func → Func
expect ns fn values = if any (λ n. n == length values) ns then fn values else refused

-- IsASCII
abbrev pub is_ascii : Text → Bool
is_ascii s = all (λ b. ltb b 128) s

module _ {F : Type 0} (p : Packages F) where
  abbrev pub address_test : Text → Option (List ℕ → Bool)
  address_test s = elim (p.parse_ip s) [ none ↦ p.parse_cidr s | some ip ↦ some (equal ip) ]

  unfoldable pub client_ip : Func
  client_ip values =
      with_arg values 0 (λ v. matcher_of (address_test v) (λ test req. on_some req.client_ip test))

  unfoldable pub proto : Func
  proto values = with_arg values 0 (λ v. always (λ req. text_eq (p.to_lower v) req.protocol))

  unfoldable pub network : Func
  network values = with_arg values 0 (λ v. always (λ req. has_prefix req.network (p.to_lower v)))

  unfoldable pub method : Func
  method values = with_arg values 0 (λ v. always (λ req. text_eq (p.to_upper v) req.method))

  unfoldable pub path : Func
  path values =
      with_arg values 0
        (λ v. if has_prefix v (bytes "/") then always (λ req. text_eq req.path v) else refused)

  unfoldable pub path_regexp : Func
  path_regexp values = with_arg values 0 (λ v. matcher_of (p.compile v) (λ re req. re req.path))

  unfoldable pub path_prefix : Func
  path_prefix values =
      with_arg values 0
        (λ v. if has_prefix v (bytes "/") then always (λ req. has_prefix req.path v) else refused)

  abbrev pub non_empty_body : Request → (Text → Bool) → Bool
  non_empty_body req f = if length req.body == 0 then false else f req.body

  unfoldable pub body_regexp : Func
  body_regexp values =
      with_arg values 0 (λ v. matcher_of (p.compile v) (λ re req. non_empty_body req re))

  unfoldable pub admission : Func
  admission values = with_arg values 0 (λ v.
      always (λ req. on_some req.client_ip (λ ip. on_some (p.admission v) (λ admits. admits ip))))

  unfoldable pub bypass : Func
  bypass values =
      with_arg values 0
        (λ v. always (λ req. on_some (p.bypass v) (λ contains. not (contains req.host))))
