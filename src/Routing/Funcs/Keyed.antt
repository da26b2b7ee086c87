-- ===== src/Routing/Funcs/Keyed.antt =====
-- routing/matcher.go: the matchers of headers, of the query and of JSON in the body.
use go_gost_x.Prelude.{
  Bool, true, false, not, ◌==◌, List, [], ◌∷◌, Option, none, some, if◌then◌else◌, any, length,
}
use go_gost_x.Text.{Text, text_eq, bytes, lookup}
use go_gost_x.Routing.Request.{Request, Values}
use go_gost_x.Routing.Funcs.{
  Packages, Built, refused, Func, with_arg, on_some, matcher_of, always, non_empty_body,
}

abbrev pub is_op : Text → Bool
is_op op =
    any (text_eq op)
      (bytes "gt" ∷ bytes "ge" ∷ bytes "lt" ∷ bytes "le" ∷ bytes "eq" ∷ bytes "ne" ∷ [])

-- The values of a key; none for a nil map or a missing key.
abbrev pub values_of : Option Values → Text → Option (List Text)
values_of none key = none
values_of (some m) key = lookup key m

module _ {F : Type 0} (p : Packages F) where
  -- compareOp
  abbrev pub compare_op : F → F → Text → Bool
  compare_op f comp_val op =
      if text_eq op (bytes "gt")
      then p.less comp_val f
      else if text_eq op (bytes "ge")
      then p.less_or_equal comp_val f
      else if text_eq op (bytes "lt")
      then p.less f comp_val
      else if text_eq op (bytes "le")
      then p.less_or_equal f comp_val
      else if text_eq op (bytes "eq")
      then p.same f comp_val
      else if text_eq op (bytes "ne")
      then not (p.same f comp_val)
      else false

  -- parseCompareParams: an error is none; without an operator, some none.
  abbrev pub with_op : Text → Option F → Option (Option (Text × F))
  with_op op none = none
  with_op op (some v) = some (some (op, v))

  unfoldable pub parse_compare_params : List Text → Option (Option (Text × F))
  parse_compare_params (key ∷ op ∷ v ∷ more) =
      if is_op op then with_op op (p.parse_float v) else none
  parse_compare_params args = some none

  -- A number that is not one does not compare.
  abbrev pub compares : Text → F → Text → Bool
  compares op comp_val v = on_some (p.parse_float v) (λ f. compare_op f comp_val op)

  abbrev pub has_value : List Text → List Text → Bool
  has_value (key ∷ value ∷ more) values = any (λ v. text_eq v value) values
  has_value args values = true

  -- What header and query have in common: the map of the request, and the key in it.
  abbrev pub keyed_by :
      (Request → Option Values) → Text → List Text → Option (Option (Text × F)) → Built
  keyed_by map_of key args none = refused
  keyed_by map_of key args (some none) =
      always (λ req. on_some (values_of (map_of req) key) (has_value args))
  keyed_by map_of key args (some (some (op, comp_val))) =
      always (λ req. on_some (values_of (map_of req) key) (any (compares op comp_val)))

  unfoldable pub header : Func
  unfolding parse_compare_params
  header args =
      with_arg args 0
        (λ key. keyed_by (λ req. req.header) (p.canonical_key key) args (parse_compare_params args))

  unfoldable pub query : Func
  unfolding parse_compare_params
  query args =
      with_arg args 0 (λ key. keyed_by (λ req. req.query) key args (parse_compare_params args))

  unfoldable pub header_regexp : Func
  unfolding header
  header_regexp args =
      if length args == 1
      then header args
      else with_arg args 0 (λ key. with_arg args 1 (λ value.
        matcher_of (p.compile value)
          (λ re req. on_some (values_of req.header (p.canonical_key key)) (any re))))

  unfoldable pub query_regexp : Func
  unfolding query
  query_regexp args =
      if length args == 1
      then query args
      else with_arg args 0 (λ key. with_arg args 1 (λ value.
        matcher_of (p.compile value) (λ re req. on_some (values_of req.query key) (any re))))

  abbrev pub body_json_by : Text → List Text → Option (Option (Text × F)) → Built
  body_json_by path args none = refused
  body_json_by path args (some none) = with_arg args 1 (λ pattern.
      matcher_of (p.compile pattern)
        (λ re req. non_empty_body p req (λ body. re (p.get_json body path))))
  body_json_by path args (some (some (op, comp_val))) =
      always (λ req. non_empty_body p req (λ body. compares op comp_val (p.get_json body path)))

  unfoldable pub body_json : Func
  unfolding parse_compare_params
  body_json args = with_arg args 0 (λ path. body_json_by path args (parse_compare_params args))
