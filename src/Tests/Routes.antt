-- ===== src/Tests/Routes.antt =====
-- A rule over one matcher, which compares the request with its value.
use go_gost_x.Prelude.{◌≡◌, refl, Bool, List, [], ◌∷◌, Option, none, some}
use go_gost_x.Text.{Text, text_eq}
use go_gost_x.Routing.{Expr, call, both, no, build, add_rule}
use go_gost_x.Routing.Negation.{tested}
use go_gost_x.Routing.Meaning.{Named, meaning, add_rule-build}

abbrev is_one : Text → List Text → Option (Text → Bool)
is_one name [] = none
is_one name (v ∷ vs) = some (λ req. text_eq req v)

-- !(M(`a`) && !M(`b`))
abbrev rule : Expr
rule = no (both (call (77 ∷ []) ((97 ∷ []) ∷ [])) (no (call (77 ∷ []) ((98 ∷ []) ∷ []))))

rule-Named : Named rule
rule-Named = ((refl, refl), (refl, refl))

add_rule-build_example : tested (add_rule is_one (build rule)) ≡ meaning is_one rule
add_rule-build_example = add_rule-build is_one rule rule-Named
