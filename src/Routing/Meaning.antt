-- ===== src/Routing/Meaning.antt =====
-- What a rule means.
use go_gost_x.Prelude.{◌≡◌, ◌∙◌, ap, ap₂, Bool, false, List, [], Option}
use go_gost_x.Text.{Text, text_eq}
use go_gost_x.Routing.{and_name, or_name, Expr, call, both, either, no, build, checked, add_rule}
use go_gost_x.Routing.Negation.{
  tested-leaf_plain, IsBuilt, named, conjoined, disjoined, invert-IsBuilt, meet, join, deny, tested,
  value-and, value-or, value-named, value-invert,
}

-- No matcher of the rule has an operator's name.
abbrev pub Named : Expr → Type 0
Named (call name v) = (text_eq name and_name ≡ false) × (text_eq name or_name ≡ false)
Named (both e f) = Named e × Named f
Named (either e f) = Named e × Named f
Named (no e) = Named e

build-IsBuilt : (e : Expr) → Named e → IsBuilt (build e)
unfolding build
build-IsBuilt (call name v) (a, o) = named a o
build-IsBuilt (both e f) (x, y) = conjoined (build-IsBuilt e x) (build-IsBuilt f y)
build-IsBuilt (either e f) (x, y) = disjoined (build-IsBuilt e x) (build-IsBuilt f y)
build-IsBuilt (no e) x = invert-IsBuilt (build e) (build-IsBuilt e x)

module _ {Req : Type 0} (funcs : Text → List Text → Option (Req → Bool)) where
  -- The rule read as a formula over its matchers; none where a matcher has an error.
  abbrev pub meaning : Expr → Option (Req → Bool)
  meaning (call name v) = checked funcs name v
  meaning (both e f) = meet (meaning e) (meaning f)
  meaning (either e f) = join (meaning e) (meaning f)
  meaning (no e) = deny (meaning e)

  -- A rule whose matchers have no operator's name becomes a tree that matches a request exactly
  -- when the rule, read as a formula over its matchers, holds of it, negations of whole formulas
  -- included; there is an error exactly when some matcher of the rule has one.
  pub add_rule-build : (e : Expr) → Named e → tested (add_rule funcs (build e)) ≡ meaning e
  unfolding build
  add_rule-build (call name v) (a, o) =
      value-named funcs name false v _ _ a o ∙ tested-leaf_plain (checked funcs name v)
  add_rule-build (both e f) (x, y) =
      value-and funcs false [] (build e) (build f)
      ∙ ap₂ meet (add_rule-build e x) (add_rule-build f y)
  add_rule-build (either e f) (x, y) =
      value-or funcs false [] (build e) (build f)
      ∙ ap₂ join (add_rule-build e x) (add_rule-build f y)
  add_rule-build (no e) x =
      value-invert funcs (build e) (build-IsBuilt e x) ∙ ap deny (add_rule-build e x)
