-- ===== src/Routing.antt =====
-- routing/rules/parser.go and the tree of routing/matcher.go: routing rules. The predicate parser of
-- vulcand/predicate calls the functions of the rules as the rule's text says; these calls are an
-- expression here. `funcs` is httpFuncs: the function for a name, none where it reports an error.
pub mod Request
pub mod Funcs
pub mod Negation
pub mod Meaning
use go_gost_x.Prelude.{
  Bool, true, false, not, ◌&&◌, ◌||◌, List, [], ◌∷◌, Option, none, some, if◌then◌else◌, any,
}
use go_gost_x.Text.{Text, text_eq, is_empty}

abbrev pub and_name : Text
and_name = 97 ∷ 110 ∷ 100 ∷ []

abbrev pub or_name : Text
or_name = 111 ∷ 114 ∷ []

-- *Tree; the values of a node stand in the order of the fields.
pub data Tree : Type 0 where
  nil : Tree
  tree : Text → Bool → List Text → Tree → Tree → Tree

-- The calls for a rule; a matcher's function stands under its name and its other spellings.
pub data Expr : Type 0 where
  call : Text → List Text → Expr
  both either : Expr → Expr → Expr
  no : Expr → Expr

-- A nil child, which no rule has, would be a panic.
unfoldable pub invert : Tree → Tree
invert nil = nil
invert (tree matcher n value l r) =
    let l' = invert l in
    let r' = invert r in
    if text_eq matcher or_name
    then tree and_name n value l' r'
    else if text_eq matcher and_name
    then tree or_name n value l' r'
    else tree matcher (not n) value l r

-- andFunc, orFunc, notFunc, and the function of each matcher.
unfoldable pub build : Expr → Tree
unfolding invert
build (call name value) = tree name false value nil nil
build (both e f) = tree and_name false [] (build e) (build f)
build (either e f) = tree or_name false [] (build e) (build f)
build (no e) = invert (build e)

-- CheckRule returns nil.
abbrev pub check_rule : List Text → Bool
check_rule [] = false
check_rule (v ∷ vs) = not (any is_empty (v ∷ vs))

-- *matchersTree: a leaf has a matcher; `blank` has neither that nor an operator.
pub data MatchersTree (Req : Type 0) : Type 0 where
  blank : MatchersTree Req
  leaf : (Req → Bool) → MatchersTree Req
  branch : Text → MatchersTree Req → MatchersTree Req → MatchersTree Req

abbrev pub pair_up : {A B C : Type 0} → (A → B → C) → Option A → Option B → Option C
pair_up f none o = none
pair_up f (some a) none = none
pair_up f (some a) (some b) = some (f a b)

module _ {Req : Type 0} where
  unfoldable pub match_tree : MatchersTree Req → Req → Bool
  match_tree blank req = false
  match_tree (leaf f) req = f req
  match_tree (branch op l r) req =
      let x = match_tree l req in
      let y = match_tree r req in
      if text_eq op or_name then x || y else if text_eq op and_name then x && y else false

  abbrev pub negate : Bool → (Req → Bool) → Req → Bool
  negate n f req = if n then not (f req) else f req

  abbrev pub leaf_of : Bool → Option (Req → Bool) → Option (MatchersTree Req)
  leaf_of n none = none
  leaf_of n (some f) = some (leaf (negate n f))

module _ {Req : Type 0} (funcs : Text → List Text → Option (Req → Bool)) where
  -- The default case: the check, and the function of the name.
  abbrev pub checked : Text → List Text → Option (Req → Bool)
  checked name value = if check_rule value then funcs name value else none

  unfoldable pub add_rule : Tree → Option (MatchersTree Req)
  add_rule nil = none
  add_rule (tree matcher n value l r) =
      let left = add_rule l in
      let right = add_rule r in
      if text_eq matcher and_name || text_eq matcher or_name
      then pair_up (branch matcher) left right
      else leaf_of n (checked matcher value)
