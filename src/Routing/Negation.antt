-- ===== src/Routing/Negation.antt =====
-- The inversion of a rule is its negation.
use go_gost_x.Prelude.{
  ◌≡◌, refl, ◌∙◌, ap, ap₂, sym, Bool, true, false, not, ◌&&◌, ◌||◌, List, Option, none, some, arith,
}
use mathlib.Core.Path.{fun_ext}
use go_gost_x.Text.{Text, text_eq}
use go_gost_x.Routing.{
  and_name, or_name, Tree, nil, tree, invert, MatchersTree, branch, match_tree, pair_up, leaf_of,
  checked, add_rule,
}

-- The trees of rules, whose leaves have no operator's name.
pub data IsBuilt : Tree → Type 0 where
  named :
      {m : Text} {n : Bool} {v : List Text}
      → text_eq m and_name ≡ false
      → text_eq m or_name ≡ false
      → IsBuilt (tree m n v nil nil)
  conjoined :
      {n : Bool} {v : List Text} {l r : Tree}
      → IsBuilt l
      → IsBuilt r
      → IsBuilt (tree and_name n v l r)
  disjoined :
      {n : Bool} {v : List Text} {l r : Tree}
      → IsBuilt l
      → IsBuilt r
      → IsBuilt (tree or_name n v l r)

pub invert-IsBuilt : (t : Tree) → IsBuilt t → IsBuilt (invert t)
unfolding invert
invert-IsBuilt t (named a o) = rw o (rw a (named a o))
invert-IsBuilt t (conjoined l r) = disjoined (invert-IsBuilt _ l) (invert-IsBuilt _ r)
invert-IsBuilt t (disjoined l r) = conjoined (invert-IsBuilt _ l) (invert-IsBuilt _ r)

module _ {Req : Type 0} where
  abbrev pub meet : Option (Req → Bool) → Option (Req → Bool) → Option (Req → Bool)
  meet p q = pair_up (λ f g req. f req && g req) p q

  abbrev pub join : Option (Req → Bool) → Option (Req → Bool) → Option (Req → Bool)
  join p q = pair_up (λ f g req. f req || g req) p q

  abbrev pub deny : Option (Req → Bool) → Option (Req → Bool)
  deny none = none
  deny (some f) = some (λ req. not (f req))

  abbrev pub tested : Option (MatchersTree Req) → Option (Req → Bool)
  tested none = none
  tested (some t) = some (match_tree t)

  join-deny : (p q : Option (Req → Bool)) → join (deny p) (deny q) ≡ deny (meet p q)
  join-deny none q = refl
  join-deny (some f) none = refl
  join-deny (some f) (some g) = ap some (fun_ext (λ req. go (f req) (g req)))
    where
      go : (a b : Bool) → (not a || not b) ≡ not (a && b)
      go a b = ground arith

  meet-deny : (p q : Option (Req → Bool)) → meet (deny p) (deny q) ≡ deny (join p q)
  meet-deny none q = refl
  meet-deny (some f) none = refl
  meet-deny (some f) (some g) = ap some (fun_ext (λ req. go (f req) (g req)))
    where
      go : (a b : Bool) → (not a && not b) ≡ not (a || b)
      go a b = ground arith

  tested-leaf_of :
      (n : Bool) (c : Option (Req → Bool))
      → tested (leaf_of (not n) c) ≡ deny (tested (leaf_of n c))
  unfolding match_tree
  tested-leaf_of n none = refl
  tested-leaf_of true (some f) = ap some (fun_ext (λ req. go (f req)))
    where
      go : (a : Bool) → a ≡ not (not a)
      go a = ground arith
  tested-leaf_of false (some f) = refl

  pub tested-leaf_plain : (c : Option (Req → Bool)) → tested (leaf_of false c) ≡ c
  unfolding match_tree
  tested-leaf_plain none = refl
  tested-leaf_plain (some f) = refl

module _ {Req : Type 0} (funcs : Text → List Text → Option (Req → Bool)) where
  -- The test that a tree of rules becomes, where addRule reports no error.
  abbrev pub value : Tree → Option (Req → Bool)
  value t = tested (add_rule funcs t)

  pub value-and :
      (n : Bool) (v : List Text) (l r : Tree)
      → value (tree and_name n v l r) ≡ meet (value l) (value r)
  unfolding add_rule match_tree
  value-and n v l r = go (add_rule funcs l) (add_rule funcs r)
    where
      go :
          (a b : Option (MatchersTree Req))
          → tested (pair_up (branch and_name) a b) ≡ meet (tested a) (tested b)
      go none b = refl
      go (some a) none = refl
      go (some a) (some b) = refl

  pub value-or :
      (n : Bool) (v : List Text) (l r : Tree)
      → value (tree or_name n v l r) ≡ join (value l) (value r)
  unfolding add_rule match_tree
  value-or n v l r = go (add_rule funcs l) (add_rule funcs r)
    where
      go :
          (a b : Option (MatchersTree Req))
          → tested (pair_up (branch or_name) a b) ≡ join (tested a) (tested b)
      go none b = refl
      go (some a) none = refl
      go (some a) (some b) = refl

  pub value-named :
      (m : Text) (n : Bool) (v : List Text) (l r : Tree)
      → text_eq m and_name ≡ false
      → text_eq m or_name ≡ false
      → value (tree m n v l r) ≡ tested (leaf_of n (checked funcs m v))
  unfolding add_rule
  value-named m n v l r a o = rw a (rw o refl)

  pub value-invert : (t : Tree) → IsBuilt t → value (invert t) ≡ deny (value t)
  unfolding invert
  value-invert nil x = elim x [ ]
  value-invert (tree m n v l r) (named a o) = rw o (
      rw a (
        value-named m (not n) v nil nil a o
        ∙ (tested-leaf_of n (checked funcs m v) ∙ ap deny (sym (value-named m n v nil nil a o)))))
  value-invert (tree m n v l r) (conjoined x y) =
      value-or n v (invert l) (invert r)
      ∙ (ap₂ join (value-invert l x) (value-invert r y)
          ∙ (join-deny (value l) (value r) ∙ ap deny (sym (value-and n v l r))))
  value-invert (tree m n v l r) (disjoined x y) =
      value-and n v (invert l) (invert r)
      ∙ (ap₂ meet (value-invert l x) (value-invert r y)
          ∙ (meet-deny (value l) (value r) ∙ ap deny (sym (value-or n v l r))))
