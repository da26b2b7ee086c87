-- ===== src/Hop/Select.antt =====
-- hop/hop.go: chainHop.Select. `sort_slice` is sort.Slice, with the order it is given.
pub mod Laws
pub mod Best
use go_gost_x.Prelude.{
  ℕ, ◌==◌, Bool, true, false, not, ◌&&◌, List, [], ◌∷◌, Option, none, some, if◌then◌else◌, ℤ, pos,
  ltb_ℤ, any, length,
}
use go_gost_x.Hop.Node.{Node, Contains, SelectOptions, bypassed_by}
use go_gost_x.Hop.Scan.{Pool, no_pool, scan}
use go_gost_x.Hop.Tier.{Pick, is_backup_node, pick_from, before, tiers, try_tiers}

-- chainHop: the nodes, and of the options those that Select reads.
pub record ChainHop (S : Type 0) : Type 0 where
  pub nodes : List (Option Node)
  pub bypass : Option Contains
  pub selector : Option (Pick S)

-- maxPriNode is not nil where maxPriority is above 0.
abbrev pub is_primary : Option Node → Bool
is_primary none = false
is_primary (some n) = not (is_backup_node n)

-- The priority short-circuit.
abbrev pub shortcut : Pool → Bool
shortcut p = ltb_ℤ (pos 0) p.max_priority && p.max_pri_count == 1 && is_primary p.max_pri_node

abbrev pub has_any_primary : Pool → Bool
has_any_primary p = p.has_backup && any (λ n. not (is_backup_node n)) p.nodes

module _ (sort_slice : (Node → Node → Bool) → List Node → List Node) {S : Type 0} where
  unfoldable pub choose : Option (Pick S) → Pool → List Node → S → Option Node × S
  unfolding tiers try_tiers
  choose sel p [] st = (none, st)
  choose sel p (n ∷ []) st = (some n, st)
  choose sel p (n ∷ m ∷ ns) st =
      if shortcut p
      then (p.max_pri_node, st)
      else if p.max_pri_count == length p.nodes
      then pick_from sel st (n, m ∷ ns)
      else try_tiers sel (has_any_primary p) (tiers (sort_slice before p.nodes)) st

  unfoldable pub select : ChainHop S → SelectOptions → S → Option Node × S
  unfolding scan choose
  select h o st =
      if bypassed_by h.bypass o
      then (none, st)
      else let p = scan o no_pool h.nodes in choose h.selector p p.nodes st
