-- ===== src/Hop/Scan.antt =====
-- hop/hop.go: the loop of Select over the nodes, which builds the pool of candidates.
pub mod Ranking
use go_gost_x.Prelude.{
  ℕ, suc, Bool, true, false, not, ◌&&◌, ◌||◌, List, [], ◌∷◌, ◌++◌, Option, none, some,
  if◌then◌else◌, ℤ, pos, ltb_ℤ, eq_ℤ, foldl,
}
use go_gost_x.Hop.Node.{Node, SelectOptions}
use go_gost_x.Hop.Gate.{admitted}

-- The variables of the loop.
pub record Pool : Type 0 where
  pub nodes : List Node
  pub max_priority : ℤ
  pub max_pri_count : ℕ
  pub max_pri_node : Option Node
  pub has_backup : Bool

abbrev pub no_pool : Pool
no_pool = record {
  nodes = [];
  max_priority = pos 0;
  max_pri_count = 0;
  max_pri_node = none;
  has_backup = false;
}

-- A candidate is taken up. `higher` and `equal` compare its priority with the highest so far.
abbrev pub ranked : Bool → Bool → Pool → Node → Pool
ranked true equal p node = record {
  nodes = p.nodes ++ (node ∷ []);
  max_priority = node.priority;
  max_pri_count = 1;
  max_pri_node = some node;
  has_backup = p.has_backup || node.backup;
}
ranked false true p node = record {
  nodes = p.nodes ++ (node ∷ []);
  max_priority = p.max_priority;
  max_pri_count = suc p.max_pri_count;
  max_pri_node = p.max_pri_node;
  has_backup = p.has_backup || node.backup;
}
ranked false false p node = record {
  nodes = p.nodes ++ (node ∷ []);
  max_priority = p.max_priority;
  max_pri_count = p.max_pri_count;
  max_pri_node = p.max_pri_node;
  has_backup = p.has_backup || node.backup;
}

unfoldable pub rank : Pool → Node → Pool
rank p node = ranked (ltb_ℤ p.max_priority node.priority) (eq_ℤ node.priority p.max_priority) p node

-- One round; the slice may hold a nil node.
unfoldable pub visit : SelectOptions → Pool → Option Node → Pool
unfolding rank
visit o p none = p
visit o p (some node) = if admitted o node then rank p node else p

unfoldable pub scan : SelectOptions → Pool → List (Option Node) → Pool
unfolding visit
scan o p [] = p
scan o p (n ∷ ns) = scan o (visit o p n) ns
