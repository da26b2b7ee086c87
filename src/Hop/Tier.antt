-- ===== src/Hop/Tier.antt =====
-- hop/hop.go: the tiers of equal priority, and the calls of the selector. A selector that is not nil
-- is a function of its own state and the candidates; it returns a candidate, or nil.
pub mod Layers
pub mod Best
use go_gost_x.Prelude.{
  Bool, true, false, not, ◌&&◌, List, [], ◌∷◌, Option, none, some, if◌then◌else◌, ltb_ℤ, eq_ℤ, all,
  any,
}
use go_gost_x.Hop.Node.{Node}

-- nodes[start:i], which is never empty: its first node and the others.
abbrev pub Tier : Type 0
Tier = Node × List Node

abbrev pub is_backup_node : Node → Bool
is_backup_node node = node.backup

-- isAllBackup, for a slice that is not empty.
abbrev pub is_all_backup : Tier → Bool
is_all_backup (n, ns) = all is_backup_node (n ∷ ns)

-- The order of sort.Slice.
abbrev pub before : Node → Node → Bool
before m n = ltb_ℤ n.priority m.priority

abbrev pub join : Node → List Tier → List Tier
join n [] = (n, []) ∷ []
join n ((m, ms) ∷ ts) =
    if eq_ℤ n.priority m.priority then (n, m ∷ ms) ∷ ts else (n, []) ∷ (m, ms) ∷ ts

-- Where the loop cuts the sorted nodes.
unfoldable pub tiers : List Node → List Tier
tiers [] = []
tiers (n ∷ ns) = join n (tiers ns)

abbrev pub Pick : Type 0 → Type 0
Pick S = S → List Node → Option Node × S

module _ {S : Type 0} where
  -- The selector's choice, or the first node where there is no selector.
  abbrev pub pick_from : Option (Pick S) → S → Tier → Option Node × S
  pick_from none st (n, ns) = (some n, st)
  pick_from (some pick) st (n, ns) = pick st (n ∷ ns)

  abbrev pub or_later : (S → Option Node × S) → Option Node × S → Option Node × S
  or_later later (none, st) = later st
  or_later later (some v, st) = (some v, st)

  abbrev pub try_tier : Option (Pick S) → Bool → Tier → (S → Option Node × S) → S → Option Node × S
  try_tier sel true t later st = later st
  try_tier sel false t later st = or_later later (pick_from sel st t)

  -- The loop over the tiers. `primary` is hasAnyPrimary.
  unfoldable pub try_tiers : Option (Pick S) → Bool → List Tier → S → Option Node × S
  try_tiers sel primary [] st = (none, st)
  try_tiers sel primary (t ∷ ts) st =
      try_tier sel (primary && is_all_backup t) t (try_tiers sel primary ts) st
