-- ===== src/Matcher/CidrTrie.antt =====
-- internal/matcher/cidr_trie.go: the binary trie of address prefixes.
pub mod Coverage
use go_gost_x.Prelude.{
  ℕ, zero, suc, ◌+◌, ◌-◌, ◌/◌, ◌%◌, ◌^◌, Bool, true, false, ◌||◌, List, [], ◌∷◌, Option, none, some,
  min, if◌then◌else◌, ltb, get_or, ◌==◌,
}
use go_gost_x.Matcher.Addr.{Addr, four}

pub record Prefix : Type 0 where
  pub addr : Addr
  pub bits : ℕ

-- `nil` is the nil pointer, `node` a cidrNode with its hasEntry flag and its two children.
pub data Node : Type 0 where
  nil : Node
  node : Bool → Node → Node → Node

pub record CidrTrie : Type 0 where
  pub root4 : Node
  pub root6 : Node

unfoldable pub new_cidr_trie : CidrTrie
new_cidr_trie = record { root4 = nil; root6 = nil }

abbrev pub has_entry : Node → Bool
has_entry nil = false
has_entry (node e l r) = e

-- The i-th bit, most significant first; the four bytes of an IPv4 address start at byte 12.
unfoldable pub bit_at : List ℕ → ℕ → Bool → ℕ
bit_at b i is4 = get_or b ((if is4 then 12 else 0) + i / 8) 0 / 2 ^ (7 - i % 8) % 2

abbrev pub max_bits : Bool → ℕ
max_bits is4 = if is4 then 32 else 128

-- t.root, t.setRoot
abbrev pub root : CidrTrie → Bool → Node
root t is4 = if is4 then t.root4 else t.root6

abbrev pub set_root : CidrTrie → Bool → Node → CidrTrie
set_root t is4 n = if is4 then record t { root4 = n } else record t { root6 = n }

-- `root.hasEntry = true`, on a node created where there is none.
mark : Node → Node
mark nil = node true nil nil
mark (node e l r) = node true l r

-- The loop of `insert`, on the `n` bits from bit `i`; a missing child is created.
insert_path : List ℕ → Bool → ℕ → ℕ → Node → Node
insert_path b is4 i zero t = mark t
insert_path b is4 i (suc n) nil =
    let rest = insert_path b is4 (i + 1) n nil in
    if bit_at b i is4 == 0 then node false rest nil else node false nil rest
insert_path b is4 i (suc n) (node e l r) =
    let left = insert_path b is4 (i + 1) n l in
    let right = insert_path b is4 (i + 1) n r in
    if bit_at b i is4 == 0 then node e left r else node e l right

unfoldable pub insert : Prefix → CidrTrie → CidrTrie
unfolding mark insert_path bit_at
insert p t =
    let is4 = four p.addr.kind in
    if p.bits == 0
    then set_root t is4 (mark (root t is4))
    else (set_root t is4 (
        insert_path p.addr.as_16 is4 0 (if ltb (max_bits is4) p.bits then max_bits is4 else p.bits)
          (root t is4)))

-- node.children[bit]
abbrev pub child : Node → ℕ → Node
child nil bit = nil
child (node e l r) bit = if bit == 0 then l else r

-- The loop of `contains`, with `n` rounds left from bit `i`.
walk : List ℕ → Bool → ℕ → ℕ → Node → Bool
walk b is4 i zero t = false
walk b is4 i (suc n) t =
    let next = child t (bit_at b i is4) in
    let rest = walk b is4 (i + 1) n next in
    elim next [ nil ↦ false | node e l r ↦ if e then true else rest ]

unfoldable pub contains : CidrTrie → Addr → Bool
unfolding walk bit_at
contains t a =
    let is4 = four a.kind in
    elim (root t is4) [
      | nil ↦ false
      | node e l r ↦ if e then true else walk a.as_16 is4 0 (max_bits is4) (node e l r)
    ]

-- The trie of a list of prefixes, inserted in order.
abbrev pub insert_all : List Prefix → CidrTrie → CidrTrie
insert_all [] t = t
insert_all (p ∷ ps) t = insert_all ps (insert p t)
