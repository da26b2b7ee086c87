-- ===== src/Matcher/CidrTrie/Coverage.antt =====
-- The trie against the covering relation of prefixes.
use go_gost_x.Prelude.{
  ℕ, zero, suc, ◌+◌, ◌≤◌, ◌<◌, min, ◌≡◌, refl, ◌↔◌, Bool, true, false, not, ◌&&◌, ◌||◌, List, [],
  ◌∷◌, arith, if◌then◌else◌, ◌==◌, ltb, any, any-Memᴰ, Memᴰ-any, Memᴰ, sym,
}
use go_gost_x.Matcher.Addr.{Addr, four}
use go_gost_x.Matcher.CidrTrie.{
  Prefix, Node, nil, node, new_cidr_trie, CidrTrie, new_cidr_trie, has_entry, bit_at, max_bits,
  root, set_root, mark, insert_path, insert, insert_all, child, walk, contains,
}

-- The bits from `i` to `i + n` of two addresses are the same.
pub agree : List ℕ → List ℕ → Bool → ℕ → ℕ → Bool
agree b c is4 i zero = true
agree b c is4 i (suc n) = bit_at b i is4 == bit_at c i is4 && agree b c is4 (i + 1) n

bit_at-lt : (b : List ℕ) (i : ℕ) (is4 : Bool) → bit_at b i is4 < 2
unfolding bit_at
bit_at-lt b i is4 = omega arith

abbrev reaches : List ℕ → Bool → ℕ → ℕ → Node → Bool
reaches b is4 i n t = has_entry t || walk b is4 i n t

walk-nil : (b : List ℕ) (is4 : Bool) (i n : ℕ) → walk b is4 i n nil ≡ false
unfolding walk
walk-nil b is4 i zero = refl
walk-nil b is4 i (suc n) = refl

walk-suc :
    (b : List ℕ) (is4 : Bool) (i n : ℕ) (t : Node)
    → walk b is4 i (suc n) t ≡ reaches b is4 (i + 1) n (child t (bit_at b i is4))
unfolding walk
walk-suc b is4 i n t = go (child t (bit_at b i is4))
  where
    go :
        (next : Node)
        → elim next as (λ _. Bool) [
          | nil ↦ false
          | node e l r ↦ if e then true else walk b is4 (i + 1) n next
        ]
          ≡ reaches b is4 (i + 1) n next
    go nil = ground (arith, walk-nil b is4 (i + 1) n)
    go (node e l r) = ground arith

mark-has_entry : (t : Node) → has_entry (mark t) ≡ true
unfolding mark
mark-has_entry nil = refl
mark-has_entry (node e l r) = refl

reaches-insert_path :
    (b c : List ℕ) (is4 : Bool) (i n m : ℕ) (t : Node)
    → n ≤ m
    → reaches c is4 i m (insert_path b is4 i n t) ≡ (agree b c is4 i n || reaches c is4 i m t)
unfolding insert_path agree
reaches-insert_path b c is4 i zero m t h = ground (arith, mark-has_entry t)
reaches-insert_path b c is4 i (suc n) zero t h = elim h [ ]
reaches-insert_path b c is4 i (suc n) (suc m) nil h = ground (
  arith,
  bit_at-lt b i is4,
  bit_at-lt c i is4,
  walk-suc c is4 i m nil,
  walk-nil c is4 (i + 1) m,
  walk-suc c is4 i m (insert_path b is4 i (suc n) nil),
  reaches-insert_path b c is4 (i + 1) n m nil,
)
reaches-insert_path b c is4 i (suc n) (suc m) (node e l r) h = ground (
  arith,
  bit_at-lt b i is4,
  bit_at-lt c i is4,
  walk-suc c is4 i m (node e l r),
  walk-suc c is4 i m (insert_path b is4 i (suc n) (node e l r)),
  reaches-insert_path b c is4 (i + 1) n m l,
  reaches-insert_path b c is4 (i + 1) n m r,
)

contains-reaches :
    (t : CidrTrie) (a : Addr)
    → contains t a ≡ reaches a.as_16 (four a.kind) 0 (max_bits (four a.kind)) (root t (four a.kind))
unfolding contains
contains-reaches t a = go (root t (four a.kind))
  where
    go :
        (n : Node)
        → elim n as (λ _. Bool) [
          | nil ↦ false
          | node e l r ↦
              if e then true else walk a.as_16 (four a.kind) 0 (max_bits (four a.kind)) (node e l r)
        ]
          ≡ reaches a.as_16 (four a.kind) 0 (max_bits (four a.kind)) n
    go nil = ground (arith, walk-nil a.as_16 (four a.kind) 0 (max_bits (four a.kind)))
    go (node e l r) = ground arith

-- A prefix covers an address of its family that has its first bits, all of them where the length
-- is more than the family's.
abbrev pub same_family : Addr → Addr → Bool
same_family a b = if four a.kind then four b.kind else not (four b.kind)

abbrev pub covers : Prefix → Addr → Bool
covers p a =
    same_family p.addr a
    && agree p.addr.as_16 a.as_16 (four a.kind) 0 (min p.bits (max_bits (four a.kind)))

-- Both branches of `insert` mark the end of the path of the prefix.
min_zero : (n : ℕ) → min 0 n ≡ 0
min_zero n = omega arith

clamp : (m n : ℕ) → (if ltb m n then m else n) ≡ min n m
clamp m n = ground arith

insert-set_root :
    (p : Prefix) (t : CidrTrie)
    → insert p t
      ≡ set_root t (four p.addr.kind) (
          insert_path p.addr.as_16
            (four p.addr.kind)
            0
            (min p.bits (max_bits (four p.addr.kind)))
            (root t (four p.addr.kind)))
unfolding insert
insert-set_root p t = go (four p.addr.kind) p.bits
  where
    go :
        (is4 : Bool) (n : ℕ)
        → (if n == 0
            then set_root t is4 (mark (root t is4))
            else (set_root t is4 (
                insert_path p.addr.as_16 is4 0
                  (if ltb (max_bits is4) n then max_bits is4 else n)
                  (root t is4))))
          ≡ set_root t is4 (insert_path p.addr.as_16 is4 0 (min n (max_bits is4)) (root t is4))
    go is4 zero = ground (arith, min_zero (max_bits is4))
    go true (suc n) = ground (arith, clamp 32 (suc n))
    go false (suc n) = ground (arith, clamp 128 (suc n))

contains-insert :
    (p : Prefix) (t : CidrTrie) (a : Addr) → contains (insert p t) a ≡ (covers p a || contains t a)
contains-insert p t a =
    rw (contains-reaches (insert p t) a, contains-reaches t a, insert-set_root p t)
      (go (four p.addr.kind) (four a.kind))
  where
    go :
        (k j : Bool)
        → reaches a.as_16 j 0 (max_bits j) (
            root
              (set_root t k (insert_path p.addr.as_16 k 0 (min p.bits (max_bits k)) (root t k)))
              j)
          ≡ ((if k then j else not j) && agree p.addr.as_16 a.as_16 j 0 (min p.bits (max_bits j))
              || reaches a.as_16 j 0 (max_bits j) (root t j))
    go true true =
        reaches-insert_path p.addr.as_16 a.as_16 true 0 (min p.bits 32) 32 t.root4 (omega arith)
    go true false = refl
    go false true = refl
    go false false =
        reaches-insert_path p.addr.as_16 a.as_16 false 0 (min p.bits 128) 128 t.root6 (omega arith)

pub contains-insert_all :
    (ps : List Prefix) (t : CidrTrie) (a : Addr)
    → contains (insert_all ps t) a ≡ (any (λ p. covers p a) ps || contains t a)
contains-insert_all [] t a = refl
contains-insert_all (p ∷ ps) t a =
    ground (arith, contains-insert_all ps (insert p t) a, contains-insert p t a)

pub contains-new : (a : Addr) → contains new_cidr_trie a ≡ false
unfolding contains new_cidr_trie
contains-new a = go (four a.kind)
  where
    go :
        (k : Bool)
        → elim (if k then nil else nil) as (λ _. Bool) [
          | nil ↦ false
          | node e l r ↦ if e then true else walk a.as_16 k 0 (max_bits k) (node e l r)
        ]
          ≡ false
    go true = refl
    go false = refl

-- The covering relation, bit by bit.
pub record Covers (p : Prefix) (a : Addr) : Type 0 where
  pub family : four p.addr.kind ≡ four a.kind
  pub first_bits :
      (i : ℕ)
      → i < min p.bits (max_bits (four a.kind))
      → bit_at p.addr.as_16 i (four a.kind) ≡ bit_at a.as_16 i (four a.kind)

agree-eq :
    (b c : List ℕ) (is4 : Bool) (i n k : ℕ)
    → agree b c is4 i n ≡ true
    → i ≤ k
    → k < i + n
    → bit_at b k is4 ≡ bit_at c k is4
unfolding agree
agree-eq b c is4 i zero k h le lt = absurd (omega arith)
agree-eq b c is4 i (suc n) k h le lt = ground (arith, agree-eq b c is4 (i + 1) n k)

eq-agree :
    (b c : List ℕ) (is4 : Bool) (i n : ℕ)
    → ((k : ℕ) → i ≤ k → k < i + n → bit_at b k is4 ≡ bit_at c k is4)
    → agree b c is4 i n ≡ true
unfolding agree
eq-agree b c is4 i zero h = refl
eq-agree b c is4 i (suc n) h =
    let rest = eq-agree b c is4 (i + 1) n (λ k le lt. h k (omega arith) (omega arith)) in
    ground (arith, h i (omega arith) (omega arith), rest)

same_family_iff : (a b : Addr) → (same_family a b ≡ true) ↔ (four a.kind ≡ four b.kind)
same_family_iff a b = go (four a.kind) (four b.kind)
  where
    go : (k j : Bool) → ((if k then j else not j) ≡ true) ↔ (k ≡ j)
    go true true = (λ h. refl, λ h. refl)
    go true false = (λ h. sym h, λ h. sym h)
    go false true = (λ h. h, λ h. h)
    go false false = (λ h. refl, λ h. refl)

and_parts : (a b : Bool) → (a && b) ≡ true → (a ≡ true) × (b ≡ true)
and_parts a b h = ground arith

covers-Covers : (p : Prefix) (a : Addr) → covers p a ≡ true → Covers p a
covers-Covers p a h =
    let (fam, bits) = and_parts _ _ h in
    record {
      family = (same_family_iff p.addr a).0 fam;
      first_bits = λ i lt. agree-eq _ _ _ 0 _ i bits (omega arith) (omega arith);
    }

Covers-covers : (p : Prefix) (a : Addr) → Covers p a → covers p a ≡ true
Covers-covers p a v =
    rw ((same_family_iff p.addr a).1 v.family)
      (eq-agree _ _ _ 0 _ (λ k le lt. v.first_bits k (omega arith)))

-- After any insertions into the empty trie, the trie contains an address exactly when one of the
-- inserted prefixes covers it: it is of the address's family, and has the same leading bits up to
-- its length, which counts for 32 or 128 where it is longer.
pub contains-insert_all-Covers :
    (ps : List Prefix) (a : Addr)
    → (contains (insert_all ps new_cidr_trie) a ≡ true) ↔ ((p : Prefix) × Memᴰ p ps × Covers p a)
contains-insert_all-Covers ps a = (there, back)
  where
    there : contains (insert_all ps new_cidr_trie) a ≡ true → (p : Prefix) × Memᴰ p ps × Covers p a
    there h =
        let (p, m, c) =
          any-Memᴰ (λ p. covers p a) ps
            (ground (arith, contains-insert_all ps new_cidr_trie a, contains-new a)) in
        (p, m, covers-Covers p a c)

    back : ((p : Prefix) × Memᴰ p ps × Covers p a) → contains (insert_all ps new_cidr_trie) a ≡ true
    back (p, m, v) = ground (
      arith,
      contains-insert_all ps new_cidr_trie a,
      Memᴰ-any (λ p. covers p a) m (Covers-covers p a v),
    )
