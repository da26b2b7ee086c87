-- ===== src/FakeIp/Creation.antt =====
-- What Create does on every path.
use go_gost_x.Prelude.{
  ℕ, ◌+◌, ◌≤◌, ◌<◌, ◌≡◌, refl, ◌∙◌, ap, sym, subst, inl, inr, Bool, true, false, not, ◌&&◌, [], ◌∷◌,
  Option, none, some, Bool-cases, if◌then◌else◌, arith, ltb, leb,
}
use go_gost_x.Text.{Text, lookup, is_empty}
use go_gost_x.FakeIp.Addr.{Ip, Prefix, ip_eq, ip_eq_iff, next, base, has, contains, owner}
use go_gost_x.FakeIp.Search.{Found, found, none_left, spinning, search}
use go_gost_x.FakeIp.Search.Around.{Settled, search-Settled, has-interval, end}
use go_gost_x.FakeIp.{
  Allocator, exhausted, missing_range, empty_domain, Created, created, refused, hangs, by_domain,
  range_of, cursor, record_ip, start_of, used, taken, settle, allocate, create_new, create_named,
}
use go_gost_x.FakeIp.Invariant.{
  by_domain-record_ip_self, IsSound, IsFresh, record_ip-IsSound, owner-record_ip,
  owner-record_ip_self,
}

-- Every address of the range after the range's own has an owner.
abbrev pub IsFull : Allocator → Prefix → Type 0
IsFull s r = (x : ℕ) → r.value < x → has r x ≡ true → used s r x ≡ true

-- The outcomes of Create for a name.
abbrev pub Outcome : Allocator → Text → Bool → Created → Type 0
Outcome s d is6 (created s' a) =
    IsSound s'
    × (a.v4 ≡ not is6)
    × (lookup d (by_domain s' is6) ≡ some a)
    × (owner a s'.by_addr ≡ some d)
    × ((b : Ip) (e : Text) → owner b s.by_addr ≡ some e → owner b s'.by_addr ≡ some e)
Outcome s d is6 (refused empty_domain) = d ≡ []
Outcome s d is6 (refused missing_range) = range_of s is6 ≡ none
Outcome s d is6 (refused exhausted) =
    (lookup d (by_domain s is6) ≡ none) × ((r : Prefix) → range_of s is6 ≡ some r → IsFull s r)
Outcome s d is6 hangs = ⊥

-- A range whose second address is not in it has no other after its own.
IsFull-of_first : (s : Allocator) (r : Prefix) → has r (r.value + 1) ≡ false → IsFull s r
unfolding base
IsFull-of_first s r h x lt hx =
    let a : (leb (base r) (r.value + 1) && ltb (r.value + 1) (end r)) ≡ false =
      sym (has-interval r (r.value + 1)) ∙ h in
    let b : (leb (base r) x && ltb x (end r)) ≡ true = sym (has-interval r x) ∙ hx in ground arith

contains-next : (r : Prefix) (c : Ip) → contains r (next c) ≡ true → has r (c.value + 1) ≡ true
unfolding contains next
contains-next r c h = ground arith

not_used :
    (s : Allocator) (r : Prefix) (x : ℕ)
    → used s r x ≡ false
    → owner (record { v4 = r.v4; value = x }) s.by_addr ≡ none
not_used s r x h = go (owner (record { v4 = r.v4; value = x }) s.by_addr) h
  where
    go :
        (o : Option Text)
        → elim o as (λ _. Bool) [ none ↦ false | some d ↦ true ] ≡ false
        → o ≡ none
    go none e = refl
    go (some d) e = cc

taken_used :
    (s : Allocator) (r : Prefix) (x : ℕ) → taken s r x ≡ true → r.value < x → used s r x ≡ true
taken_used s r x t lt = ground arith

used_of_taken : (s : Allocator) (r : Prefix) (x : ℕ) → taken s r x ≡ false → used s r x ≡ false
used_of_taken s r x t = ground arith

module _ (s : Allocator) (v : IsSound s) (d : Text) (is6 : Bool) (r : Prefix) where
  start-in :
      range_of s is6 ≡ some r
      → has r (r.value + 1) ≡ true
      → (has r (start_of r (cursor s is6) (r.value + 1)) ≡ true)
        × (r.value + 1 ≤ start_of r (cursor s is6) (r.value + 1))
  unfolding contains next
  start-in g h = go (cursor s is6) refl
    where
      go :
          (c : Option Ip)
          → cursor s is6 ≡ c
          → (has r (start_of r c (r.value + 1)) ≡ true) × (r.value + 1 ≤ start_of r c (r.value + 1))
      go none e = (h, omega arith)
      go (some cur) e = elim (Bool-cases (contains r (next cur))) [
        | inl q ↦
            (let (fam, e', o) = v.aimed is6 cur e in
              let k : is6 ≡ not cur.v4 = ground arith in
              let above = (v.placed cur e' r o (ap (range_of s) (sym k) ∙ g)).1 in
              rw q (contains-next r cur q, omega arith))
        | inr q ↦ rw q (h, omega arith)
      ]

  settle-Outcome :
      (f : Found)
      → range_of s is6 ≡ some r
      → lookup d (by_domain s is6) ≡ none
      → Settled (taken s r) r (r.value + 1) f (λ x. (r.value + 1 ≤ x) × (has r x ≡ true))
      → Outcome s d is6 (settle s d is6 r f)
  settle-Outcome (found x) g l (t, h, le) =
      let a : Ip = record { v4 = r.v4; value = x } in
      let above : r.value < x = omega arith in
      let free : owner a s.by_addr ≡ none = not_used s r x (used_of_taken s r x t) in
      let fresh : IsFresh s d is6 a = record {
        free = free;
        absent = l;
        of_family = v.family is6 r g;
        inside = λ r' g'.
            subst (λ (q : Prefix). (has q x ≡ true) × (q.value < x)) (same_range r' g') (h, above);
      } in
      (
        record_ip-IsSound s d is6 a v fresh,
        v.family is6 r g,
        by_domain-record_ip_self s d is6 a,
        owner-record_ip_self s d is6 a,
        λ b e o. keeps a b e free o,
      )
    where
      other :
          (a b : Ip) (e : Text)
          → owner a s.by_addr ≡ none
          → owner b s.by_addr ≡ some e
          → ip_eq a b ≡ false
      other a b e free o = elim (Bool-cases (ip_eq a b)) [
        | inl q ↦ cc (ap (λ c. owner c s.by_addr) ((ip_eq_iff a b).0 q))
        | inr q ↦ q
      ]

      same_range : (r' : Prefix) → range_of s is6 ≡ some r' → r ≡ r'
      same_range r' g' = cc (sym g ∙ g')

      keeps :
          (a b : Ip) (e : Text)
          → owner a s.by_addr ≡ none
          → owner b s.by_addr ≡ some e
          → owner b (record_ip s d is6 a).by_addr ≡ some e
      keeps a b e free o =
          owner-record_ip s d is6 a b
          ∙ (ap (λ t. if t then some d else owner b s.by_addr) (other a b e free o) ∙ o)
  settle-Outcome none_left g l t = (
    l,
    λ r' g'.
        subst (IsFull s) (cc (sym g ∙ g')) (λ x lt hx. taken_used s r x (t x (omega arith, hx)) lt),
  )
  settle-Outcome spinning g l t = t

  allocate-Outcome :
      lookup d (by_domain s is6) ≡ none
      → range_of s is6 ≡ some r
      → Outcome s d is6 (allocate s d is6 (some r))
  allocate-Outcome l g = elim (Bool-cases (has r (r.value + 1))) [
    | inl h ↦
        (let (hs, le) = start-in g h in
          rw h (
            settle-Outcome
              (search (taken s r) r (r.value + 1) (start_of r (cursor s is6) (r.value + 1))) g l
              (search-Settled (taken s r) r (r.value + 1) (start_of r (cursor s is6) (r.value + 1))
                h hs le)))
    | inr h ↦ rw h (l, λ r' g'. subst (IsFull s) (cc (sym g ∙ g')) (IsFull-of_first s r h))
  ]

-- Where an allocator is sound, Create ends, and leaves it sound. It returns an address of the asked
-- family which then belongs to the name, both ways, and keeps the owner of every address; or it
-- refuses the empty name, a family with no range, or, for a name that has no address yet, a range of
-- which every address after its own has an owner. An allocator is sound where its two maps are
-- inverses, each address that has an owner is in the range of its family and above the range's own
-- address, each cursor is an address of its family that has an owner, and each range is of its
-- family.
pub create_named-Outcome :
    (s : Allocator) (d : Text) (is6 : Bool) → IsSound s → Outcome s d is6 (create_named s d is6)
unfolding create_named
create_named-Outcome s d is6 v = go d refl
  where
    ranged :
        (o : Option Prefix)
        → range_of s is6 ≡ o
        → lookup d (by_domain s is6) ≡ none
        → Outcome s d is6 (allocate s d is6 o)
    ranged none g l = g
    ranged (some r) g l = allocate-Outcome s v d is6 r l g

    named :
        (o : Option Ip) → lookup d (by_domain s is6) ≡ o → Outcome s d is6 (create_new s d is6 o)
    named none l = ranged (range_of s is6) refl l
    named (some a) l = (v, (v.named is6 d a l).1, l, (v.named is6 d a l).0, λ b e o. o)

    go :
        (t : Text)
        → d ≡ t
        → Outcome s d is6 (
            if is_empty t
            then refused empty_domain
            else create_new s d is6 (lookup d (by_domain s is6)))
    go [] e = e
    go (c ∷ cs) e = named (lookup d (by_domain s is6)) refl
