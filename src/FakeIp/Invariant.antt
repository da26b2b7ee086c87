-- ===== src/FakeIp/Invariant.antt =====
-- What holds of an allocator: the two maps are inverses, and the addresses are in the ranges.
use go_gost_x.Prelude.{
  ◌<◌, ◌≡◌, refl, ◌∙◌, ap, ap₂, sym, subst, inl, inr, Bool, true, false, not, ◌&&◌, Option, none,
  some, Bool-cases, if◌then◌else◌, arith,
}
use go_gost_x.Text.{Text, text_eq, text_eq_iff, lookup, lookup-insert}
use go_gost_x.FakeIp.Addr.{Ip, Prefix, ip_eq, ip_eq_iff, has, same, owner, owner-insert_owner}
use go_gost_x.FakeIp.{Allocator, by_domain, range_of, cursor, record_ip}

-- A family's range is of the family.
pub record IsSound (s : Allocator) : Type 0 where
  pub named :
      (is6 : Bool) (d : Text) (a : Ip)
      → lookup d (by_domain s is6) ≡ some a
      → (owner a s.by_addr ≡ some d) × (a.v4 ≡ not is6)
  pub known :
      (a : Ip) (d : Text) → owner a s.by_addr ≡ some d → lookup d (by_domain s (not a.v4)) ≡ some a
  pub placed :
      (a : Ip) (d : Text) (r : Prefix)
      → owner a s.by_addr ≡ some d
      → range_of s (not a.v4) ≡ some r
      → (has r a.value ≡ true) × (r.value < a.value)
  pub aimed :
      (is6 : Bool) (c : Ip)
      → cursor s is6 ≡ some c
      → (c.v4 ≡ not is6) × (d : Text) × (owner c s.by_addr ≡ some d)
  pub family : (is6 : Bool) (r : Prefix) → range_of s is6 ≡ some r → r.v4 ≡ not is6

-- The new address is free, and its name has none in the family.
pub record IsFresh (s : Allocator) (d : Text) (is6 : Bool) (a : Ip) : Type 0 where
  pub free : owner a s.by_addr ≡ none
  pub absent : lookup d (by_domain s is6) ≡ none
  pub of_family : a.v4 ≡ not is6
  pub inside : (r : Prefix) → range_of s is6 ≡ some r → (has r a.value ≡ true) × (r.value < a.value)

pub owner-record_ip :
    (s : Allocator) (d : Text) (is6 : Bool) (a b : Ip)
    → owner b (record_ip s d is6 a).by_addr ≡ (if ip_eq a b then some d else owner b s.by_addr)
owner-record_ip s d true a b = owner-insert_owner a b d s.by_addr
owner-record_ip s d false a b = owner-insert_owner a b d s.by_addr

pub owner-record_ip_self :
    (s : Allocator) (d : Text) (is6 : Bool) (a : Ip)
    → owner a (record_ip s d is6 a).by_addr ≡ some d
owner-record_ip_self s d is6 a =
    owner-record_ip s d is6 a a
    ∙ ap (λ t. if t then some d else owner a s.by_addr) ((ip_eq_iff a a).1 refl)

pub by_domain-record_ip :
    (s : Allocator) (d e : Text) (is6 k : Bool) (a : Ip)
    → lookup e (by_domain (record_ip s d is6 a) k)
      ≡ (if same is6 k && text_eq d e then some a else lookup e (by_domain s k))
by_domain-record_ip s d e true true a = lookup-insert d e a s.by_domain6
by_domain-record_ip s d e true false a = refl
by_domain-record_ip s d e false true a = refl
by_domain-record_ip s d e false false a = lookup-insert d e a s.by_domain4

pub by_domain-record_ip_self :
    (s : Allocator) (d : Text) (is6 : Bool) (a : Ip)
    → lookup d (by_domain (record_ip s d is6 a) is6) ≡ some a
by_domain-record_ip_self s d is6 a =
    by_domain-record_ip s d d is6 is6 a
    ∙ ap (λ t. if t then some a else lookup d (by_domain s is6))
        (both is6 (text_eq d d) ((text_eq_iff d d).1 refl))
  where
    both : (k b : Bool) → b ≡ true → (same k k && b) ≡ true
    both k b e = ground arith

range_of-record_ip :
    (s : Allocator) (d : Text) (is6 k : Bool) (a : Ip)
    → range_of (record_ip s d is6 a) k ≡ range_of s k
range_of-record_ip s d true k a = refl
range_of-record_ip s d false k a = refl

cursor-record_ip :
    (s : Allocator) (d : Text) (is6 k : Bool) (a : Ip)
    → cursor (record_ip s d is6 a) k ≡ (if same is6 k then some a else cursor s k)
cursor-record_ip s d true true a = refl
cursor-record_ip s d true false a = refl
cursor-record_ip s d false true a = refl
cursor-record_ip s d false false a = refl

-- Each field, over what the maps hold at one key before and after.
named_after :
    (a b : Ip) (d e : Text) (is6 k : Bool) (o o' : Option Text) (l l' : Option Ip)
    → o' ≡ (if ip_eq a b then some d else o)
    → l' ≡ (if same is6 k && text_eq d e then some a else l)
    → (l ≡ some b → (o ≡ some e) × (b.v4 ≡ not k))
    → (a ≡ b → o ≡ none)
    → a.v4 ≡ not is6
    → l' ≡ some b
    → (o' ≡ some e) × (b.v4 ≡ not k)
named_after a b d e is6 k o o' l l' ho hl v free fam h =
    ground (arith, text_eq_iff d e, ip_eq_iff a b)

known_after :
    (a b : Ip) (d e : Text) (is6 : Bool) (o o' : Option Text) (l l' : Option Ip)
    → o' ≡ (if ip_eq a b then some d else o)
    → l' ≡ (if same is6 (not b.v4) && text_eq d e then some a else l)
    → (o ≡ some e → l ≡ some b)
    → (is6 ≡ not b.v4 → d ≡ e → l ≡ none)
    → a.v4 ≡ not is6
    → o' ≡ some e
    → l' ≡ some b
known_after a b d e is6 o o' l l' ho hl v absent fam h =
    ground (arith, text_eq_iff d e, ip_eq_iff a b)

pub record_ip-IsSound :
    (s : Allocator) (d : Text) (is6 : Bool) (a : Ip)
    → IsSound s
    → IsFresh s d is6 a
    → IsSound (record_ip s d is6 a)
record_ip-IsSound s d is6 a v f = record {
  named = λ k e b.
      named_after a b d e is6 k (owner b s.by_addr) _ (lookup e (by_domain s k)) _
        (owner-record_ip s d is6 a b) (by_domain-record_ip s d e is6 k a) (v.named k e b)
        (λ q. ap (λ c. owner c s.by_addr) (sym q) ∙ f.free) f.of_family;
  known = λ b e.
      known_after a b d e is6 (owner b s.by_addr) _ (lookup e (by_domain s (not b.v4))) _
        (owner-record_ip s d is6 a b) (by_domain-record_ip s d e is6 (not b.v4) a) (v.known b e)
        (λ q p. ap₂ (λ k c. lookup c (by_domain s k)) (sym q) (sym p) ∙ f.absent) f.of_family;
  placed = λ b e r h g.
      placed_after b e r (sym (owner-record_ip s d is6 a b) ∙ h)
        (sym (range_of-record_ip s d is6 (not b.v4) a) ∙ g);
  aimed = λ k c h. aimed_after k c (sym (cursor-record_ip s d is6 k a) ∙ h);
  family = λ k r h. v.family k r (sym (range_of-record_ip s d is6 k a) ∙ h);
}
  where
    placed_after :
        (b : Ip) (e : Text) (r : Prefix)
        → (if ip_eq a b then some d else owner b s.by_addr) ≡ some e
        → range_of s (not b.v4) ≡ some r
        → (has r b.value ≡ true) × (r.value < b.value)
    placed_after b e r h g = elim (Bool-cases (ip_eq a b)) [
      | inl q ↦
          (let at : a ≡ b = (ip_eq_iff a b).0 q in
            let k : not b.v4 ≡ is6 = ground (arith, f.of_family) in
            subst (λ c. (has r c.value ≡ true) × (r.value < c.value)) at
              (f.inside r (ap (range_of s) (sym k) ∙ g)))
      | inr q ↦ v.placed b e r (ap (λ t. if t then some d else owner b s.by_addr) (sym q) ∙ h) g
    ]

    known_at :
        (c : Ip) (e : Text)
        → owner c s.by_addr ≡ some e
        → (x : Text) × (owner c (record_ip s d is6 a).by_addr ≡ some x)
    known_at c e h = elim (Bool-cases (ip_eq a c)) [
      | inl q ↦
          (d, owner-record_ip s d is6 a c ∙ ap (λ t. if t then some d else owner c s.by_addr) q)
      | inr q ↦ (
        e,
        owner-record_ip s d is6 a c ∙ (ap (λ t. if t then some d else owner c s.by_addr) q ∙ h),
      )
    ]

    aimed_after :
        (k : Bool) (c : Ip)
        → (if same is6 k then some a else cursor s k) ≡ some c
        → (c.v4 ≡ not k) × (x : Text) × (owner c (record_ip s d is6 a).by_addr ≡ some x)
    aimed_after k c h = elim (Bool-cases (same is6 k)) [
      | inl q ↦
          (let at : a ≡ c = cc (ap (λ t. if t then some a else cursor s k) (sym q) ∙ h) in
            let is_k : is6 ≡ k = ground arith in
            (
              ap (λ x. x.v4) (sym at) ∙ (f.of_family ∙ ap not is_k),
              d,
              ap (λ x. owner x (record_ip s d is6 a).by_addr) (sym at)
                  ∙ owner-record_ip_self s d is6 a,
            ))
      | inr q ↦
          (let (fam, e, o) = v.aimed k c (ap (λ t. if t then some a else cursor s k) (sym q) ∙ h) in
            let (x, p) = known_at c e o in (fam, x, p))
    ]
