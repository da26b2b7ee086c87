-- ===== src/FakeIp/State/Cursors.antt =====
-- The cursors that Load sets: the ones of the text, or the greatest addresses.
use go_gost_x.Prelude.{
  ◌≡◌, refl, ◌∙◌, ap, sym, subst, ◌⊎◌, inl, inr, Bool, true, false, not, ◌&&◌, List, [], ◌∷◌,
  Option, none, some, Bool-cases, if◌then◌else◌, arith, ltb,
}
use go_gost_x.Text.{Text, lookup}
use go_gost_x.FakeIp.Addr.{Ip, ip_eq, ip_eq_iff, Prefix, same, owner}
use go_gost_x.FakeIp.{Allocator, by_domain, range_of, cursor}
use go_gost_x.FakeIp.Invariant.{IsSound}
use go_gost_x.FakeIp.State.{greatest, or_greatest}

-- Other cursors keep an allocator sound, where they are addresses with an owner.
pub cursors-IsSound :
    (t : Allocator) (c4 c6 : Option Ip)
    → IsSound t
    → ((c : Ip) → c4 ≡ some c → (c.v4 ≡ true) × (d : Text) × (owner c t.by_addr ≡ some d))
    → ((c : Ip) → c6 ≡ some c → (c.v4 ≡ false) × (d : Text) × (owner c t.by_addr ≡ some d))
    → IsSound (record t { current = c4; current6 = c6 })
cursors-IsSound t c4 c6 v a4 a6 = record {
  named = λ is6 d a h. v.named is6 d a (names is6 d h);
  known = λ a d h. knows (not a.v4) a d (v.known a d h);
  placed = λ a d r h g. v.placed a d r h (ranged (not a.v4) r g);
  aimed = λ is6 c h. aims is6 c h;
  family = λ is6 r h. v.family is6 r (ranged is6 r h);
}
  where
    t' : Allocator
    t' = record t { current = c4; current6 = c6 }

    names :
        (is6 : Bool) (d : Text) {a : Ip}
        → lookup d (by_domain t' is6) ≡ some a
        → lookup d (by_domain t is6) ≡ some a
    names true d h = h
    names false d h = h

    knows :
        (k : Bool) (a : Ip) (d : Text)
        → lookup d (by_domain t k) ≡ some a
        → lookup d (by_domain t' k) ≡ some a
    knows true a d h = h
    knows false a d h = h

    ranged : (k : Bool) (r : Prefix) → range_of t' k ≡ some r → range_of t k ≡ some r
    ranged true r h = h
    ranged false r h = h

    aims :
        (k : Bool) (c : Ip)
        → cursor t' k ≡ some c
        → (c.v4 ≡ not k) × (d : Text) × (owner c t.by_addr ≡ some d)
    aims true c h = a6 c h
    aims false c h = a4 c h

Known : Bool → Ip → List (Ip × Text) → Type 0
Known v4 c m = (c.v4 ≡ v4) × (d : Text) × (owner c m ≡ some d)

Known-cons :
    (v4 : Bool) (c a : Ip) (e : Text) (m : List (Ip × Text))
    → Known v4 c m
    → Known v4 c ((a, e) ∷ m)
unfolding Known
Known-cons v4 c a e m (f, d, o) = elim (Bool-cases (ip_eq a c)) [
  | inl q ↦ (f, e, ap (λ t. if t then some e else owner c m) q)
  | inr q ↦ (f, d, ap (λ t. if t then some e else owner c m) q ∙ o)
]

Known-head :
    (v4 : Bool) (c : Ip) (e : Text) (m : List (Ip × Text))
    → same v4 c.v4 ≡ true
    → Known v4 c ((c, e) ∷ m)
unfolding Known
Known-head v4 c e m h =
    (ground arith, e, ap (λ t. if t then some e else owner c m) ((ip_eq_iff c c).1 refl))

Known-here :
    (v4 : Bool) (a c : Ip) (e : Text) (m : List (Ip × Text))
    → same v4 a.v4 ≡ true
    → some a ≡ some c
    → Known v4 c ((a, e) ∷ m)
Known-here v4 a c e m h w =
    let q : a ≡ c = cc w in subst (λ x. Known v4 x ((a, e) ∷ m)) q (Known-head v4 a e m h)

and_left : (x y : Bool) → (x && y) ≡ true → x ≡ true
and_left x y h = ground arith

pub both_known :
    (v4 : Bool) (c : Ip) (m : List (Ip × Text))
    → c.v4 ≡ v4
    → (d : Text) × (owner c m ≡ some d)
    → (c.v4 ≡ v4) × (d : Text) × (owner c m ≡ some d)
both_known v4 c m f (d, o) = (f, d, o)

greatest-Known :
    (v4 : Bool) (m : List (Ip × Text)) (best : Option Ip) (c : Ip)
    → greatest v4 m best ≡ some c
    → (best ≡ some c) ⊎ Known v4 c m
greatest-Known v4 [] best c h = inl h
greatest-Known v4 ((a, e) ∷ m) none c h = elim (Bool-cases (same v4 a.v4)) [
  | inl q ↦
      (elim (greatest-Known v4 m (some a) c
        (ap (λ t. greatest v4 m (if t then some a else none)) (sym q) ∙ h)) [
          | inl w ↦ inr (Known-here v4 a c e m q w)
          | inr w ↦ inr (Known-cons v4 c a e m w)
        ])
  | inr q ↦
      (elim (greatest-Known v4 m none c
        (ap (λ t. greatest v4 m (if t then some a else none)) (sym q) ∙ h)) [
          | inl w ↦ inl w
          | inr w ↦ inr (Known-cons v4 c a e m w)
        ])
]
greatest-Known v4 ((a, e) ∷ m) (some b) c h =
    elim (Bool-cases (same v4 a.v4 && ltb b.value a.value)) [
      | inl q ↦
          (elim (greatest-Known v4 m (some a) c
            (ap (λ t. greatest v4 m (if t then some a else some b)) (sym q) ∙ h)) [
              | inl w ↦ inr (Known-here v4 a c e m (and_left _ _ q) w)
              | inr w ↦ inr (Known-cons v4 c a e m w)
            ])
      | inr q ↦
          (elim (greatest-Known v4 m (some b) c
            (ap (λ t. greatest v4 m (if t then some a else some b)) (sym q) ∙ h)) [
              | inl w ↦ inl w
              | inr w ↦ inr (Known-cons v4 c a e m w)
            ])
    ]

pub or_greatest-owner :
    (v4 : Bool) (t : Allocator) (o : Option Ip) (c : Ip)
    → ((x : Ip) → o ≡ some x → (x.v4 ≡ v4) × (d : Text) × (owner x t.by_addr ≡ some d))
    → or_greatest v4 t.by_addr o ≡ some c
    → (c.v4 ≡ v4) × (d : Text) × (owner c t.by_addr ≡ some d)
unfolding Known
or_greatest-owner v4 t none c k e = elim (greatest-Known v4 t.by_addr none c e) [
  | inl q ↦ cc
  | inr w ↦ w
]
or_greatest-owner v4 t (some x) c k e = k c e
