-- ===== src/FakeIp/Addr.antt =====
-- netip.Addr and netip.Prefix by their numbers, without zones, and a map from addresses.
use go_gost_x.Prelude.{
  ℕ, ◌+◌, ◌-◌, ◌/◌, ◌%◌, ◌^◌, ◌==◌, ◌≡◌, refl, ◌↔◌, Bool, true, false, not, ◌&&◌, List, [], ◌∷◌,
  Option, none, some, arith, ltb, leb, if◌then◌else◌,
}

pub record Ip : Type 0 where
  pub v4 : Bool
  pub value : ℕ

pub record Prefix : Type 0 where
  pub v4 : Bool
  pub value : ℕ
  pub bits : ℕ

abbrev pub width : Bool → ℕ
width v4 = if v4 then 32 else 128

abbrev pub same : Bool → Bool → Bool
same true b = b
same false b = not b

abbrev pub ip_eq : Ip → Ip → Bool
ip_eq a b = same a.v4 b.v4 && a.value == b.value

pub ip_eq_iff : (a b : Ip) → (ip_eq a b ≡ true) ↔ (a ≡ b)
ip_eq_iff a b = ground arith

unfoldable pub next : Ip → Option Ip
next a =
    if ltb (a.value + 1) (2 ^ width a.v4) then some (record a { value = a.value + 1 }) else none

-- The numbers that share the first bits of the prefix.
unfoldable pub size : Prefix → ℕ
size r = 2 ^ (width r.v4 - r.bits)

unfoldable pub base : Prefix → ℕ
unfolding size
base r = r.value - r.value % size r

unfoldable pub has : Prefix → ℕ → Bool
unfolding base size
has r v = leb (base r) v && ltb v (base r + size r) && ltb v (2 ^ width r.v4)

unfoldable pub contains : Prefix → Option Ip → Bool
unfolding has
contains r none = false
contains r (some a) = same r.v4 a.v4 && has r a.value

unfoldable pub unmap : Ip → Ip
unmap a =
    if not a.v4 && a.value / 2 ^ 32 == 65535
    then record { v4 = true; value = a.value % 2 ^ 32 }
    else a

module _ {ℓ} {V : Type ℓ} where
  abbrev pub owner : Ip → List (Ip × V) → Option V
  owner a [] = none
  owner a ((b, v) ∷ m) = if ip_eq b a then some v else owner a m

  abbrev pub insert_owner : Ip → V → List (Ip × V) → List (Ip × V)
  insert_owner a v [] = (a, v) ∷ []
  insert_owner a v ((b, w) ∷ m) = if ip_eq b a then (a, v) ∷ m else (b, w) ∷ insert_owner a v m

  pub owner-insert_owner :
      (a b : Ip) (v : V) (m : List (Ip × V))
      → owner b (insert_owner a v m) ≡ (if ip_eq a b then some v else owner b m)
  owner-insert_owner a b v [] = refl
  owner-insert_owner a b v ((c, w) ∷ m) = ground (arith, owner-insert_owner a b v m)
