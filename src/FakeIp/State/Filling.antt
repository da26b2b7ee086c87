-- ===== src/FakeIp/State/Filling.antt =====
-- An allocator while Load fills it: sound, with the configured ranges and no cursor.
use go_gost_x.Prelude.{
  ◌<◌, ◌≡◌, refl, ◌∙◌, ap, sym, subst, Bool, true, false, not, ◌&&◌, Option, none, some, arith, ltb,
  leb,
}
use go_gost_x.Text.{Text, lookup}
use go_gost_x.FakeIp.Addr.{Ip, Prefix, base, has, contains, owner}
use go_gost_x.FakeIp.{Allocator, by_domain, range_of, record_ip, in_range}
use go_gost_x.FakeIp.Search.Around.{has-interval, end}
use go_gost_x.FakeIp.Invariant.{IsSound, IsFresh, record_ip-IsSound}
use go_gost_x.FakeIp.State.{is_network, record_entry}
use go_gost_x.FakeIp.State.Cursors.{cursors-IsSound}

-- The ranges are written with their network address.
abbrev pub IsMasked : Allocator → Type 0
IsMasked s = (is6 : Bool) (r : Prefix) → range_of s is6 ≡ some r → base r ≡ r.value

record_entry_cursors :
    (t : Allocator) (d : Text) (is6 : Bool) (a : Ip)
    → record_entry t d is6 a
      ≡ record (record_ip t d is6 a) { current = t.current; current6 = t.current6 }
record_entry_cursors t d true a = refl
record_entry_cursors t d false a = refl

-- While it is filled, the allocator has no cursors.
pub record IsFilling (s t : Allocator) : Type 0 where
  pub sound : IsSound t
  pub no_cursor : (t.current ≡ none) × (t.current6 ≡ none)
  pub ranges : (t.inet4 ≡ s.inet4) × (t.inet6 ≡ s.inet6)

-- An address of a masked range that is not its network address is above it.
above_network :
    (r : Prefix) (a : Ip)
    → base r ≡ r.value
    → contains r (some a) ≡ true
    → is_network (some r) a ≡ false
    → (has r a.value ≡ true) × (r.value < a.value)
unfolding contains
above_network r a m c n =
    let h : has r a.value ≡ true = ground arith in
    let i : (leb (base r) a.value) ≡ true =
      (let j : (leb (base r) a.value && ltb a.value (end r)) ≡ true =
          sym (has-interval r a.value) ∙ h in
        ground arith) in
    (h, ground arith)

in_range-some :
    (o : Option Prefix) (a : Ip)
    → in_range o a ≡ true
    → (r : Prefix) × (o ≡ some r) × (contains r (some a) ≡ true)
in_range-some none a h = cc
in_range-some (some r) a h = (r, refl, h)

pub not-true : (b : Bool) → not b ≡ true → b ≡ false
not-true b h = ground arith

range_of-filling : (s t : Allocator) (k : Bool) → IsFilling s t → range_of t k ≡ range_of s k
range_of-filling s t true f = f.ranges.1
range_of-filling s t false f = f.ranges.0

-- The entry's address is new, in its range, and not the network's address.
pub record_entry-IsFilling :
    (s t : Allocator) (d : Text) (a : Ip)
    → IsMasked s
    → IsFilling s t
    → owner a t.by_addr ≡ none
    → in_range (range_of t (not a.v4)) a ≡ true
    → is_network (range_of t (not a.v4)) a ≡ false
    → lookup d (by_domain t (not a.v4)) ≡ none
    → IsFilling s (record_entry t d (not a.v4) a)
record_entry-IsFilling s t d a m f o i n l =
    let (r, g, c) = in_range-some (range_of t (not a.v4)) a i in
    let g' = sym (range_of-filling s t (not a.v4) f) ∙ g in
    let up = above_network r a (m (not a.v4) r g') c (ap (λ q. is_network q a) (sym g) ∙ n) in
    let fresh : IsFresh t d (not a.v4) a = record {
      free = o;
      absent = l;
      of_family = ground arith;
      inside = λ r' h.
          subst (λ (q : Prefix). (has q a.value ≡ true) × (q.value < a.value)) (cc (sym g ∙ h)) up;
    } in
    record {
      sound = subst IsSound (sym (record_entry_cursors t d (not a.v4) a)) (
          cursors-IsSound (record_ip t d (not a.v4) a) t.current t.current6
            (record_ip-IsSound t d (not a.v4) a f.sound fresh) (λ c h. cc (sym f.no_cursor.0 ∙ h))
            (λ c h. cc (sym f.no_cursor.1 ∙ h)));
      no_cursor = cursors (not a.v4);
      ranges = ranged (not a.v4);
    }
  where
    cursors :
        (k : Bool)
        → ((record_entry t d k a).current ≡ none) × ((record_entry t d k a).current6 ≡ none)
    cursors true = f.no_cursor
    cursors false = f.no_cursor

    ranged :
        (k : Bool)
        → ((record_entry t d k a).inet4 ≡ s.inet4) × ((record_entry t d k a).inet6 ≡ s.inet6)
    ranged true = f.ranges
    ranged false = f.ranges
