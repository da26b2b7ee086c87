-- ===== src/FakeIp/Lifetime.antt =====
-- Create over any history of calls of Create and Load.
use go_gost_x.Prelude.{
  ◌≡◌, refl, sym, ◌∙◌, Bool, true, false, not, List, [], ◌∷◌, Option, none, some, if◌then◌else◌,
  ◌+◌,
}
use go_gost_x.Text.{Text, lookup}
use go_gost_x.FakeIp.Addr.{Ip, Prefix, has}
use go_gost_x.FakeIp.Search.{Found, found, none_left, spinning, search}
use go_gost_x.FakeIp.{
  Allocator, Created, refused, exhausted, new_allocator, by_domain, range_of, cursor, start_of,
  taken, settle, allocate, create_new, create_named, normalize, create,
}
use go_gost_x.FakeIp.Invariant.{IsSound}
use go_gost_x.FakeIp.Creation.{Outcome, create_named-Outcome}
use go_gost_x.FakeIp.History.{after, after-IsSound, new_allocator-IsSound}
use go_gost_x.FakeIp.State.{State, Loaded, ok, err, load}
use go_gost_x.FakeIp.State.Filling.{IsMasked}
use go_gost_x.FakeIp.State.Loading.{load-IsSound}

-- The ranges stay.
abbrev Same : Allocator → Allocator → Type 0
Same s t = (t.inet4 ≡ s.inet4) × (t.inet6 ≡ s.inet6)

settle-Same :
    (s : Allocator) (d : Text) (is6 : Bool) (r : Prefix) (f : Found)
    → Same s (after s (settle s d is6 r f))
settle-Same s d true r (found v) = (refl, refl)
settle-Same s d false r (found v) = (refl, refl)
settle-Same s d is6 r none_left = (refl, refl)
settle-Same s d is6 r spinning = (refl, refl)

allocate-Same :
    (s : Allocator) (d : Text) (is6 : Bool) (o : Option Prefix)
    → Same s (after s (allocate s d is6 o))
allocate-Same s d is6 none = (refl, refl)
allocate-Same s d is6 (some r) = by_case (not (has r (r.value + 1))) _ (
    settle-Same s d is6 r
      (search (taken s r) r (r.value + 1) (start_of r (cursor s is6) (r.value + 1))))
  where
    by_case :
        (b : Bool) (c : Created)
        → Same s (after s c)
        → Same s (after s (if b then refused exhausted else c))
    by_case true c k = (refl, refl)
    by_case false c k = k

create_named-Same :
    (s : Allocator) (d : Text) (is6 : Bool) → Same s (after s (create_named s d is6))
unfolding create_named
create_named-Same s [] is6 = (refl, refl)
create_named-Same s (c ∷ cs) is6 = by_case (lookup (c ∷ cs) (by_domain s is6))
  where
    by_case : (o : Option Ip) → Same s (after s (create_new s (c ∷ cs) is6 o))
    by_case none = allocate-Same s (c ∷ cs) is6 (range_of s is6)
    by_case (some a) = (refl, refl)

Same-IsMasked : (s t : Allocator) → Same s t → IsMasked s → IsMasked t
Same-IsMasked s t (p, q) m true r e = m true r (sym q ∙ e)
Same-IsMasked s t (p, q) m false r e = m false r (sym p ∙ e)

pub data Call : Type 0 where
  creates : Text → Bool → Call
  loads : Text → Call

-- The state after a Load; an error leaves it as it was.
abbrev loaded_or : Allocator → Loaded Allocator → Allocator
loaded_or s (ok t) = t
loaded_or s (err e) = s

module _ (decode : Text → Option State) (parse_prefix : Text → Option Prefix)
    (parse_addr : Text → Option Ip) (trim lower : Text → Text) where
  abbrev pub call : Allocator → Call → Allocator
  call s (creates domain is6) = after s (create trim lower s domain is6)
  call s (loads text) = loaded_or s (load decode parse_prefix parse_addr trim lower s text)

  unfoldable pub live : Allocator → List Call → Allocator
  live s [] = s
  live s (c ∷ cs) = live (call s c) cs

  call-IsSound :
      (s : Allocator) (c : Call) → IsSound s → IsMasked s → IsSound (call s c) × IsMasked (call s c)
  unfolding create
  call-IsSound s (creates domain is6) v m =
      let d = normalize trim lower domain in
      (
        (after-IsSound s d is6 (create_named s d is6) v (create_named-Outcome s d is6 v)).0,
        Same-IsMasked s (after s (create_named s d is6)) (create_named-Same s d is6) m,
      )
  call-IsSound s (loads text) v m =
      by_case (load decode parse_prefix parse_addr trim lower s text) refl
    where
      by_case :
          (l : Loaded Allocator)
          → load decode parse_prefix parse_addr trim lower s text ≡ l
          → IsSound (loaded_or s l) × IsMasked (loaded_or s l)
      by_case (ok t) e =
          let (w, p, q) = load-IsSound decode parse_prefix parse_addr trim lower s m text t v e in
          (w, Same-IsMasked s t (p, q) m)
      by_case (err e) q = (v, m)

  live-IsSound : (s : Allocator) (cs : List Call) → IsSound s → IsMasked s → IsSound (live s cs)
  unfolding live
  live-IsSound s [] v m = v
  live-IsSound s (c ∷ cs) v m = let (w, n) = call-IsSound s c v m in live-IsSound (call s c) cs w n

  -- After any calls of Create and Load on a new allocator whose ranges are of their families and
  -- masked, Create ends. It returns an address of the asked family which then belongs to the
  -- normalized name, both ways, and keeps the owner of every address, in an allocator whose maps are
  -- inverses again; or it refuses the empty name, a family with no range, or, for a name that has no
  -- address yet, a range of which every address after its own has an owner.
  pub create-Outcome :
      (inet4 inet6 : Option Prefix) (cs : List Call) (domain : Text) (is6 : Bool)
      → ((r : Prefix) → inet4 ≡ some r → r.v4 ≡ true)
      → ((r : Prefix) → inet6 ≡ some r → r.v4 ≡ false)
      → IsMasked (new_allocator inet4 inet6)
      → let s = live (new_allocator inet4 inet6) cs in
        Outcome s (normalize trim lower domain) is6 (create trim lower s domain is6)
  unfolding create
  create-Outcome inet4 inet6 cs domain is6 f4 f6 m =
      create_named-Outcome _ (normalize trim lower domain) is6
        (live-IsSound (new_allocator inet4 inet6) cs (new_allocator-IsSound inet4 inet6 f4 f6) m)
