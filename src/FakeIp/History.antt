-- ===== src/FakeIp/History.antt =====
-- Fake addresses over any history of calls.
use go_gost_x.Prelude.{
  ◌≡◌, refl, ◌∙◌, ap, sym, subst, Bool, true, false, not, List, [], ◌∷◌, Option, some, arith,
}
use go_gost_x.Text.{Text, lookup, is_empty}
use go_gost_x.FakeIp.Addr.{Ip, Prefix, unmap, owner}
use go_gost_x.FakeIp.{
  Allocator, Created, created, refused, hangs, new_allocator, by_domain, range_of, cursor,
  create_new, create_named, find_domain,
}
use go_gost_x.FakeIp.Invariant.{IsSound}
use go_gost_x.FakeIp.Creation.{Outcome, create_named-Outcome}

-- The state after a call; a refusal leaves it as it was.
abbrev pub after : Allocator → Created → Allocator
after s (created s' a) = s'
after s (refused e) = s
after s hangs = s

-- Calls of Create, each with a name and a family.
unfoldable pub run : Allocator → List (Text × Bool) → Allocator
run s [] = s
run s ((d, is6) ∷ calls) = run (after s (create_named s d is6)) calls

abbrev Kept : Allocator → Allocator → Type 0
Kept s t = (b : Ip) (e : Text) → owner b s.by_addr ≡ some e → owner b t.by_addr ≡ some e

pub after-IsSound :
    (s : Allocator) (d : Text) (is6 : Bool) (c : Created)
    → IsSound s
    → Outcome s d is6 c
    → IsSound (after s c) × Kept s (after s c)
after-IsSound s d is6 (created s' a) v o = (o.0, o.4)
after-IsSound s d is6 (refused e) v o = (v, λ b e h. h)
after-IsSound s d is6 hangs v o = (v, λ b e h. h)

run-IsSound :
    (s : Allocator) (calls : List (Text × Bool))
    → IsSound s
    → IsSound (run s calls) × Kept s (run s calls)
unfolding run
run-IsSound s [] v = (v, λ b e h. h)
run-IsSound s ((d, is6) ∷ calls) v =
    let (w, k) = after-IsSound s d is6 (create_named s d is6) v (create_named-Outcome s d is6 v) in
    let (x, l) = run-IsSound (after s (create_named s d is6)) calls w in
    (x, λ b e h. l b e (k b e h))

pub new_allocator-IsSound :
    (inet4 inet6 : Option Prefix)
    → ((r : Prefix) → inet4 ≡ some r → r.v4 ≡ true)
    → ((r : Prefix) → inet6 ≡ some r → r.v4 ≡ false)
    → IsSound (new_allocator inet4 inet6)
unfolding new_allocator
new_allocator-IsSound inet4 inet6 f4 f6 = record {
  named = λ is6 d a. no_name is6 d a;
  known = λ a d h. cc;
  placed = λ a d r h. cc;
  aimed = λ is6 c. no_cursor is6 c;
  family = λ is6 r. of_family is6 r;
}
  where
    no_name :
        (is6 : Bool) (d : Text) (a : Ip)
        → lookup d (by_domain (new_allocator inet4 inet6) is6) ≡ some a
        → (owner a [] ≡ some d) × (a.v4 ≡ not is6)
    no_name true d a h = cc
    no_name false d a h = cc

    no_cursor :
        (is6 : Bool) (c : Ip)
        → cursor (new_allocator inet4 inet6) is6 ≡ some c
        → (c.v4 ≡ not is6) × (d : Text) × (owner c [] ≡ some d)
    no_cursor true c h = cc
    no_cursor false c h = cc

    of_family :
        (is6 : Bool) (r : Prefix)
        → range_of (new_allocator inet4 inet6) is6 ≡ some r
        → r.v4 ≡ not is6
    of_family true r h = f6 r h
    of_family false r h = f4 r h

create_named-again :
    (s : Allocator) (d : Text) (is6 : Bool) (a : Ip)
    → is_empty d ≡ false
    → lookup d (by_domain s is6) ≡ some a
    → create_named s d is6 ≡ created s a
unfolding create_named
create_named-again s d is6 a e l = rw e (ap (create_new s d is6) l)

-- A name that Create gave an address to is not empty.
created_named :
    (s s' : Allocator) (d : Text) (is6 : Bool) (a : Ip)
    → create_named s d is6 ≡ created s' a
    → is_empty d ≡ false
unfolding create_named
created_named s s' [] is6 a h = cc
created_named s s' (c ∷ cs) is6 a h = refl

-- An address is kept for its name by Create: once Create of a sound allocator has returned it, then
-- after any further calls of Create, with no Load among them, a lookup of the address finds the
-- name, unless it is an IPv4-mapped one, and Create returns it again for the name and changes
-- nothing.
pub run-create_named :
    (s s' : Allocator) (d : Text) (is6 : Bool) (a : Ip) (calls : List (Text × Bool))
    → IsSound s
    → create_named s d is6 ≡ created s' a
    → unmap a ≡ a
    → (find_domain (run s' calls) a ≡ some d)
      × (create_named (run s' calls) d is6 ≡ created (run s' calls) a)
unfolding find_domain
run-create_named s s' d is6 a calls v h u =
    let o : Outcome s d is6 (created s' a) =
      subst (Outcome s d is6) h (create_named-Outcome s d is6 v) in
    let (w, k) = run-IsSound s' calls o.0 in
    let own = k a d o.3 in
    let side : not a.v4 ≡ is6 = ground (arith, o.1) in
    (
      ap (λ b. owner b (run s' calls).by_addr) u ∙ own,
      create_named-again (run s' calls) d is6 a (created_named s s' d is6 a h)
          (ap (λ b. lookup d (by_domain (run s' calls) b)) (sym side) ∙ w.known a d own),
    )
