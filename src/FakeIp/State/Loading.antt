-- ===== src/FakeIp/State/Loading.antt =====
-- Load accepts only sound snapshots.
use go_gost_x.Prelude.{
  ◌==◌, ◌≡◌, refl, ◌∙◌, ap, sym, subst, Bool, true, false, not, ◌&&◌, List, [], ◌∷◌, Option, none,
  some, arith,
}
use go_gost_x.Text.{Text, lookup, is_empty}
use go_gost_x.FakeIp.Addr.{Ip, Prefix, same, owner, unmap}
use go_gost_x.FakeIp.{Allocator, by_domain, range_of, cursor, normalize, in_range}
use go_gost_x.FakeIp.Invariant.{IsSound}
use go_gost_x.FakeIp.State.{
  Entry, State, LoadError, Loaded, ok, err, ◌>>=◌, ◌>>◌, require, parsed, is_set, is_network,
  emptied, or_greatest, check_present, validate_state_range, validate_current, put_entry,
  put_entries, load,
}
use go_gost_x.FakeIp.State.Filling.{IsMasked, IsFilling, record_entry-IsFilling, not-true}
use go_gost_x.FakeIp.State.Cursors.{cursors-IsSound, both_known, or_greatest-owner}

-- Inversion of the steps.
bind_ok :
    {A B : Type 0} (m : Loaded A) (f : A → Loaded B) {b : B}
    → (m >>= f) ≡ ok b
    → (a : A) × (m ≡ ok a) × (f a ≡ ok b)
bind_ok (ok a) f h = (a, refl, h)
bind_ok (err e) f h = cc

require_ok :
    {B : Type 0} (c : Bool) (e : LoadError) (k : Loaded B) {b : B}
    → (require c e >> k) ≡ ok b
    → (c ≡ true) × (k ≡ ok b)
require_ok true e k h = (refl, h)
require_ok false e k h = cc

is_set-none : {A : Type 0} (o : Option A) → not (is_set o) ≡ true → o ≡ none
is_set-none none h = refl
is_set-none (some a) h = cc

is_set-some : {A : Type 0} (o : Option A) → is_set o ≡ true → (a : A) × (o ≡ some a)
is_set-some none h = cc
is_set-some (some a) h = (a, refl)

same_left : (x y : Bool) (p q : Bool) → (same x y && p && q) ≡ true → y ≡ x
same_left x y p q h = ground arith

module _ (decode : Text → Option State) (parse_prefix : Text → Option Prefix)
    (parse_addr : Text → Option Ip) (trim lower : Text → Text) (s : Allocator)
    (m : IsMasked s) where
  put_entry-IsFilling :
      (t t' : Allocator) (e : Entry)
      → IsFilling s t
      → put_entry decode parse_prefix parse_addr trim lower t e ≡ ok t'
      → IsFilling s t'
  unfolding put_entry
  put_entry-IsFilling t t' e f h =
      let d = normalize trim lower e.domain in
      let (named, h1) = require_ok (not (is_empty d)) _ _ h in
      let (raw, p, h2) = bind_ok (parsed (parse_addr e.addr) _) _ h1 in
      let a = unmap raw in
      let (o, h3) = require_ok (not (is_set (owner a t.by_addr))) _ _ h2 in
      let (i, h4) = require_ok (in_range (range_of t (not a.v4)) a) _ _ h3 in
      let (n, h5) = require_ok (not (is_network (range_of t (not a.v4)) a)) _ _ h4 in
      let (l, h6) = require_ok (not (is_set (lookup d (by_domain t (not a.v4))))) _ _ h5 in
      subst (IsFilling s) (cc h6)
        (record_entry-IsFilling s t d a m f (is_set-none _ o) i (not-true _ n) (is_set-none _ l))

  put_entries-IsFilling :
      (t t' : Allocator) (es : List Entry)
      → IsFilling s t
      → put_entries decode parse_prefix parse_addr trim lower t es ≡ ok t'
      → IsFilling s t'
  unfolding put_entries
  put_entries-IsFilling t t' [] f h = subst (IsFilling s) (cc h) f
  put_entries-IsFilling t t' (e ∷ es) f h =
      let (u, p, q) = bind_ok (put_entry decode parse_prefix parse_addr trim lower t e) _ h in
      put_entries-IsFilling u t' es (put_entry-IsFilling t u e f p) q

  validate_current-family :
      (value : Text) (r : Option Prefix) (is6 : Bool) (o : Option Ip) (c : Ip)
      → validate_current decode parse_prefix parse_addr trim lower value r is6 ≡ ok o
      → o ≡ some c
      → c.v4 ≡ not is6
  unfolding validate_current
  validate_current-family [] r is6 o c h e = cc (h, e)
  validate_current-family (b ∷ bs) r is6 o c h e =
      let (raw, p, h1) = bind_ok (parsed (parse_addr (b ∷ bs)) _) _ h in
      let a = unmap raw in
      let (fam, h2) =
        require_ok (same (not is6) a.v4 && in_range r a && not (is_network r a)) _ _ h1 in
      let at : a ≡ c = cc (h2, e) in
      ap (λ (x : Ip). x.v4) (sym at) ∙ same_left (not is6) a.v4 _ _ fam

  check_present-owner :
      {B : Type 0} (t : Allocator) (o : Option Ip) (k : Loaded B) {b : B}
      → (check_present t.by_addr o >> k) ≡ ok b
      → (k ≡ ok b) × ((c : Ip) → o ≡ some c → (d : Text) × (owner c t.by_addr ≡ some d))
  check_present-owner t none k h = (h, λ c e. cc)
  check_present-owner t (some x) k h =
      let (i, h') = require_ok (is_set (owner x t.by_addr)) _ _ h in
      let (d, o) = is_set-some (owner x t.by_addr) i in
      (h', λ c e. (d, let q : c ≡ x = cc e in ap (λ y. owner y t.by_addr) q ∙ o))

  emptied-IsFilling : IsSound s → IsFilling s (emptied s)
  emptied-IsFilling v = record {
    sound = record {
      named = λ is6 d a h. no_name is6 d a h;
      known = λ a d h. cc;
      placed = λ a d r h. cc;
      aimed = λ is6 c h. no_cursor is6 c h;
      family = λ is6 r h. of_family is6 r h;
    };
    no_cursor = (refl, refl);
    ranges = (refl, refl);
  }
    where
      no_name :
          (is6 : Bool) (d : Text) (a : Ip)
          → lookup d (by_domain (emptied s) is6) ≡ some a
          → (owner a [] ≡ some d) × (a.v4 ≡ not is6)
      no_name true d a h = cc
      no_name false d a h = cc

      no_cursor :
          (is6 : Bool) (c : Ip)
          → cursor (emptied s) is6 ≡ some c
          → (c.v4 ≡ not is6) × (d : Text) × (owner c [] ≡ some d)
      no_cursor true c h = cc
      no_cursor false c h = cc

      of_family : (is6 : Bool) (r : Prefix) → range_of (emptied s) is6 ≡ some r → r.v4 ≡ not is6
      of_family true r h = v.family true r h
      of_family false r h = v.family false r h

  -- A snapshot that Load accepts makes a sound allocator of the same ranges, whatever the text says,
  -- where the ranges are masked: the maps are inverses, each address is in the range of its family
  -- and not the network's own, and the cursors are addresses in use.
  pub load-IsSound :
      (text : Text) (s' : Allocator)
      → IsSound s
      → load decode parse_prefix parse_addr trim lower s text ≡ ok s'
      → IsSound s' × (s'.inet4 ≡ s.inet4) × (s'.inet6 ≡ s.inet6)
  unfolding load
  load-IsSound text s' v h =
      let (st, p, h1) = bind_ok (parsed (decode text) _) _ h in
      let (one, h2) = require_ok (st.version == 1) _ _ h1 in
      let (u4, r4, h3) =
        bind_ok (validate_state_range decode parse_prefix parse_addr trim lower st.inet4 s.inet4) _
          h2 in
      let (u6, r6, h4) =
        bind_ok (validate_state_range decode parse_prefix parse_addr trim lower st.inet6 s.inet6) _
          h3 in
      let (c4, v4, h5) =
        bind_ok
          (validate_current decode parse_prefix parse_addr trim lower st.current4 s.inet4 false) _
          h4 in
      let (c6, v6, h6) =
        bind_ok
          (validate_current decode parse_prefix parse_addr trim lower st.current6 s.inet6 true) _
          h5 in
      let (t, es, h7) =
        bind_ok (put_entries decode parse_prefix parse_addr trim lower (emptied s) st.entries) _
          h6 in
      let (h8, o4) = check_present-owner t c4 _ h7 in
      let (h9, o6) = check_present-owner t c6 _ h8 in
      let f = put_entries-IsFilling (emptied s) t st.entries (emptied-IsFilling v) es in
      let at : record t {
        current = or_greatest true t.by_addr c4;
        current6 = or_greatest false t.by_addr c6;
      }
          ≡ s' =
        cc h9 in
      subst (λ (q : Allocator). IsSound q × (q.inet4 ≡ s.inet4) × (q.inet6 ≡ s.inet6)) at
        (
          cursors-IsSound t _ _ f.sound
              (λ c e.
                or_greatest-owner true t c4 c
                  (λ x q.
                    both_known true x t.by_addr
                      (validate_current-family st.current4 s.inet4 false c4 x v4 q) (o4 x q))
                  e)
              (λ c e.
                or_greatest-owner false t c6 c
                  (λ x q.
                    both_known false x t.by_addr
                      (validate_current-family st.current6 s.inet6 true c6 x v6 q) (o6 x q))
                  e),
          f.ranges.0,
          f.ranges.1,
        )
