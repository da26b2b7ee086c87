-- ===== src/FakeIp/State/RoundTrip.antt =====
-- What Store writes, Load reads back.
use go_gost_x.Prelude.{
  ◌≡◌, refl, ◌∙◌, ap, sym, subst, Bool, true, false, not, List, Option, none, some, arith,
}
use go_gost_x.Text.{Text, lookup, is_empty}
use go_gost_x.FakeIp.Addr.{Ip, ip_eq_iff, Prefix, same, base, contains, owner, unmap}
use go_gost_x.FakeIp.{Allocator, by_domain, range_of, cursor, in_range, new_allocator}
use go_gost_x.FakeIp.Invariant.{IsSound}
use go_gost_x.FakeIp.History.{new_allocator-IsSound}
use go_gost_x.FakeIp.State.{
  LoadError, State, Loaded, ok, is_network, parsed, ◌>>=◌, emptied, check_present,
  validate_state_range, validate_current, load, snapshot, shown, or_greatest,
}
use go_gost_x.FakeIp.State.Filling.{IsMasked}
use go_gost_x.FakeIp.State.Loading.{load-IsSound}
use go_gost_x.FakeIp.State.Restore.{
  Distinct, filled, or_owner, owner-filled, IsStorable, IsAhead, put_entries-filled,
}

bind_is :
    {A B : Type 0} (m : Loaded A) (f : A → Loaded B) {a : A} {r : Loaded B}
    → m ≡ ok a
    → f a ≡ r
    → (m >>= f) ≡ r
bind_is m f e h = ap (λ x. x >>= f) e ∙ h

-- An address in use is in its range and not its network's own.
used_inside :
    (s : Allocator) (a : Ip) (d : Text) (r : Prefix)
    → IsSound s
    → owner a s.by_addr ≡ some d
    → range_of s (not a.v4) ≡ some r
    → (in_range (range_of s (not a.v4)) a ≡ true) × (is_network (range_of s (not a.v4)) a ≡ false)
unfolding contains base
used_inside s a d r v o e =
    let (h, lt) = v.placed a d r o e in
    let fam = v.family (not a.v4) r e in
    (ap (λ p. in_range p a) e ∙ ground arith, ap (λ p. is_network p a) e ∙ ground arith)

some_eq : {a b : Ip} → some a ≡ some b → a ≡ b
some_eq e = cc

module _ (s t : Allocator) (v : IsSound s) (w : IsSound t)
    (e : (a : Ip) → owner a t.by_addr ≡ owner a s.by_addr) where
  -- Allocators with the same owners have the same addresses of names.
  lookup_from :
      (is6 : Bool) (d : Text) (a : Ip)
      → lookup d (by_domain t is6) ≡ some a
      → lookup d (by_domain s is6) ≡ some a
  lookup_from is6 d a h =
      let (o, fam) = w.named is6 d a h in
      let k : not a.v4 ≡ is6 = ground arith in
      subst (λ b. lookup d (by_domain s b) ≡ some a) k (v.known a d (sym (e a) ∙ o))

Option-same :
    (o p : Option Ip)
    → ((a : Ip) → o ≡ some a → p ≡ some a)
    → ((a : Ip) → p ≡ some a → o ≡ some a)
    → o ≡ p
Option-same none none f g = refl
Option-same none (some b) f g = g b refl
Option-same (some a) p f g = sym (f a refl)

range_of-new :
    (s : Allocator) (k : Bool) → range_of (new_allocator s.inet4 s.inet6) k ≡ range_of s k
unfolding new_allocator
range_of-new s true = refl
range_of-new s false = refl

module _ (decode : Text → Option State) (encode : State → Text)
    (parse_prefix : Text → Option Prefix) (show_prefix : Prefix → Text)
    (parse_addr : Text → Option Ip) (show_addr : Ip → Text) (trim lower : Text → Text) where
  -- The texts of addresses and prefixes are read as these, and are not empty.
  pub record IsCodec : Type 0 where
    pub prefix_back : (p : Prefix) → parse_prefix (show_prefix p) ≡ some p
    pub prefix_text : (p : Prefix) → is_empty (show_prefix p) ≡ false
    pub addr_back : (a : Ip) → parse_addr (show_addr a) ≡ some a
    pub addr_text : (a : Ip) → is_empty (show_addr a) ≡ false

  module _ (c : IsCodec) where
    range_back :
        (o : Option Prefix)
        → validate_state_range decode parse_prefix parse_addr trim lower (shown show_prefix o) o
          ≡ ok tt
    unfolding validate_state_range
    range_back none = refl
    range_back (some p) =
        let e = c.prefix_text p in let b = c.prefix_back p in rw e (rw b (ground arith))

    cursor_back :
        (o : Option Prefix) (is6 : Bool) (x : Option Ip)
        → ((a : Ip)
            → x ≡ some a
            → (unmap a ≡ a) × (a.v4 ≡ not is6) × (in_range o a ≡ true) × (is_network o a ≡ false))
        → validate_current decode parse_prefix parse_addr trim lower (shown show_addr x) o is6
          ≡ ok x
    unfolding validate_current
    cursor_back o is6 none h = refl
    cursor_back o is6 (some a) h =
        let (p, f, i, n) = h a refl in
        let e = c.addr_text a in
        let b = c.addr_back a in
        let g : same (not is6) a.v4 ≡ true = ground arith in
        rw e (rw b (rw p (rw g (rw i (rw n refl)))))

    module _ (s : Allocator) (sort : List (Ip × Text) → List (Ip × Text)) (v : IsSound s)
        (m : IsMasked s) (p : IsStorable trim lower s) (distinct : Distinct (sort s.by_addr))
        (listed : (a : Ip) → owner a (sort s.by_addr) ≡ owner a s.by_addr)
        (back : decode (encode (snapshot show_prefix show_addr sort s))
          ≡ some (snapshot show_prefix show_addr sort s)) where
      ahead : IsAhead trim lower (emptied (new_allocator s.inet4 s.inet6)) (sort s.by_addr)
      unfolding new_allocator
      ahead = record {
        each = λ a d h.
            let o : owner a s.by_addr ≡ some d = sym (listed a) ∙ h in
            let (r, e) = p.ranged a d o in
            let (inside, host) = used_inside s a d r v o e in
            record {
              normal = (p.normal a d o).0;
              named = (p.normal a d o).1;
              plain = p.plain a d o;
              inside = inside;
              host = host;
              free = refl;
              absent = nothing d (not a.v4);
            };
        apart = λ a b d h k fam.
            let x = v.known a d (sym (listed a) ∙ h) in
            let y = v.known b d (sym (listed b) ∙ k) in
            (ip_eq_iff a b).1
              (some_eq (sym x ∙ (ap (λ f. lookup d (by_domain s (not f))) fam ∙ y)));
      }
        where
          nothing :
              (d : Text) (k : Bool)
              → lookup d (by_domain (emptied (new_allocator s.inet4 s.inet6)) k) ≡ none
          nothing d true = refl
          nothing d false = refl

      owners :
          (a : Ip)
          → owner a (filled (emptied (new_allocator s.inet4 s.inet6)) (sort s.by_addr)).by_addr
            ≡ owner a s.by_addr
      unfolding or_owner new_allocator
      owners a =
          owner-filled (emptied (new_allocator s.inet4 s.inet6)) (sort s.by_addr) a distinct
          ∙ (right (owner a (sort s.by_addr)) ∙ listed a)
        where
          right : (o : Option Text) → or_owner o none ≡ o
          right none = refl
          right (some d) = refl

      aimed_at :
          (is6 : Bool) (a : Ip)
          → cursor s is6 ≡ some a
          → (unmap a ≡ a)
            × (a.v4 ≡ not is6)
            × (in_range (range_of s is6) a ≡ true)
            × (is_network (range_of s is6) a ≡ false)
      aimed_at is6 a h =
          let (fam, d, o) = v.aimed is6 a h in
          let (r, e) = p.ranged a d o in
          let (inside, host) = used_inside s a d r v o e in
          let k : not a.v4 ≡ is6 = ground arith in
          (
            p.plain a d o,
            fam,
            ap (λ b. in_range (range_of s b) a) (sym k) ∙ inside,
            ap (λ b. is_network (range_of s b) a) (sym k) ∙ host,
          )

      restored : Allocator
      restored =
          let t = filled (emptied (new_allocator s.inet4 s.inet6)) (sort s.by_addr) in
          record t {
            current = or_greatest true t.by_addr s.current;
            current6 = or_greatest false t.by_addr s.current6;
          }

      present :
          (is6 : Bool)
          → check_present
              (filled (emptied (new_allocator s.inet4 s.inet6)) (sort s.by_addr)).by_addr
              (cursor s is6)
            ≡ ok tt
      present is6 = go (cursor s is6) refl
        where
          go :
              (o : Option Ip)
              → cursor s is6 ≡ o
              → check_present
                  (filled (emptied (new_allocator s.inet4 s.inet6)) (sort s.by_addr)).by_addr
                  o
                ≡ ok tt
          go none h = refl
          go (some a) h = let (fam, d, o) = v.aimed is6 a h in rw (owners a) (rw o refl)

      load-snapshot_eq :
          load decode parse_prefix parse_addr trim lower
            (new_allocator s.inet4 s.inet6)
            (encode (snapshot show_prefix show_addr sort s))
          ≡ ok restored
      unfolding load snapshot restored new_allocator
      load-snapshot_eq = bind_is _ _ (ap (λ o. parsed o LoadError.not_json) back) (
          bind_is _ _ (range_back s.inet4) (
            bind_is _ _ (range_back s.inet6) (
              bind_is _ _ (cursor_back s.inet4 false s.current (aimed_at false)) (
                bind_is _ _ (cursor_back s.inet6 true s.current6 (aimed_at true)) (
                  bind_is _ _
                    (put_entries-filled decode parse_prefix parse_addr trim lower show_addr
                      c.addr_back (emptied (new_allocator s.inet4 s.inet6)) (sort s.by_addr)
                      distinct ahead)
                    (bind_is _ _ (present false) (bind_is _ _ (present true) refl)))))))

      restored-IsSound : IsSound restored
      restored-IsSound =
          (load-IsSound decode parse_prefix parse_addr trim lower (new_allocator s.inet4 s.inet6)
            (λ k r e. m k r (sym (range_of-new s k) ∙ e)) _ restored
            (new_allocator-IsSound s.inet4 s.inet6 (λ r e. v.family false r e)
              (λ r e. v.family true r e))
            load-snapshot_eq).0

      cursors : (is6 : Bool) (a : Ip) → cursor s is6 ≡ some a → cursor restored is6 ≡ some a
      unfolding restored
      cursors true a e =
          ap
            (or_greatest false
              (filled (emptied (new_allocator s.inet4 s.inet6)) (sort s.by_addr)).by_addr)
            e
      cursors false a e =
          ap
            (or_greatest true
              (filled (emptied (new_allocator s.inet4 s.inet6)) (sort s.by_addr)).by_addr)
            e

-- A new allocator of the same ranges that loads what Store wrote has the owners of all addresses, the
-- addresses of all names, and the cursors that were set. The texts are read as what was written; the
-- entries are each address in use once; the ranges are set and masked; no address is an IPv4-mapped
-- one; and each name is one that normalizing leaves as it is.
pub load-snapshot :
    (decode : Text → Option State) (encode : State → Text) (parse_prefix : Text → Option Prefix)
    (show_prefix : Prefix → Text) (parse_addr : Text → Option Ip) (show_addr : Ip → Text)
    (trim lower : Text → Text) (s : Allocator) (sort : List (Ip × Text) → List (Ip × Text))
    → IsCodec decode encode parse_prefix show_prefix parse_addr show_addr trim lower
    → IsSound s
    → IsMasked s
    → IsStorable trim lower s
    → Distinct (sort s.by_addr)
    → ((a : Ip) → owner a (sort s.by_addr) ≡ owner a s.by_addr)
    → decode (encode (snapshot show_prefix show_addr sort s))
      ≡ some (snapshot show_prefix show_addr sort s)
    → (t : Allocator) × (load decode parse_prefix parse_addr trim lower
          (new_allocator s.inet4 s.inet6)
          (encode (snapshot show_prefix show_addr sort s))
        ≡ ok t)
      × ((a : Ip) → owner a t.by_addr ≡ owner a s.by_addr)
      × ((is6 : Bool) (d : Text) → lookup d (by_domain t is6) ≡ lookup d (by_domain s is6))
      × ((is6 : Bool) (a : Ip) → cursor s is6 ≡ some a → cursor t is6 ≡ some a)
unfolding restored
load-snapshot decode encode parse_prefix show_prefix parse_addr show_addr trim lower s sort c v m p
      distinct listed back =
    (
      t,
      load-snapshot_eq decode encode parse_prefix show_prefix parse_addr show_addr trim lower c s
          sort v m p distinct listed back,
      same_owners,
      (λ is6 d.
          Option-same _ _ (λ a e. lookup_from s t v w same_owners is6 d a e)
            (λ a e. lookup_from t s w v (λ b. sym (same_owners b)) is6 d a e)),
      cursors decode encode parse_prefix show_prefix parse_addr show_addr trim lower c s sort v m p
          distinct listed back,
    )
  where
    t : Allocator
    t =
        restored decode encode parse_prefix show_prefix parse_addr show_addr trim lower c s sort v m
          p distinct listed back

    w : IsSound t
    w =
        restored-IsSound decode encode parse_prefix show_prefix parse_addr show_addr trim lower c s
          sort v m p distinct listed back

    same_owners : (a : Ip) → owner a t.by_addr ≡ owner a s.by_addr
    same_owners =
        owners decode encode parse_prefix show_prefix parse_addr show_addr trim lower c s sort v m p
          distinct listed back
