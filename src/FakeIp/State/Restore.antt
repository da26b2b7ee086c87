-- ===== src/FakeIp/State/Restore.antt =====
-- The entries of a snapshot, read one after the other.
use go_gost_x.Prelude.{
  ◌≡◌, refl, ◌∙◌, ap, sym, Bool, true, false, not, ◌&&◌, List, [], ◌∷◌, Option, none, some,
  if◌then◌else◌, arith, map,
}
use go_gost_x.Text.{Text, lookup, is_empty, lookup-insert, text_eq, text_eq_iff}
use go_gost_x.FakeIp.Addr.{Ip, ip_eq, ip_eq_iff, Prefix, same, owner, unmap, owner-insert_owner}
use go_gost_x.FakeIp.{Allocator, by_domain, range_of, normalize, in_range}
use go_gost_x.FakeIp.State.{State, ok, is_network, ◌>>=◌, record_entry, put_entry, put_entries}

-- Each address stands in the list once.
abbrev pub Distinct : List (Ip × Text) → Type 0
Distinct [] = Unit {0}
Distinct ((a, d) ∷ m) = (owner a m ≡ none) × Distinct m

abbrev pub filled : Allocator → List (Ip × Text) → Allocator
filled t [] = t
filled t ((a, d) ∷ m) = filled (record_entry t d (not a.v4) a) m

owner-record_entry :
    (t : Allocator) (d : Text) (k : Bool) (a b : Ip)
    → owner b (record_entry t d k a).by_addr ≡ (if ip_eq a b then some d else owner b t.by_addr)
owner-record_entry t d true a b = owner-insert_owner a b d t.by_addr
owner-record_entry t d false a b = owner-insert_owner a b d t.by_addr

lookup-record_entry :
    (t : Allocator) (d e : Text) (k k' : Bool) (a : Ip)
    → lookup e (by_domain (record_entry t d k a) k')
      ≡ (if same k k' && text_eq d e then some a else lookup e (by_domain t k'))
lookup-record_entry t d e true true a = lookup-insert d e a t.by_domain6
lookup-record_entry t d e true false a = refl
lookup-record_entry t d e false true a = refl
lookup-record_entry t d e false false a = lookup-insert d e a t.by_domain4

unfoldable pub or_owner : Option Text → Option Text → Option Text
or_owner none o = o
or_owner (some d) o = some d

pub owner-filled :
    (t : Allocator) (m : List (Ip × Text)) (b : Ip)
    → Distinct m
    → owner b (filled t m).by_addr ≡ or_owner (owner b m) (owner b t.by_addr)
unfolding or_owner
owner-filled t [] b v = refl
owner-filled t ((a, d) ∷ m) b (free, v) =
    owner-filled (record_entry t d (not a.v4) a) m b v
    ∙ (ap (or_owner (owner b m)) (owner-record_entry t d (not a.v4) a b) ∙ first (ip_eq a b) refl)
  where
    first :
        (c : Bool)
        → ip_eq a b ≡ c
        → or_owner (owner b m) (if c then some d else owner b t.by_addr)
          ≡ or_owner (if c then some d else owner b m) (owner b t.by_addr)
    first true e =
        let at : a ≡ b = (ip_eq_iff a b).0 e in
        ap (λ o. or_owner o (some d)) (ap (λ x. owner x m) (sym at) ∙ free)
    first false e = refl

-- What an allocator has to hold for its snapshot to be read back.
module _ (trim lower : Text → Text) where
  pub record IsStorable (s : Allocator) : Type 0 where
    pub normal :
        (a : Ip) (d : Text)
        → owner a s.by_addr ≡ some d
        → (normalize trim lower d ≡ d) × (is_empty d ≡ false)
    pub plain : (a : Ip) (d : Text) → owner a s.by_addr ≡ some d → unmap a ≡ a
    pub ranged :
        (a : Ip) (d : Text)
        → owner a s.by_addr ≡ some d
        → (r : Prefix) × (range_of s (not a.v4) ≡ some r)

-- An entry that Load accepts beside those that are read.
pub record IsNext (t : Allocator) (trim lower : Text → Text) (a : Ip) (d : Text) : Type 0 where
  pub normal : normalize trim lower d ≡ d
  pub named : is_empty d ≡ false
  pub plain : unmap a ≡ a
  pub inside : in_range (range_of t (not a.v4)) a ≡ true
  pub host : is_network (range_of t (not a.v4)) a ≡ false
  pub free : owner a t.by_addr ≡ none
  pub absent : lookup d (by_domain t (not a.v4)) ≡ none

module _ (decode : Text → Option State) (parse_prefix : Text → Option Prefix)
    (parse_addr : Text → Option Ip) (trim lower : Text → Text) (show_addr : Ip → Text)
    (addr_back : (a : Ip) → parse_addr (show_addr a) ≡ some a) where
  put_entry-next :
      (t : Allocator) (a : Ip) (d : Text)
      → IsNext t trim lower a d
      → put_entry decode parse_prefix parse_addr trim lower t
          (record { domain = d; addr = show_addr a })
        ≡ ok (record_entry t d (not a.v4) a)
  unfolding put_entry
  put_entry-next t a d n = rw n.normal (
      rw n.named
        (rw (addr_back a) (rw n.plain (rw n.free (rw n.inside (rw n.host (rw n.absent refl)))))))

-- The entries that are still to be read fit those that are.
pub record IsAhead (trim lower : Text → Text) (t : Allocator) (m : List (Ip × Text)) : Type 0 where
  pub each : (a : Ip) (d : Text) → owner a m ≡ some d → IsNext t trim lower a d
  pub apart :
      (a b : Ip) (d : Text)
      → owner a m ≡ some d
      → owner b m ≡ some d
      → a.v4 ≡ b.v4
      → ip_eq a b ≡ true

range_of-record_entry :
    (t : Allocator) (d : Text) (k k' : Bool) (a : Ip)
    → range_of (record_entry t d k a) k' ≡ range_of t k'
range_of-record_entry t d true true a = refl
range_of-record_entry t d true false a = refl
range_of-record_entry t d false true a = refl
range_of-record_entry t d false false a = refl

other_ip :
    (a b : Ip) (e : Text) (m : List (Ip × Text))
    → owner a m ≡ none
    → owner b m ≡ some e
    → ip_eq a b ≡ false
other_ip a b e m h k = go (ip_eq a b) refl
  where
    go : (c : Bool) → ip_eq a b ≡ c → c ≡ false
    go true q =
        let o : some e ≡ none = sym k ∙ (ap (λ x. owner x m) (sym ((ip_eq_iff a b).0 q)) ∙ h) in
        absurd cc
    go false q = refl

module _ (trim lower : Text → Text) (t : Allocator) (a : Ip) (d : Text) (m : List (Ip × Text))
    (f : IsAhead trim lower t ((a, d) ∷ m)) (free : owner a m ≡ none) where
  in_front : (b : Ip) (e : Text) → owner b m ≡ some e → owner b ((a, d) ∷ m) ≡ some e
  in_front b e h = ap (λ c. if c then some d else owner b m) (other_ip a b e m free h) ∙ h

  at_head : owner a ((a, d) ∷ m) ≡ some d
  at_head = ap (λ c. if c then some d else owner a m) ((ip_eq_iff a a).1 refl)

  not_named :
      (b : Ip) (e : Text) → owner b m ≡ some e → (same (not a.v4) (not b.v4) && text_eq d e) ≡ false
  not_named b e h = go (same (not a.v4) (not b.v4) && text_eq d e) refl
    where
      go : (c : Bool) → (same (not a.v4) (not b.v4) && text_eq d e) ≡ c → c ≡ false
      go true q =
          let de : d ≡ e = ground (arith, text_eq_iff d e) in
          let fam : a.v4 ≡ b.v4 = ground arith in
          let eq : ip_eq a b ≡ true =
            f.apart a b e (at_head ∙ ap (λ x. some x) de) (in_front b e h) fam in
          absurd (let w : true ≡ false = sym eq ∙ other_ip a b e m free h in cc)
      go false q = refl

  next-IsAhead : IsAhead trim lower (record_entry t d (not a.v4) a) m
  next-IsAhead = record {
    each = λ b e h.
        let n = f.each b e (in_front b e h) in
        let r = range_of-record_entry t d (not a.v4) (not b.v4) a in
        record {
          normal = n.normal;
          named = n.named;
          plain = n.plain;
          inside = ap (λ o. in_range o b) r ∙ n.inside;
          host = ap (λ o. is_network o b) r ∙ n.host;
          free =
              owner-record_entry t d (not a.v4) a b
              ∙ (ap (λ c. if c then some d else owner b t.by_addr) (other_ip a b e m free h)
                  ∙ n.free);
          absent =
              lookup-record_entry t d e (not a.v4) (not b.v4) a
              ∙ (ap (λ c. if c then some a else lookup e (by_domain t (not b.v4))) (not_named b e h)
                  ∙ n.absent);
        };
    apart = λ b c e h k fam. f.apart b c e (in_front b e h) (in_front c e k) fam;
  }

module _ (decode : Text → Option State) (parse_prefix : Text → Option Prefix)
    (parse_addr : Text → Option Ip) (trim lower : Text → Text) (show_addr : Ip → Text)
    (addr_back : (a : Ip) → parse_addr (show_addr a) ≡ some a) where
  pub put_entries-filled :
      (t : Allocator) (m : List (Ip × Text))
      → Distinct m
      → IsAhead trim lower t m
      → put_entries decode parse_prefix parse_addr trim lower t
          (map (λ (e : Ip × Text). record { domain = e.1; addr = show_addr e.0 }) m)
        ≡ ok (filled t m)
  unfolding put_entries
  put_entries-filled t [] v f = refl
  put_entries-filled t ((a, d) ∷ m) (free, v) f =
      ap
        (λ l. l >>= λ t'.
          put_entries decode parse_prefix parse_addr trim lower t'
            (map (λ (e : Ip × Text). record { domain = e.1; addr = show_addr e.0 }) m))
        (put_entry-next decode parse_prefix parse_addr trim lower show_addr addr_back t a d
          (f.each a d (at_head trim lower t a d m f free)))
      ∙ put_entries-filled (record_entry t d (not a.v4) a) m v
          (next-IsAhead trim lower t a d m f free)
