-- ===== src/FakeIp/State.antt =====
-- Load and Store of the allocator. Parameters: the decoding and encoding of JSON, netip.ParsePrefix
-- and ParseAddr with their String methods, strings.TrimSpace and ToLower. The maps that Load builds
-- stand in an allocator of the same ranges, without cursors until the end.
pub mod Filling
pub mod Cursors
pub mod Loading
pub mod Restore
pub mod RoundTrip
use go_gost_x.Prelude.{
  ℕ, ◌==◌, Bool, true, false, not, ◌&&◌, ◌||◌, List, [], ◌∷◌, Option, none, some, if◌then◌else◌,
  ltb, map,
}
use go_gost_x.Text.{Text, lookup, insert, is_empty}
use go_gost_x.FakeIp.Addr.{Ip, Prefix, same, base, has, contains, owner, insert_owner, unmap}
use go_gost_x.FakeIp.{Allocator, by_domain, range_of, normalize, in_range}

pub record Entry : Type 0 where
  pub domain : Text
  pub addr : Text

pub record State : Type 0 where
  pub version : ℕ
  pub inet4 : Text
  pub inet6 : Text
  pub current4 : Text
  pub current6 : Text
  pub entries : List Entry

pub data LoadError : Type 0 where
  not_json bad_version missing_range wrong_range bad_cursor : LoadError
  no_domain bad_addr duplicate_addr out_of_range network_addr duplicate_domain lost_cursor :
      LoadError

pub data Loaded (A : Type 0) : Type 0 where
  ok : A → Loaded A
  err : LoadError → Loaded A

infixl 5 ◌>>=◌ ◌>>◌
abbrev pub ◌>>=◌ : {A B : Type 0} → Loaded A → (A → Loaded B) → Loaded B
ok a >>= f = f a
err e >>= f = err e

abbrev pub ◌>>◌ : {B : Type 0} → Loaded (Unit {0}) → Loaded B → Loaded B
m >> k = m >>= λ _. k

abbrev pub require : Bool → LoadError → Loaded (Unit {0})
require true e = ok tt
require false e = err e

abbrev pub is_set {ℓ} : {A : Type ℓ} → Option A → Bool
is_set none = false
is_set (some a) = true

abbrev pub parsed : {A : Type 0} → Option A → LoadError → Loaded A
parsed none e = err e
parsed (some a) e = ok a

abbrev prefix_eq : Prefix → Prefix → Bool
prefix_eq p q = same p.v4 q.v4 && (p.value == q.value && p.bits == q.bits)

-- configured.Masked().Addr()
abbrev pub is_network : Option Prefix → Ip → Bool
is_network none a = false
is_network (some r) a = same r.v4 a.v4 && a.value == base r

-- The writes for one entry.
abbrev pub record_entry : Allocator → Text → Bool → Ip → Allocator
record_entry t domain is6 a =
    if is6
    then record t {
      by_addr = insert_owner a domain t.by_addr;
      by_domain6 = insert domain a t.by_domain6;
    }
    else record t {
      by_addr = insert_owner a domain t.by_addr;
      by_domain4 = insert domain a t.by_domain4;
    }

abbrev pub emptied : Allocator → Allocator
emptied s = record s {
  by_addr = [];
  by_domain4 = [];
  by_domain6 = [];
  current = none;
  current6 = none;
}

-- The greatest address of a family among the entries, from the one so far.
abbrev pub greatest : Bool → List (Ip × Text) → Option Ip → Option Ip
greatest v4 [] best = best
greatest v4 ((a, d) ∷ m) best = greatest v4 m (elim best as (λ _. Option Ip) [
  | none ↦ if same v4 a.v4 then some a else none
  | some b ↦ if same v4 a.v4 && ltb b.value a.value then some a else some b
])

abbrev or_greatest : Bool → List (Ip × Text) → Option Ip → Option Ip
or_greatest v4 m none = greatest v4 m none
or_greatest v4 m (some c) = some c

abbrev pub check_present : List (Ip × Text) → Option Ip → Loaded (Unit {0})
check_present m none = ok tt
check_present m (some c) = require (is_set (owner c m)) lost_cursor

module _ (decode : Text → Option State) (parse_prefix : Text → Option Prefix)
    (parse_addr : Text → Option Ip) (trim lower : Text → Text) where
  abbrev same_range : Option Prefix → Option Prefix → Bool
  same_range none configured = false
  same_range (some p) none = false
  same_range (some p) (some q) = prefix_eq p q

  unfoldable pub validate_state_range : Text → Option Prefix → Loaded (Unit {0})
  validate_state_range value configured =
      if is_empty value
      then require (not (is_set configured)) missing_range
      else require (same_range (parse_prefix value) configured) wrong_range

  unfoldable pub validate_current : Text → Option Prefix → Bool → Loaded (Option Ip)
  validate_current value configured is6 = if is_empty value then ok none else do
    raw ← parsed (parse_addr value) bad_cursor
    let a = unmap raw
    require (same (not is6) a.v4 && in_range configured a && not (is_network configured a))
        bad_cursor
    ok (some a)

  -- One round of the loop over the entries.
  unfoldable pub put_entry : Allocator → Entry → Loaded Allocator
  unfolding normalize
  put_entry t e = do
    let domain = normalize trim lower e.domain
    require (not (is_empty domain)) no_domain
    raw ← parsed (parse_addr e.addr) bad_addr
    let a = unmap raw
    require (not (is_set (owner a t.by_addr))) duplicate_addr
    require (in_range (range_of t (not a.v4)) a) out_of_range
    require (not (is_network (range_of t (not a.v4)) a)) network_addr
    require (not (is_set (lookup domain (by_domain t (not a.v4))))) duplicate_domain
    ok (record_entry t domain (not a.v4) a)

  unfoldable pub put_entries : Allocator → List Entry → Loaded Allocator
  unfolding put_entry
  put_entries t [] = ok t
  put_entries t (e ∷ es) = put_entry t e >>= λ t'. put_entries t' es

  -- The allocator after Load, or its error, with which it stays as it was.
  unfoldable pub load : Allocator → Text → Loaded Allocator
  unfolding validate_state_range validate_current put_entries
  load s text = do
    state ← parsed (decode text) not_json
    require (state.version == 1) bad_version
    validate_state_range state.inet4 s.inet4
    validate_state_range state.inet6 s.inet6
    current4 ← validate_current state.current4 s.inet4 false
    current6 ← validate_current state.current6 s.inet6 true
    t ← put_entries (emptied s) state.entries
    check_present t.by_addr current4
    check_present t.by_addr current6
    ok (record t {
      current = or_greatest true t.by_addr current4;
      current6 = or_greatest false t.by_addr current6;
    })

abbrev shown : {A : Type 0} → (A → Text) → Option A → Text
shown show none = []
shown show (some a) = show a

-- The snapshot that Store encodes; `entries` are the addresses in order with their names.
unfoldable pub snapshot :
    (Prefix → Text) → (Ip → Text) → (List (Ip × Text) → List (Ip × Text)) → Allocator → State
snapshot show_prefix show_addr sort s = record {
  version = 1;
  inet4 = shown show_prefix s.inet4;
  inet6 = shown show_prefix s.inet6;
  current4 = shown show_addr s.current;
  current6 = shown show_addr s.current6;
  entries = map (λ (e : Ip × Text). record { domain = e.1; addr = show_addr e.0 }) (sort s.by_addr);
}
