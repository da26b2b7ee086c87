-- ===== src/FakeIp.antt =====
-- resolver/fakeip_store.go: the allocator of fake addresses. `lower` is strings.ToLower and `trim` is
-- strings.TrimSpace. The loop of Create stays in its range, so it goes over the range's numbers.
pub mod Addr
pub mod Search
pub mod Invariant
pub mod Creation
pub mod History
pub mod Lifetime
pub mod State
use go_gost_x.Prelude.{
  ℕ, zero, suc, ◌+◌, ◌-◌, ◌==◌, Bool, true, false, not, ◌&&◌, ◌||◌, List, [], ◌∷◌, Option, none,
  some, if◌then◌else◌,
}
use go_gost_x.Text.{Text, lookup, insert, is_empty}
use go_gost_x.FakeIp.Addr.{Ip, Prefix, next, has, contains, owner, insert_owner, unmap}
use go_gost_x.FakeIp.Search.{Found, found, none_left, spinning, search}

-- A range that is the zero Prefix is none, and so is a cursor that is the zero Addr.
pub record Allocator : Type 0 where
  pub inet4 : Option Prefix
  pub inet6 : Option Prefix
  pub by_addr : List (Ip × Text)
  pub by_domain4 : List (Text × Ip)
  pub by_domain6 : List (Text × Ip)
  pub current : Option Ip
  pub current6 : Option Ip

-- The errors of Create.
pub data Refusal : Type 0 where
  empty_domain missing_range exhausted : Refusal

pub data Created : Type 0 where
  created : Allocator → Ip → Created
  refused : Refusal → Created
  -- The loop has no end.
  hangs : Created

unfoldable pub new_allocator : Option Prefix → Option Prefix → Allocator
new_allocator inet4 inet6 = record {
  inet4 = inet4;
  inet6 = inet6;
  by_addr = [];
  by_domain4 = [];
  by_domain6 = [];
  current = none;
  current6 = none;
}

abbrev pub by_domain : Allocator → Bool → List (Text × Ip)
by_domain s is6 = if is6 then s.by_domain6 else s.by_domain4

abbrev pub range_of : Allocator → Bool → Option Prefix
range_of s is6 = if is6 then s.inet6 else s.inet4

abbrev pub cursor : Allocator → Bool → Option Ip
cursor s is6 = if is6 then s.current6 else s.current

-- The writes at the end of Create.
abbrev pub record_ip : Allocator → Text → Bool → Ip → Allocator
record_ip s domain is6 a =
    if is6
    then record s {
      by_addr = insert_owner a domain s.by_addr;
      current6 = some a;
      by_domain6 = insert domain a s.by_domain6;
    }
    else record s {
      by_addr = insert_owner a domain s.by_addr;
      current = some a;
      by_domain4 = insert domain a s.by_domain4;
    }

-- cur.Next(), or the first address where that is not in the range.
abbrev start_of : Prefix → Option Ip → ℕ → ℕ
start_of r none first = first
start_of r (some cur) first = if contains r (next cur) then cur.value + 1 else first

abbrev pub used : Allocator → Prefix → ℕ → Bool
used s r v = elim (owner (record { v4 = r.v4; value = v }) s.by_addr) [
  | none ↦ false
  | some d ↦ true
]

abbrev pub taken : Allocator → Prefix → ℕ → Bool
taken s r v = v == r.value || used s r v

abbrev settle : Allocator → Text → Bool → Prefix → Found → Created
settle s domain is6 r (found v) =
    let a : Ip = record { v4 = r.v4; value = v } in created (record_ip s domain is6 a) a
settle s domain is6 r none_left = refused exhausted
settle s domain is6 r spinning = hangs

abbrev allocate : Allocator → Text → Bool → Option Prefix → Created
allocate s domain is6 none = refused missing_range
allocate s domain is6 (some r) =
    let first = r.value + 1 in
    if not (has r first)
    then refused exhausted
    else settle s domain is6 r (search (taken s r) r first (start_of r (cursor s is6) first))

abbrev create_new : Allocator → Text → Bool → Option Ip → Created
create_new s domain is6 none = allocate s domain is6 (range_of s is6)
create_new s domain is6 (some a) = created s a

unfoldable pub create_named : Allocator → Text → Bool → Created
unfolding search
create_named s domain is6 =
    if is_empty domain
    then refused empty_domain
    else create_new s domain is6 (lookup domain (by_domain s is6))

-- strings.TrimSuffix(s, ".")
abbrev trim_dot : Text → Text
trim_dot [] = []
trim_dot (c ∷ []) = if c == 46 then [] else c ∷ []
trim_dot (c ∷ d ∷ s) = c ∷ trim_dot (d ∷ s)

module _ (trim lower : Text → Text) where
  unfoldable pub normalize : Text → Text
  normalize domain = lower (trim_dot (trim domain))

  unfoldable pub create : Allocator → Text → Bool → Created
  unfolding create_named normalize
  create s domain is6 = create_named s (normalize domain) is6

unfoldable pub find_domain : Allocator → Ip → Option Text
find_domain s a = owner (unmap a) s.by_addr

abbrev pub in_range : Option Prefix → Ip → Bool
in_range none a = false
in_range (some r) a = contains r (some a)

unfoldable pub contains_ip : Allocator → Ip → Bool
contains_ip s a = in_range s.inet4 (unmap a) || in_range s.inet6 (unmap a)
