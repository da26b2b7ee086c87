-- ===== src/Tests/Faking.antt =====
-- An allocator of 10.0.0.0/30.
use go_gost_x.Prelude.{
  not, if◌then◌else◌, List, ℕ, ◌==◌, subst, ap, sym, ◌≡◌, refl, Bool, true, false, [], ◌∷◌, Option,
  none, some,
}
use go_gost_x.Text.{is_empty, lookup, Text}
use go_gost_x.FakeIp.Addr.{
  ip_eq_iff, ip_eq, owner, Ip, Prefix, next, has, contains, unmap, base, size,
}
use go_gost_x.FakeIp.Search.{search, rounds}
use go_gost_x.FakeIp.{
  cursor, range_of, by_domain, normalize, Allocator, created, refused, exhausted, new_allocator,
  create_named, create, find_domain,
}
use go_gost_x.FakeIp.Invariant.{IsSound}
use go_gost_x.FakeIp.Creation.{Outcome}
use go_gost_x.FakeIp.Lifetime.{Call, creates, live, create-Outcome}
use go_gost_x.FakeIp.History.{run, after, new_allocator-IsSound, run-create_named}
use go_gost_x.FakeIp.State.{snapshot, State, ok, load}
use go_gost_x.FakeIp.State.Filling.{IsMasked}
use go_gost_x.FakeIp.State.Loading.{load-IsSound}
use go_gost_x.FakeIp.State.RoundTrip.{IsCodec, load-snapshot}
use go_gost_x.FakeIp.State.Restore.{IsStorable}

abbrev ten : Prefix
ten = record { v4 = true; value = 167772160; bits = 30 }

abbrev fresh : Allocator
fresh = new_allocator (some ten) none

abbrev family_of : Option Prefix → Bool
family_of none = true
family_of (some r) = r.v4

fresh-IsSound : IsSound fresh
fresh-IsSound = new_allocator-IsSound (some ten) none (λ r h. sym (ap family_of h)) (λ r h. cc)

abbrev first_ip : Ip
first_ip = record { v4 = true; value = 167772161 }

abbrev used_up : Allocator
used_up = run fresh ((97 ∷ [], false) ∷ (98 ∷ [], false) ∷ (99 ∷ [], false) ∷ [])

-- Three of the four addresses are given away.
no_fourth : create_named used_up (100 ∷ []) false ≡ refused exhausted
unfolding create_named new_allocator search rounds has contains next base size run
no_fourth = refl

first_created :
    create_named fresh (97 ∷ []) false
    ≡ created (after fresh (create_named fresh (97 ∷ []) false)) first_ip
unfolding create_named new_allocator search rounds has contains next base size
first_created = refl

run-create_named_example :
    (find_domain
        (run (after fresh (create_named fresh (97 ∷ []) false)) ((98 ∷ [], false) ∷ []))
        first_ip
      ≡ some (97 ∷ []))
    × (create_named
          (run (after fresh (create_named fresh (97 ∷ []) false)) ((98 ∷ [], false) ∷ []))
          (97 ∷ [])
          false
        ≡ created
            (run (after fresh (create_named fresh (97 ∷ []) false)) ((98 ∷ [], false) ∷ []))
            first_ip)
unfolding unmap
run-create_named_example =
    run-create_named fresh (after fresh (create_named fresh (97 ∷ []) false)) (97 ∷ []) false
      first_ip ((98 ∷ [], false) ∷ []) fresh-IsSound first_created refl

-- A snapshot with one entry, without cursors.
abbrev one_entry : State
one_entry = record {
  version = 1;
  inet4 = 49 ∷ [];
  inet6 = [];
  current4 = [];
  current6 = [];
  entries = record { domain = 97 ∷ []; addr = 50 ∷ [] } ∷ [];
}

abbrev as_is : Text → Text
as_is s = s

abbrev one_state : Text → Option State
one_state s = some one_entry

abbrev ten_prefix : Text → Option Prefix
ten_prefix s = some ten

abbrev ten_addr : Text → Option Ip
ten_addr s = some first_ip

abbrev loaded : Allocator
loaded = record {
  inet4 = some ten;
  inet6 = none;
  by_addr = (first_ip, 97 ∷ []) ∷ [];
  by_domain4 = (97 ∷ [], first_ip) ∷ [];
  by_domain6 = [];
  current = some first_ip;
  current6 = none;
}

loads : load one_state ten_prefix ten_addr as_is as_is fresh [] ≡ ok loaded
unfolding load new_allocator has contains base size unmap
loads = refl

fresh-IsMasked : IsMasked fresh
unfolding new_allocator base size
fresh-IsMasked true r h = cc
fresh-IsMasked false r h = let q : ten ≡ r = cc h in subst (λ (x : Prefix). base x ≡ x.value) q refl

-- A loaded name, and then a new one.
abbrev calls : List Call
calls = Call.loads [] ∷ creates (98 ∷ []) false ∷ []

create-Outcome_example :
    Outcome
      (live one_state ten_prefix ten_addr as_is as_is fresh calls)
      (normalize as_is as_is (99 ∷ []))
      false
      (create as_is as_is
        (live one_state ten_prefix ten_addr as_is as_is fresh calls)
        (99 ∷ [])
        false)
create-Outcome_example =
    create-Outcome one_state ten_prefix ten_addr as_is as_is (some ten) none calls (99 ∷ []) false
      (λ r h. sym (ap family_of h)) (λ r h. cc) fresh-IsMasked

load-IsSound_example : IsSound loaded × (loaded.inet4 ≡ fresh.inet4) × (loaded.inet6 ≡ fresh.inet6)
load-IsSound_example =
    load-IsSound one_state ten_prefix ten_addr as_is as_is fresh fresh-IsMasked [] loaded
      fresh-IsSound loads

-- Texts of numbers.
abbrev digit : Bool → ℕ
digit b = if b then 1 else 0

abbrev show_addr : Ip → Text
show_addr a = digit a.v4 ∷ a.value ∷ []

abbrev show_prefix : Prefix → Text
show_prefix p = digit p.v4 ∷ p.value ∷ p.bits ∷ []

abbrev read_addr : Text → Option Ip
read_addr [] = none
read_addr (b ∷ []) = none
read_addr (b ∷ v ∷ rest) = some (record { v4 = b == 1; value = v })

abbrev read_prefix : Text → Option Prefix
read_prefix [] = none
read_prefix (b ∷ []) = none
read_prefix (b ∷ v ∷ []) = none
read_prefix (b ∷ v ∷ n ∷ rest) = some (record { v4 = b == 1; value = v; bits = n })

digit_back : (b : Bool) → (digit b == 1) ≡ b
digit_back true = refl
digit_back false = refl

abbrev same_list : List (Ip × Text) → List (Ip × Text)
same_list m = m

abbrev written : State
written = snapshot show_prefix show_addr same_list loaded

abbrev read_state : Text → Option State
read_state s = some written

abbrev write_state : State → Text
write_state s = []

codec : IsCodec read_state write_state read_prefix show_prefix read_addr show_addr as_is as_is
codec = record {
  prefix_back =
      λ p. ap (λ b. some (record { v4 = b; value = p.value; bits = p.bits })) (digit_back p.v4);
  prefix_text = λ p. refl;
  addr_back = λ a. ap (λ b. some (record { v4 = b; value = a.value })) (digit_back a.v4);
  addr_text = λ a. refl;
}

loaded-IsMasked : IsMasked loaded
unfolding base size
loaded-IsMasked true r h = cc
loaded-IsMasked false r h =
    let q : ten ≡ r = cc h in subst (λ (x : Prefix). base x ≡ x.value) q refl

-- The one address in use.
only : (a : Ip) (d : Text) → owner a loaded.by_addr ≡ some d → (first_ip ≡ a) × ((97 ∷ []) ≡ d)
only a d h = go (ip_eq first_ip a) refl h
  where
    go :
        (c : Bool)
        → ip_eq first_ip a ≡ c
        → (if c then some (97 ∷ []) else none) ≡ some d
        → (first_ip ≡ a) × ((97 ∷ []) ≡ d)
    go true e k = ((ip_eq_iff first_ip a).0 e, cc)
    go false e k = cc

loaded-IsStorable : IsStorable as_is as_is loaded
unfolding normalize unmap
loaded-IsStorable = record {
  normal = λ a d h.
      subst (λ e. (normalize as_is as_is e ≡ e) × (is_empty e ≡ false)) (only a d h).1 (name, refl);
  plain = λ a d h. subst (λ b. unmap b ≡ b) (only a d h).0 address;
  ranged =
      λ a d h. (ten, subst (λ (b : Ip). range_of loaded (not b.v4) ≡ some ten) (only a d h).0 refl);
}
  where
    name : normalize as_is as_is (97 ∷ []) ≡ 97 ∷ []
    name = refl

    address : unmap first_ip ≡ first_ip
    address = refl

load-snapshot_example :
    (t : Allocator) × (load read_state read_prefix read_addr as_is as_is
        (new_allocator loaded.inet4 loaded.inet6)
        (write_state (snapshot show_prefix show_addr same_list loaded))
      ≡ ok t)
    × ((a : Ip) → owner a t.by_addr ≡ owner a loaded.by_addr)
    × ((is6 : Bool) (d : Text) → lookup d (by_domain t is6) ≡ lookup d (by_domain loaded is6))
    × ((is6 : Bool) (a : Ip) → cursor loaded is6 ≡ some a → cursor t is6 ≡ some a)
load-snapshot_example =
    load-snapshot read_state write_state read_prefix show_prefix read_addr show_addr as_is as_is
      loaded same_list codec load-IsSound_example.0 loaded-IsMasked loaded-IsStorable (refl, tt)
      (λ a. refl) refl
