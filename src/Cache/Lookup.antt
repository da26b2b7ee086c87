-- ===== src/Cache/Lookup.antt =====
-- What a Get finds after a Set, and which entry goes first.
use go_gost_x.Prelude.{
  suc, ◌≤◌, ◌≡◌, refl, ◌∙◌, ap, sym, ◌⊎◌, inl, inr, Bool, true, false, [], ◌∷◌, Option, none, some,
  arith, ℤ, pos, ◌+ℤ◌, ◌-ℤ◌, ◌≤ℤ◌, length, if◌then◌else◌, Bool-cases,
}
use go_gost_x.Text.{Text, text_eq, text_eq_iff, lookup, insert, lookup-insert}
use go_gost_x.Cache.{
  Eviction, Entry, Entries, MemoryCache, stamp, earlier, pick, store, set, get, evict, entry_of,
  ttl_of, expiration_of,
}
use go_gost_x.Cache.Accounting.{Unique}
use go_gost_x.Cache.Bounds.{Within}

insert-length_le : (k : Text) (d : Entry) (m : Entries) → length (insert k d m) ≤ suc (length m)
insert-length_le k d [] = ground arith
insert-length_le k d ((j, x) ∷ m) = ground (arith, insert-length_le k d m)

-- The cache takes one more entry of the content without an eviction.
pub record HasRoom (c : MemoryCache) (content : Text) : Type 0 where
  pub slots : (c.max_size ≤ℤ pos 0) ⊎ (pos (suc (length c.entries)) ≤ℤ c.max_size)
  pub bytes : (c.max_bytes ≤ℤ pos 0) ⊎ (c.current_bytes +ℤ pos (length content) ≤ℤ c.max_bytes)

store-Within : (c : MemoryCache) (k : Text) (e : Entry) → HasRoom c e.content → Within (store c k e)
unfolding store ◌-ℤ◌ ◌+ℤ◌
store-Within c k e room = ground (arith, insert-length_le k e c.entries, room.slots, room.bytes)

set-store :
    (c : MemoryCache) (k content : Text) (ttl now : ℤ)
    → HasRoom c content
    → set c k content ttl now ≡ store c k (entry_of c content ttl now)
unfolding set evict
set-store c k content ttl now room = rw (store-Within c k (entry_of c content ttl now) room) refl

abbrev shown : Option Entry → Option (Text × Option ℤ)
shown none = none
shown (some e) = some (e.content, e.expiration)

get-found : (c : MemoryCache) (k : Text) (now : ℤ) → (get c k now).1 ≡ shown (lookup k c.entries)
unfolding get
get-found c k now = go (lookup k c.entries)
  where
    visited : Option Entry → MemoryCache × Option (Text × Option ℤ)
    visited o = elim o [
      | none ↦ (c, none)
      | some e ↦ (
        record c { entries = insert k (record e { last_access = now }) c.entries },
        some (e.content, e.expiration),
      )
    ]

    go : (o : Option Entry) → (visited o).1 ≡ shown o
    go none = refl
    go (some e) = refl

shown-if :
    (b : Bool) (e : Entry) (o : Option Entry)
    → shown (if b then some e else o) ≡ (if b then shown (some e) else shown o)
shown-if true e o = refl
shown-if false e o = refl

-- When the cache has room for the content, a Get after a Set finds the content under its key with
-- the expiration of the Set, the default one where the lifetime is not positive, and under any other
-- key what it found before.
pub get-set :
    (c : MemoryCache) (k content j : Text) (ttl now later : ℤ)
    → HasRoom c content
    → (get (set c k content ttl now) j later).1 ≡ (
        if text_eq k j then some (content, expiration_of (ttl_of c ttl) now) else (get c j later).1)
unfolding store
get-set c k content j ttl now later room =
    let e = entry_of c content ttl now in
    rw (set-store c k content ttl now room) (
      get-found (store c k e) j later
      ∙ (ap shown (lookup-insert k j e c.entries)
          ∙ (shown-if (text_eq k j) e (lookup j c.entries)
              ∙ ap (λ o. if text_eq k j then shown (some e) else o) (sym (get-found c j later)))))

time_of : Option (Text × ℤ) → ℤ
time_of none = pos 0
time_of (some p) = p.1

abbrev next : Eviction → Entry → Text → Option (Text × ℤ) → Bool → Option (Text × ℤ)
next policy e i best b = if b then some (i, stamp policy e) else best

le-trans : (a b c : ℤ) → a ≤ℤ b → b ≤ℤ c → a ≤ℤ c
le-trans a b c h g = omega arith

stamp_of : Eviction → Option Entry → ℤ
stamp_of policy none = pos 0
stamp_of policy (some e) = stamp policy e

from_first :
    (policy : Eviction) (t : ℤ) (j : Text) (e : Entry) (m : Entries)
    → t ≤ℤ stamp policy e
    → ((i : Text) (d : Entry) → lookup i m ≡ some d → t ≤ℤ stamp policy d)
    → (i : Text) (d : Entry) → lookup i ((j, e) ∷ m) ≡ some d
    → t ≤ℤ stamp policy d
unfolding stamp_of
from_first policy t j e m le rest i d eq = go (text_eq j i) eq
  where
    go : (b : Bool) → (if b then some e else lookup i m) ≡ some d → t ≤ℤ stamp policy d
    go true eq = rw (sym (ap (stamp_of policy) eq)) le
    go false eq = rest i d eq

-- No entry has an earlier time than the one found, nor has the best so far.
pick-earliest :
    (policy : Eviction) (m : Entries) (j : Text) (s : ℤ) (k : Text) (t : ℤ)
    → pick policy m (some (j, s)) ≡ some (k, t)
    → (t ≤ℤ s) × ((i : Text) (d : Entry) → lookup i m ≡ some d → t ≤ℤ stamp policy d)
unfolding pick time_of
pick-earliest policy [] j s k t h = (ground (arith, ap time_of h), λ i d eq. cc)
pick-earliest policy ((i, e) ∷ m) j s k t h =
    elim (Bool-cases (earlier (stamp policy e) (some (j, s)))) [
      | inl b ↦
          (let (le, rest) =
              pick-earliest policy m i (stamp policy e) k t
                (ap (λ c. pick policy m (next policy e i (some (j, s)) c)) (sym b) ∙ h) in
            (ground (arith, b, le), from_first policy t i e m le rest))
      | inr b ↦
          (let (le, rest) =
              pick-earliest policy m j s k t
                (ap (λ c. pick policy m (next policy e i (some (j, s)) c)) (sym b) ∙ h) in
            (le, from_first policy t i e m (ground (arith, b, le)) rest))
    ]

earliest_all :
    (policy : Eviction) (m : Entries) (k : Text) (t : ℤ)
    → pick policy m none ≡ some (k, t)
    → (i : Text) (d : Entry) → lookup i m ≡ some d
    → t ≤ℤ stamp policy d
unfolding pick
earliest_all policy [] k t h i d eq = cc
earliest_all policy ((j, e) ∷ m) k t h i d eq =
    let (le, rest) = pick-earliest policy m j (stamp policy e) k t h in
    from_first policy t j e m le rest i d eq

-- The key found has an entry of the time found.
pick-Stamped :
    (policy : Eviction) (m : Entries) (best : Option (Text × ℤ)) (k : Text) (t : ℤ)
    → Unique m
    → pick policy m best ≡ some (k, t)
    → (best ≡ some (k, t)) ⊎ ((e : Entry) × (lookup k m ≡ some e) × (stamp policy e ≡ t))
unfolding pick time_of
pick-Stamped policy [] best k t u h = inl h
pick-Stamped policy ((i, e) ∷ m) best k t u h = elim (Bool-cases (earlier (stamp policy e) best)) [
  | inl b ↦
      (elim (pick-Stamped policy m (some (i, stamp policy e)) k t u.1
        (ap (λ c. pick policy m (next policy e i best c)) (sym b) ∙ h)) [
          | inl eq ↦ inr (e, ground (arith, text_eq_iff i k, ap key_of eq), ap time_of eq)
          | inr w ↦ inr (later w)
        ])
  | inr b ↦
      (elim (pick-Stamped policy m best k t u.1
        (ap (λ c. pick policy m (next policy e i best c)) (sym b) ∙ h)) [
          | inl eq ↦ inl eq
          | inr w ↦ inr (later w)
        ])
]
  where
    key_of : Option (Text × ℤ) → Text
    key_of none = i
    key_of (some p) = p.0

    later :
        (d : Entry) × (lookup k m ≡ some d) × (stamp policy d ≡ t)
        → (d : Entry) × (lookup k ((i, e) ∷ m) ≡ some d) × (stamp policy d ≡ t)
    later (d, found, eq) = (d, ground (arith, text_eq_iff i k, u.0, found), eq)

-- The victim of the policy is an entry, and no other has an earlier time: of insertion for the
-- oldest, of the last access for LRU.
pub pick-lowest :
    (policy : Eviction) (m : Entries) (k : Text) (t : ℤ)
    → Unique m
    → pick policy m none ≡ some (k, t)
    → (e : Entry) × (lookup k m ≡ some e)
      × ((j : Text) (d : Entry) → lookup j m ≡ some d → stamp policy e ≤ℤ stamp policy d)
pick-lowest policy m k t u h = elim (pick-Stamped policy m none k t u h) [
  | inl b ↦ cc
  | inr (e, found, eq) ↦ (e, found, λ j d at. rw eq (earliest_all policy m k t h j d at))
]
