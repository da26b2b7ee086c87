-- ===== src/Cache/Bounds.antt =====
-- The bounds on the number of entries and of bytes.
use go_gost_x.Prelude.{
  ℕ, zero, suc, ◌≤◌, ◌≡◌, refl, ◌∙◌, ap, sym, ◌⊎◌, inl, inr, Bool, true, false, not, ◌&&◌, [], ◌∷◌,
  Option, none, some, arith, ℤ, ◌+ℤ◌, ◌-ℤ◌, length, if◌then◌else◌, Bool-cases,
}
use go_gost_x.Text.{Text, text_eq, text_eq_iff, lookup}
use go_gost_x.Cache.{
  Eviction, Entry, Entries, MemoryCache, stamp, earlier, cleanup, pick, drop_victim, is_nil,
  evict_loop, evict, store, over_capacity,
}
use go_gost_x.Cache.Accounting.{
  IsCounted, cleanup-IsCounted, remove-IsCounted, total-delete, insert-Unique, total-insert,
}

drop_victim-IsCounted :
    (p : Option (Text × ℤ)) (c : MemoryCache) → IsCounted c → IsCounted (drop_victim p c)
drop_victim-IsCounted none c v = v
drop_victim-IsCounted (some (k, ts)) c v = remove-IsCounted k c v

evict_loop-IsCounted : (fuel : ℕ) (c : MemoryCache) → IsCounted c → IsCounted (evict_loop fuel c)
unfolding evict_loop
evict_loop-IsCounted zero c v = v
evict_loop-IsCounted (suc fuel) c v =
    go (over_capacity c && not (is_nil c.entries))
      (evict_loop-IsCounted fuel _ (drop_victim-IsCounted (pick c.eviction c.entries none) c v))
  where
    go :
        (b : Bool)
        → IsCounted (evict_loop fuel (drop_victim (pick c.eviction c.entries none) c))
        → IsCounted
            (if b then evict_loop fuel (drop_victim (pick c.eviction c.entries none) c) else c)
    go true w = w
    go false w = v

pub evict-IsCounted : (c : MemoryCache) (now : ℤ) → IsCounted c → IsCounted (evict c now)
unfolding evict
evict-IsCounted c now v = go (not (over_capacity c))
  where
    swept : MemoryCache
    swept = cleanup c now

    go : (b : Bool) → IsCounted (if b then c else evict_loop (length swept.entries) swept)
    go true = v
    go false = evict_loop-IsCounted _ swept (cleanup-IsCounted c now v)

pub store-IsCounted :
    (c : MemoryCache) (k : Text) (e : Entry) → IsCounted c → IsCounted (store c k e)
unfolding store ◌-ℤ◌ ◌+ℤ◌
store-IsCounted c k e v = record {
  unique = insert-Unique k e c.entries v.unique;
  counted = ground (arith, v.counted, total-insert k e c.entries);
}

-- A victim is found, and it is an entry.
pick-some :
    (policy : Eviction) (m : Entries) (p : Text × ℤ)
    → (q : Text × ℤ) × (pick policy m (some p) ≡ some q)
unfolding pick
pick-some policy [] p = (p, refl)
pick-some policy ((k, e) ∷ m) p = elim (Bool-cases (earlier (stamp policy e) (some p))) [
  | inl b ↦ rw b (pick-some policy m (k, stamp policy e))
  | inr b ↦ rw b (pick-some policy m p)
]

abbrev Present : Text → Entries → Type 0
Present k m = (e : Entry) × (lookup k m ≡ some e)

Present-cons : (k j : Text) (e : Entry) (m : Entries) → Present k m → Present k ((j, e) ∷ m)
Present-cons k j e m (d, h) = elim (Bool-cases (text_eq j k)) [
  | inl b ↦ (e, rw b refl)
  | inr b ↦ (d, rw b h)
]

pick-Present :
    (policy : Eviction) (m : Entries) (best : Option (Text × ℤ)) (k : Text) (t : ℤ)
    → pick policy m best ≡ some (k, t)
    → (best ≡ some (k, t)) ⊎ Present k m
unfolding pick
pick-Present policy [] best k t h = inl h
pick-Present policy ((j, e) ∷ m) best k t h = elim (Bool-cases (earlier (stamp policy e) best)) [
  | inl b ↦
      (elim (pick-Present policy m (next true) k t (ap (λ c. pick policy m (next c)) (sym b) ∙ h)) [
        | inl eq ↦ inr (e, ground (arith, (text_eq_iff j k), ap fst_of eq))
        | inr w ↦ inr (Present-cons k j e m w)
      ])
  | inr b ↦
      (elim (pick-Present policy m (next false) k t
        (ap (λ c. pick policy m (next c)) (sym b) ∙ h)) [
          | inl eq ↦ inl eq
          | inr w ↦ inr (Present-cons k j e m w)
        ])
]
  where
    next : Bool → Option (Text × ℤ)
    next b = if b then some (j, stamp policy e) else best

    fst_of : Option (Text × ℤ) → Text
    fst_of none = j
    fst_of (some p) = p.0

victim :
    (policy : Eviction) (m : Entries)
    → is_nil m ≡ false
    → (q : Text × ℤ) × (pick policy m none ≡ some q) × Present q.0 m
unfolding pick
victim policy [] h = cc
victim policy ((j, e) ∷ m) h =
    let (q, eq) = pick-some policy m (j, stamp policy e) in
    (q, eq, elim (pick-Present policy ((j, e) ∷ m) none q.0 q.1 eq) [ inl b ↦ cc | inr w ↦ w ])

-- One round takes one entry away.
drop_victim-length :
    (c : MemoryCache)
    → IsCounted c
    → is_nil c.entries ≡ false
    → length c.entries ≡ suc (length (drop_victim (pick c.eviction c.entries none) c).entries)
drop_victim-length c v h =
    let (q, eq, (d, found)) = victim c.eviction c.entries h in
    rw eq (rw found ((total-delete q.0 c.entries d v.unique found).1))

abbrev pub Within : MemoryCache → Type 0
Within c = over_capacity c ≡ false

nil-Within : (c : MemoryCache) → IsCounted c → is_nil c.entries ≡ true → Within c
nil-Within c v h = go c.entries refl
  where
    go : (m : Entries) → c.entries ≡ m → Within c
    go [] eq = rw v.counted (rw eq (ground arith))
    go (e ∷ m) eq = cc

is_nil-length : (m : Entries) → length m ≤ 0 → is_nil m ≡ true
is_nil-length [] h = refl
is_nil-length (e ∷ m) h = ground arith

evict_loop-Within :
    (fuel : ℕ) (c : MemoryCache)
    → IsCounted c
    → length c.entries ≤ fuel
    → Within (evict_loop fuel c)
unfolding evict_loop
evict_loop-Within zero c v h = nil-Within c v (is_nil-length c.entries h)
evict_loop-Within (suc fuel) c v h = elim (Bool-cases (is_nil c.entries)) [
  | inl b ↦ rw b (rw (nil-Within c v b) (nil-Within c v b))
  | inr b ↦ rw b (elim (Bool-cases (over_capacity c)) [
    | inl o ↦ rw o (
        evict_loop-Within fuel (drop_victim (pick c.eviction c.entries none) c)
          (drop_victim-IsCounted (pick c.eviction c.entries none) c v)
          (let p = drop_victim-length c v b in omega arith))
    | inr o ↦ rw o o
  ])
]

pub evict-Within : (c : MemoryCache) (now : ℤ) → IsCounted c → Within (evict c now)
unfolding evict
evict-Within c now v = elim (Bool-cases (over_capacity c)) [
  | inl o ↦
      rw o
        (evict_loop-Within (length swept.entries) swept (cleanup-IsCounted c now v) (omega arith))
  | inr o ↦ rw o o
]
  where
    swept : MemoryCache
    swept = cleanup c now
