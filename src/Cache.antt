-- ===== src/Cache.antt =====
-- cache/memory.go: the in-memory cache. The entries are an association list: a loop over the map
-- goes in the list's order, one of those that Go may take. time.Now is the argument `now`, one
-- reading for a call. The goroutine's ticks are calls of `cleanup`.
pub mod Accounting
pub mod Bounds
pub mod History
pub mod Lookup
use go_gost_x.Prelude.{
  ℕ, zero, suc, ◌+◌, Bool, true, false, not, ◌&&◌, ◌||◌, List, [], ◌∷◌, Option, none, some, ℤ, pos,
  ◌+ℤ◌, ◌-ℤ◌, ltb_ℤ, leb_ℤ, length, if◌then◌else◌,
}
use go_gost_x.Text.{Text, lookup, insert, delete}

-- EvictOldest, EvictLRU; NewMemoryCache takes any other policy for the first.
pub data Eviction : Type 0 where
  oldest lru : Eviction

-- A zero expiration is none.
pub record Entry : Type 0 where
  pub content : Text
  pub expiration : Option ℤ
  pub created : ℤ
  pub last_access : ℤ

abbrev pub Entries : Type 0
Entries = List (Text × Entry)

pub record MemoryCache : Type 0 where
  pub entries : Entries
  pub current_bytes : ℤ
  pub default_ttl : ℤ
  pub max_size : ℤ
  pub max_bytes : ℤ
  pub eviction : Eviction

unfoldable pub new_memory_cache : ℤ → ℤ → ℤ → Eviction → MemoryCache
new_memory_cache ttl size bytes policy = record {
  entries = [];
  current_bytes = pos 0;
  default_ttl = ttl;
  max_size = size;
  max_bytes = bytes;
  eviction = policy;
}

abbrev pub size : Entry → ℕ
size e = length e.content

-- !e.expiration.IsZero() && now.After(e.expiration)
abbrev pub expired_at : Option ℤ → ℤ → Bool
expired_at none now = false
expired_at (some t) now = ltb_ℤ t now

abbrev pub over_capacity : MemoryCache → Bool
over_capacity c =
    if ltb_ℤ (pos 0) c.max_size && ltb_ℤ c.max_size (pos (length c.entries))
    then true
    else if ltb_ℤ (pos 0) c.max_bytes && ltb_ℤ c.max_bytes c.current_bytes
    then true
    else false

-- The loop that drops the expired entries, with the bytes left.
sweep : ℤ → Entries → ℤ → Entries × ℤ
sweep now [] bytes = ([], bytes)
sweep now ((k, e) ∷ m) bytes =
    let gone = expired_at e.expiration now in
    let (m', bytes') = sweep now m (if gone then bytes -ℤ pos (size e) else bytes) in
    if gone then (m', bytes') else ((k, e) ∷ m', bytes')

unfoldable pub cleanup : MemoryCache → ℤ → MemoryCache
unfolding sweep ◌-ℤ◌
cleanup c now =
    let (m, bytes) = sweep now c.entries c.current_bytes in
    record c { entries = m; current_bytes = bytes }

abbrev pub stamp : Eviction → Entry → ℤ
stamp oldest e = e.created
stamp lru e = e.last_access

abbrev earlier : ℤ → Option (Text × ℤ) → Bool
earlier ts none = true
earlier ts (some (k, best)) = ltb_ℤ ts best

-- The loop that finds the victim, with the best key and time so far.
unfoldable pub pick : Eviction → Entries → Option (Text × ℤ) → Option (Text × ℤ)
pick policy [] best = best
pick policy ((k, e) ∷ m) best =
    pick policy m (if earlier (stamp policy e) best then some (k, stamp policy e) else best)

abbrev remove : Text → Option Entry → MemoryCache → MemoryCache
remove k none c = c
remove k (some e) c = record c {
  entries = delete k c.entries;
  current_bytes = c.current_bytes -ℤ pos (size e);
}

abbrev drop_victim : Option (Text × ℤ) → MemoryCache → MemoryCache
drop_victim none c = c
drop_victim (some (k, ts)) c = remove k (lookup k c.entries) c

abbrev is_nil : Entries → Bool
is_nil [] = true
is_nil (e ∷ m) = false

-- The loop that evicts by policy. Each round takes one entry away, so as many rounds as there are
-- entries are enough.
evict_loop : ℕ → MemoryCache → MemoryCache
evict_loop zero c = c
evict_loop (suc fuel) c =
    let rest = evict_loop fuel (drop_victim (pick c.eviction c.entries none) c) in
    if over_capacity c && not (is_nil c.entries) then rest else c

unfoldable pub evict : MemoryCache → ℤ → MemoryCache
unfolding evict_loop pick cleanup
evict c now =
    if not (over_capacity c)
    then c
    else (let c' = cleanup c now in evict_loop (length c'.entries) c')

abbrev old_size : Option Entry → ℕ
old_size none = 0
old_size (some e) = size e

abbrev pub ttl_of : MemoryCache → ℤ → ℤ
ttl_of c ttl = if leb_ℤ ttl (pos 0) then c.default_ttl else ttl

abbrev pub expiration_of : ℤ → ℤ → Option ℤ
expiration_of ttl now = if ltb_ℤ (pos 0) ttl then some (now +ℤ ttl) else none

abbrev pub entry_of : MemoryCache → Text → ℤ → ℤ → Entry
entry_of c content ttl now = record {
  content = content;
  expiration = expiration_of (ttl_of c ttl) now;
  created = now;
  last_access = now;
}

-- The entry stored, before the eviction.
pub store : MemoryCache → Text → Entry → MemoryCache
store c key e = record c {
  entries = insert key e c.entries;
  current_bytes = c.current_bytes -ℤ pos (old_size (lookup key c.entries)) +ℤ pos (size e);
}

unfoldable pub set : MemoryCache → Text → Text → ℤ → ℤ → MemoryCache
unfolding store evict ◌+ℤ◌
set c key content ttl now = evict (store c key (entry_of c content ttl now)) now

-- cache.Entry, or none for ErrNotFound; an access is noted.
unfoldable pub get : MemoryCache → Text → ℤ → MemoryCache × Option (Text × Option ℤ)
get c key now = elim (lookup key c.entries) [
  | none ↦ (c, none)
  | some e ↦ (
    record c { entries = insert key (record e { last_access = now }) c.entries },
    some (e.content, e.expiration),
  )
]

unfoldable pub drop_key : MemoryCache → Text → MemoryCache
unfolding ◌-ℤ◌
drop_key c key = remove key (lookup key c.entries) c
