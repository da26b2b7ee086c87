-- ===== src/Cache/History.antt =====
-- The calls of a cache and the ticks of its clean-up, one after the other.
use go_gost_x.Prelude.{
  ℕ, ◌+◌, ◌≤◌, ◌≡◌, refl, ◌∙◌, ap, sym, false, List, [], ◌∷◌, Option, none, some, arith, ℤ, pos,
  ◌-ℤ◌, ◌≤ℤ◌, length,
}
use go_gost_x.Text.{Text, lookup, insert}
use go_gost_x.Cache.{
  Eviction, Entry, Entries, MemoryCache, new_memory_cache, size, sweep, cleanup, remove, old_size,
  store, set, get, drop_key, entry_of, over_capacity,
}
use go_gost_x.Cache.Accounting.{
  total, IsCounted, cleanup-IsCounted, remove-IsCounted, total-delete, insert-Unique, total-insert,
}
use go_gost_x.Cache.Bounds.{Within, evict-IsCounted, store-IsCounted, evict-Within}

-- Fewer entries of fewer bytes stay within the bounds.
Within-mono :
    (c d : MemoryCache)
    → d.max_size ≡ c.max_size
    → d.max_bytes ≡ c.max_bytes
    → length d.entries ≤ length c.entries
    → d.current_bytes ≤ℤ c.current_bytes
    → Within c
    → Within d
Within-mono c d hs hb hl hc h = rw hs (rw hb (ground arith))

sweep-less :
    (now : ℤ) (m : Entries) (b : ℤ)
    → (length (sweep now m b).0 ≤ length m) × ((sweep now m b).1 ≤ℤ b)
unfolding sweep ◌-ℤ◌
sweep-less now [] b = ground arith
sweep-less now ((k, e) ∷ m) b =
    ground (arith, sweep-less now m b, sweep-less now m (b -ℤ pos (size e)))

cleanup-Within : (c : MemoryCache) (now : ℤ) → Within c → Within (cleanup c now)
unfolding cleanup
cleanup-Within c now =
    Within-mono c (cleanup c now) refl refl (sweep-less now c.entries c.current_bytes).0
      (sweep-less now c.entries c.current_bytes).1

sub_less : (b : ℤ) (n : ℕ) → b -ℤ pos n ≤ℤ b
unfolding ◌-ℤ◌
sub_less b n = ground arith

remove-Within :
    (k : Text) (c : MemoryCache) → IsCounted c → Within c → Within (remove k (lookup k c.entries) c)
remove-Within k c v h = go (lookup k c.entries) refl
  where
    go : (o : Option Entry) → lookup k c.entries ≡ o → Within (remove k o c)
    go none eq = h
    go (some e) eq =
        Within-mono c (remove k (some e) c) refl refl
          (let p = (total-delete k c.entries e v.unique eq).1 in omega arith)
          (sub_less c.current_bytes (size e)) h

-- Reading an entry again changes neither its bytes nor the number of entries.
insert-length :
    (k : Text) (e d : Entry) (m : Entries) → lookup k m ≡ some e → length (insert k d m) ≡ length m
insert-length k e d [] h = cc
insert-length k e d ((j, x) ∷ m) h = ground (arith, insert-length k e d m)

insert-total :
    (k : Text) (e d : Entry) (m : Entries)
    → size d ≡ size e
    → lookup k m ≡ some e
    → total (insert k d m) ≡ total m
insert-total k e d m hd h =
    let t : total (insert k d m) + size e ≡ size d + total m =
      ap (λ o. total (insert k d m) + old_size o) (sym h) ∙ total-insert k d m in
    omega arith

get-Settled :
    (c : MemoryCache) (k : Text) (now : ℤ)
    → IsCounted c
    → Within c
    → IsCounted (get c k now).0 × Within (get c k now).0
unfolding get
get-Settled c k now v h = go (lookup k c.entries) refl
  where
    visited : Option Entry → MemoryCache × Option (Text × Option ℤ)
    visited o = elim o [
      | none ↦ (c, none)
      | some e ↦ (
        record c { entries = insert k (record e { last_access = now }) c.entries },
        some (e.content, e.expiration),
      )
    ]

    go :
        (o : Option Entry) → lookup k c.entries ≡ o → IsCounted (visited o).0 × Within (visited o).0
    go none eq = (v, h)
    go (some e) eq =
        let d : Entry = record e { last_access = now } in
        (
          record {
            unique = insert-Unique k d c.entries v.unique;
            counted = v.counted ∙ ap pos (sym (insert-total k e d c.entries refl eq));
          },
          rw (insert-length k e d c.entries eq) h,
        )

-- What happens to a cache: a call, or a tick of the loop that cleans it up.
pub data Event : Type 0 where
  gets : Text → Event
  sets : Text → Text → ℤ → Event
  drops : Text → Event
  ticks : Event

abbrev pub step : MemoryCache → ℤ → Event → MemoryCache
step c now (gets k) = (get c k now).0
step c now (sets k content ttl) = set c k content ttl now
step c now (drops k) = drop_key c k
step c now ticks = cleanup c now

abbrev pub run : MemoryCache → List (ℤ × Event) → MemoryCache
run c [] = c
run c ((now, e) ∷ es) = run (step c now e) es

step-Settled :
    (c : MemoryCache) (now : ℤ) (e : Event)
    → IsCounted c × Within c
    → IsCounted (step c now e) × Within (step c now e)
unfolding set drop_key
step-Settled c now (gets k) (v, h) = get-Settled c k now v h
step-Settled c now (sets k content ttl) (v, h) =
    let e = entry_of c content ttl now in
    let w = store-IsCounted c k e v in
    (evict-IsCounted (store c k e) now w, evict-Within (store c k e) now w)
step-Settled c now (drops k) (v, h) = (remove-IsCounted k c v, remove-Within k c v h)
step-Settled c now ticks (v, h) = (cleanup-IsCounted c now v, cleanup-Within c now h)

run-Settled :
    (c : MemoryCache) (es : List (ℤ × Event))
    → IsCounted c × Within c
    → IsCounted (run c es) × Within (run c es)
run-Settled c [] h = h
run-Settled c ((now, e) ∷ es) h = run-Settled (step c now e) es (step-Settled c now e h)

-- After any history of a new cache, whatever its calls and their times: no key has two entries, the
-- count of bytes is that of the entries' contents, and the cache is over neither of its bounds.
pub run-new_memory_cache-Settled :
    (ttl size bytes : ℤ) (policy : Eviction) (es : List (ℤ × Event))
    → IsCounted (run (new_memory_cache ttl size bytes policy) es)
      × (over_capacity (run (new_memory_cache ttl size bytes policy) es) ≡ false)
unfolding new_memory_cache
run-new_memory_cache-Settled ttl size bytes policy es =
    run-Settled (new_memory_cache ttl size bytes policy) es
      (record { unique = tt; counted = refl }, ground arith)
