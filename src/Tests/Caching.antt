-- ===== src/Tests/Caching.antt =====
-- A cache of two entries and ten bytes.
use go_gost_x.Prelude.{
  false, ◌≡◌, inr, List, [], ◌∷◌, none, some, arith, ℤ, pos, ◌+ℤ◌, if◌then◌else◌,
}
use go_gost_x.Text.{text_eq}
use go_gost_x.Cache.{
  lru, Entry, Entries, MemoryCache, new_memory_cache, over_capacity, set, get, expiration_of,
  ttl_of,
}
use go_gost_x.Cache.Accounting.{IsCounted}
use go_gost_x.Cache.History.{Event, gets, sets, run, run-new_memory_cache-Settled}
use go_gost_x.Cache.Lookup.{HasRoom, get-set}

abbrev history : List (ℤ × Event)
history =
    (pos 1, sets (97 ∷ []) (1 ∷ 2 ∷ []) (pos 5))
    ∷ (pos 2, sets (98 ∷ []) (3 ∷ []) (pos 0))
    ∷ (pos 3, gets (97 ∷ []))
    ∷ (pos 4, sets (99 ∷ []) (4 ∷ []) (pos 0))
    ∷ []

run-new_memory_cache-Settled_example :
    IsCounted (run (new_memory_cache (pos 0) (pos 2) (pos 10) lru) history)
    × (over_capacity (run (new_memory_cache (pos 0) (pos 2) (pos 10) lru) history) ≡ false)
run-new_memory_cache-Settled_example =
    run-new_memory_cache-Settled (pos 0) (pos 2) (pos 10) lru history

abbrev small : MemoryCache
small = new_memory_cache (pos 60) (pos 2) (pos 10) lru

small-HasRoom : HasRoom small (1 ∷ 2 ∷ [])
unfolding new_memory_cache ◌+ℤ◌
small-HasRoom = record { slots = inr (omega arith); bytes = inr (omega arith) }

get-set_example : (get (set small (97 ∷ []) (1 ∷ 2 ∷ []) (pos 0) (pos 7)) (97 ∷ []) (pos 100)).1 ≡ (
    if text_eq (97 ∷ []) (97 ∷ [])
    then some (1 ∷ 2 ∷ [], expiration_of (ttl_of small (pos 0)) (pos 7))
    else (get small (97 ∷ []) (pos 100)).1)
get-set_example =
    get-set small (97 ∷ []) (1 ∷ 2 ∷ []) (97 ∷ []) (pos 0) (pos 7) (pos 100) small-HasRoom

abbrev at_time : ℤ → ℤ → Entry
at_time made seen = record { content = []; expiration = none; created = made; last_access = seen }

abbrev two : Entries
two = (97 ∷ [], at_time (pos 1) (pos 9)) ∷ (98 ∷ [], at_time (pos 2) (pos 3)) ∷ []
