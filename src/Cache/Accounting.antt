-- ===== src/Cache/Accounting.antt =====
-- The count of the bytes stored.
use go_gost_x.Prelude.{
  ℕ, suc, ◌+◌, ◌≡◌, refl, ◌∙◌, ap, [], ◌∷◌, Option, none, some, arith, ℤ, pos, ◌+ℤ◌, ◌-ℤ◌, length,
}
use go_gost_x.Text.{Text, text_eq_iff, lookup, insert, delete, lookup-insert, lookup-delete}
use go_gost_x.Cache.{Entry, Entries, MemoryCache, size, sweep, cleanup, remove, old_size}

abbrev pub total : Entries → ℕ
total [] = 0
total ((k, e) ∷ m) = size e + total m

-- No key stands twice.
abbrev pub Unique : Entries → Type 0
Unique [] = Unit {0}
Unique ((k, e) ∷ m) = (lookup k m ≡ none) × Unique m

pub record IsCounted (c : MemoryCache) : Type 0 where
  pub unique : Unique c.entries
  pub counted : c.current_bytes ≡ pos (total c.entries)

sub_exact : (n k : ℕ) → pos (n + k) -ℤ pos n ≡ pos k
unfolding ◌-ℤ◌
sub_exact n k = ground arith

add_exact : (n k : ℕ) → pos n +ℤ pos k ≡ pos (n + k)
unfolding ◌+ℤ◌
add_exact n k = ground arith

lookup-sweep :
    (k : Text) (now : ℤ) (m : Entries) (b : ℤ)
    → lookup k m ≡ none
    → lookup k (sweep now m b).0 ≡ none
unfolding sweep
lookup-sweep k now [] b h = refl
lookup-sweep k now ((j, e) ∷ m) b h =
    ground (arith, lookup-sweep k now m (b -ℤ pos (size e)), lookup-sweep k now m b)

sweep-Unique : (now : ℤ) (m : Entries) (b : ℤ) → Unique m → Unique (sweep now m b).0
unfolding sweep
sweep-Unique now [] b u = tt
sweep-Unique now ((j, e) ∷ m) b u = ground (
  arith,
  sweep-Unique now m (b -ℤ pos (size e)) u.1,
  sweep-Unique now m b u.1,
  lookup-sweep j now m b u.0,
)

sweep-total :
    (now : ℤ) (m : Entries) (n : ℕ) (b : ℤ)
    → b ≡ pos (total m + n)
    → (sweep now m b).1 ≡ pos (total (sweep now m b).0 + n)
unfolding sweep ◌-ℤ◌
sweep-total now [] n b h = h
sweep-total now ((j, e) ∷ m) n b h = ground (
  arith,
  sweep-total now m n (b -ℤ pos (size e)) (ground arith),
  sweep-total now m (n + size e) b (ground arith),
)

pub cleanup-IsCounted : (c : MemoryCache) (now : ℤ) → IsCounted c → IsCounted (cleanup c now)
unfolding cleanup
cleanup-IsCounted c now v = record {
  unique = sweep-Unique now c.entries c.current_bytes v.unique;
  counted = sweep-total now c.entries 0 c.current_bytes (ground arith) ∙ ap pos (omega arith);
}

delete-absent : (k : Text) (m : Entries) → lookup k m ≡ none → delete k m ≡ m
delete-absent k [] h = refl
delete-absent k ((j, e) ∷ m) h = ground (arith, delete-absent k m)

pub delete-Unique : (k : Text) (m : Entries) → Unique m → Unique (delete k m)
delete-Unique k [] u = tt
delete-Unique k ((j, e) ∷ m) u = ground (arith, delete-Unique k m u.1, lookup-delete k j m)

pub total-delete :
    (k : Text) (m : Entries) (e : Entry)
    → Unique m
    → lookup k m ≡ some e
    → (total m ≡ size e + total (delete k m)) × (length m ≡ suc (length (delete k m)))
total-delete k [] e u h = cc
total-delete k ((j, d) ∷ m) e u h =
    ground (arith, total-delete k m e u.1, delete-absent k m, text_eq_iff j k)

pub insert-Unique : (k : Text) (e : Entry) (m : Entries) → Unique m → Unique (insert k e m)
insert-Unique k e [] u = (refl, tt)
insert-Unique k e ((j, d) ∷ m) u =
    ground (arith, insert-Unique k e m u.1, lookup-insert k j e m, text_eq_iff j k, text_eq_iff k j)

pub total-insert :
    (k : Text) (e : Entry) (m : Entries)
    → total (insert k e m) + old_size (lookup k m) ≡ size e + total m
total-insert k e [] = omega arith
total-insert k e ((j, d) ∷ m) = ground (arith, total-insert k e m)

pub remove-IsCounted :
    (k : Text) (c : MemoryCache) → IsCounted c → IsCounted (remove k (lookup k c.entries) c)
remove-IsCounted k c v = go (lookup k c.entries) refl
  where
    go : (o : Option Entry) → lookup k c.entries ≡ o → IsCounted (remove k o c)
    go none h = v
    go (some e) h = record {
      unique = delete-Unique k c.entries v.unique;
      counted =
          ap (λ b. b -ℤ pos (size e)) (v.counted ∙ ap pos (total-delete k c.entries e v.unique h).0)
          ∙ sub_exact (size e) (total (delete k c.entries));
    }
