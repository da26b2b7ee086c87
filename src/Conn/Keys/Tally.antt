-- ===== src/Conn/Keys/Tally.antt =====
-- Limiters that are made and given: the counts stay as they are.
use go_gost_x.Prelude.{
  ℕ, ◌<◌, ◌≤◌, ◌==◌, ◌≡◌, refl, ap, sym, ◌⊎◌, inl, inr, Bool, true, false, List, [], ◌∷◌, Option,
  none, some, if◌then◌else◌, ℤ, pos, ◌≤ℤ◌, max_int, ltb_ℤ, leb_ℤ, arith,
}
use go_gost_x.Conn.{Limiter, Heap, put}
use go_gost_x.Conn.Keys.{
  Generator, many, single, Store, new_limiter, generate, from_entry, CidrLimitEntry, from_nets,
}

-- No limiter counts over its limit, but one whose limit is the largest int.
abbrev pub Kept : Limiter → Type 0
Kept l = (l.current ≤ℤ l.limit) ⊎ (pos max_int ≤ℤ l.limit)

abbrev pub Within : Heap → Type 0
Within h = (j : ℕ) → Kept (h j)

put-Within : (h : Heap) (x : ℕ) (l : Limiter) → Within h → Kept l → Within (put h x l)
put-Within h x l w k j = go (x == j)
  where
    go : (b : Bool) → Kept (if b then l else h j)
    go true = k
    go false = w j

-- Each limiter counts `n` of its place, and no more than its limit.
pub record Tallied (n : ℕ → ℕ) (s : Store) : Type 0 where
  pub exact : (j : ℕ) → (s.heap j).current ≡ pos (n j)
  pub unused : (j : ℕ) → s.fresh ≤ j → n j ≡ 0
  pub within : Within s.heap

pub new_limiter-Tallied :
    (n : ℕ → ℕ) (k : ℤ) (s : Store)
    → ltb_ℤ (pos 0) k ≡ true
    → Tallied n s
    → Tallied n (new_limiter k s).0
unfolding new_limiter
new_limiter-Tallied n k s h t = record {
  exact = λ j. fresh_exact j (s.fresh == j) refl;
  unused = λ j le. t.unused j (omega arith);
  within =
      put-Within s.heap s.fresh (record { limit = k; current = pos 0 }) t.within
        (inl (ground arith));
}
  where
    fresh_exact :
        (j : ℕ) (b : Bool)
        → (s.fresh == j) ≡ b
        → (if b then record { limit = k; current = pos 0 } else s.heap j).current ≡ pos (n j)
    fresh_exact j true e = ap pos (sym (t.unused j (ground arith)))
    fresh_exact j false e = t.exact j

-- Where a limiter given at `s` comes from: the entry, or it is new.
pub record Given (n : ℕ → ℕ) (Source : ℕ → Type 0) (s : Store) (r : Store × List ℕ) : Type 0 where
  pub tallied : Tallied n r.0
  pub grows : s.fresh ≤ r.0.fresh
  pub one : (r.1 ≡ []) ⊎ ((x : ℕ) × (r.1 ≡ x ∷ []) × (x < r.0.fresh) × (Source x ⊎ (s.fresh ≤ x)))

many-Given :
    (n : ℕ → ℕ) (Source : ℕ → Type 0) (k : ℤ) (s : Store)
    → Tallied n s
    → Given n Source s (generate (many k) s)
unfolding generate new_limiter
many-Given n Source k s t = go (leb_ℤ k (pos 0)) refl
  where
    go :
        (b : Bool)
        → leb_ℤ k (pos 0) ≡ b
        → Given n Source s (if b then (s, []) else ((new_limiter k s).0, (new_limiter k s).1 ∷ []))
    go true e = record { tallied = t; grows = omega arith; one = inl refl }
    go false e = record {
      tallied = new_limiter-Tallied n k s (ground arith) t;
      grows = omega arith;
      one = inr (s.fresh, refl, omega arith, inr (omega arith));
    }

pub from_entry-Given :
    (n : ℕ → ℕ) (e : Option Generator) (s : Store)
    → ((x : ℕ) → e ≡ some (single (some x)) → x < s.fresh)
    → Tallied n s
    → Given n (λ x. e ≡ some (single (some x))) s (from_entry e s)
unfolding generate
from_entry-Given n none s h t = record { tallied = t; grows = omega arith; one = inl refl }
from_entry-Given n (some (many k)) s h t =
    many-Given n (λ x. some (many k) ≡ some (single (some x))) k s t
from_entry-Given n (some (single none)) s h t = record {
  tallied = t;
  grows = omega arith;
  one = inl refl;
}
from_entry-Given n (some (single (some i))) s h t = record {
  tallied = t;
  grows = omega arith;
  one = inr (i, refl, h i refl, inl refl);
}

pub from_nets-Given :
    (n : ℕ → ℕ) (Source : ℕ → Type 0) (es : List CidrLimitEntry) (s : Store)
    → Tallied n s
    → Given n Source s (from_nets es s)
from_nets-Given n Source [] s t = record { tallied = t; grows = omega arith; one = inl refl }
from_nets-Given n Source (e ∷ es) s t = many-Given n Source e.limit s t
