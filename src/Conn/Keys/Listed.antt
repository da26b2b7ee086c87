-- ===== src/Conn/Keys/Listed.antt =====
-- The limits of the limiters that a key is given.
use go_gost_x.Prelude.{
  ℕ, suc, ◌<◌, ◌≤◌, ◌==◌, ◌≡◌, refl, ◌∙◌, ap, ap₂, Bool, true, false, List, [], ◌∷◌, ◌++◌, Option,
  none, some, if◌then◌else◌, ℤ, pos, ltb_ℤ, leb_ℤ, arith, All,
}
use go_gost_x.Conn.{Limiter, Heap, put}
use go_gost_x.Conn.Keys.{
  new_limiter, Generator, many, single, Store, generate, from_entry, from_nets, CidrLimitEntry,
  Ranger, ConnLimiter, or_else,
}

-- The limit that an entry sets, if it sets one.
abbrev pub entry_limit : Heap → Option Generator → Option ℤ
entry_limit h none = none
entry_limit h (some (many n)) = if leb_ℤ n (pos 0) then none else some n
entry_limit h (some (single none)) = none
entry_limit h (some (single (some i))) = some (h i).limit

-- The limit of the first network.
abbrev pub net_limit : List CidrLimitEntry → Option ℤ
net_limit [] = none
net_limit (e ∷ es) = if leb_ℤ e.limit (pos 0) then none else some e.limit

abbrev pub first_of : Option ℤ → Option ℤ → Option ℤ
first_of none o = o
first_of (some n) o = some n

abbrev pub in_order : ℤ → ℤ → List ℤ
in_order a b = if ltb_ℤ b a then b ∷ a ∷ [] else a ∷ b ∷ []

-- Both limits, the smaller first.
abbrev pub both : Option ℤ → Option ℤ → Option (List ℤ)
both none none = none
both none (some b) = some (b ∷ [])
both (some a) none = some (a ∷ [])
both (some a) (some b) = some (in_order a b)

abbrev pub limits_of : Heap → List ℕ → List ℤ
limits_of h [] = []
limits_of h (x ∷ xs) = (h x).limit ∷ limits_of h xs

abbrev pub answer_limits : {r : Ranger} → ConnLimiter r × Option (List ℕ) → Option (List ℤ)
answer_limits (l, none) = none
answer_limits (l, some g) = some (limits_of l.store.heap g)

abbrev pub listed : Option ℤ → List ℤ
listed none = []
listed (some n) = n ∷ []

-- A store has given limiters with the limit `o`, and changed no older one.
pub record Limited (o : Option ℤ) (s : Store) (p : Store × List ℕ) : Type 0 where
  pub old : (j : ℕ) → j < s.fresh → (p.0.heap j).limit ≡ (s.heap j).limit
  pub grows : s.fresh ≤ p.0.fresh
  pub below : All (λ x. x < p.0.fresh) p.1
  pub same : limits_of p.0.heap p.1 ≡ listed o

unfoldable pub Below : Store → Option Generator → Type 0
Below s e = (x : ℕ) → e ≡ some (single (some x)) → x < s.fresh

pub many-Limited :
    (n : ℤ) (s : Store) → Limited (if leb_ℤ n (pos 0) then none else some n) s (generate (many n) s)
unfolding generate new_limiter
many-Limited n s = go (leb_ℤ n (pos 0))
  where
    new : Limiter
    new = record { limit = n; current = pos 0 }

    go :
        (b : Bool)
        → Limited (if b then none else some n) s (
            if b
            then (s, [])
            else (record { heap = put s.heap s.fresh new; fresh = suc s.fresh }, s.fresh ∷ []))
    go true = record { old = λ j lt. refl; grows = omega arith; below = tt; same = refl }
    go false = record {
      old = λ j lt.
          let e : (s.fresh == j) ≡ false = ground arith in
          ap (λ b. (if b then new else s.heap j).limit) e;
      grows = omega arith;
      below = (omega arith, tt);
      same =
          let e : (s.fresh == s.fresh) ≡ true = ground arith in
          ap (λ b. (if b then new else s.heap s.fresh).limit ∷ []) e;
    }

pub from_entry-Limited :
    (e : Option Generator) (s : Store)
    → Below s e
    → Limited (entry_limit s.heap e) s (from_entry e s)
unfolding generate Below
from_entry-Limited none s h = record {
  old = λ j lt. refl;
  grows = omega arith;
  below = tt;
  same = refl;
}
from_entry-Limited (some (many n)) s h = many-Limited n s
from_entry-Limited (some (single none)) s h = record {
  old = λ j lt. refl;
  grows = omega arith;
  below = tt;
  same = refl;
}
from_entry-Limited (some (single (some i))) s h = record {
  old = λ j lt. refl;
  grows = omega arith;
  below = (h i refl, tt);
  same = refl;
}

pub from_nets-Limited :
    (es : List CidrLimitEntry) (s : Store) → Limited (net_limit es) s (from_nets es s)
from_nets-Limited [] s = record { old = λ j lt. refl; grows = omega arith; below = tt; same = refl }
from_nets-Limited (e ∷ es) s = many-Limited e.limit s

-- An entry has the same limit in a later store.
pub entry_limit-old :
    (e : Option Generator) (s : Store) (h : Heap)
    → Below s e
    → ((j : ℕ) → j < s.fresh → (h j).limit ≡ (s.heap j).limit)
    → entry_limit h e ≡ entry_limit s.heap e
unfolding Below
entry_limit-old none s h b old = refl
entry_limit-old (some (many n)) s h b old = refl
entry_limit-old (some (single none)) s h b old = refl
entry_limit-old (some (single (some i))) s h b old = ap (λ z. some z) (old i (b i refl))

pub or_else-Limited :
    (o o' : Option ℤ) (s : Store) (p : Store × List ℕ) (next : Store → Store × List ℕ)
    → Limited o s p
    → Limited o' p.0 (next p.0)
    → Limited (first_of o o') s (or_else p next)
or_else-Limited none o' s (s', []) next v w = record {
  old = λ j lt. w.old j (omega (arith, v.grows)) ∙ v.old j lt;
  grows = omega (arith, v.grows, w.grows);
  below = w.below;
  same = w.same;
}
or_else-Limited (some n) o' s (s', []) next v w = absurd (let e = v.same in cc)
or_else-Limited none o' s (s', x ∷ xs) next v w = absurd (let e = v.same in cc)
or_else-Limited (some n) o' s (s', x ∷ xs) next v w = v

pub limits_of-old :
    (f : ℕ) (h h' : Heap) (xs : List ℕ)
    → ((j : ℕ) → j < f → (h' j).limit ≡ (h j).limit)
    → All (λ x. x < f) xs
    → limits_of h' xs ≡ limits_of h xs
limits_of-old f h h' [] old a = refl
limits_of-old f h h' (x ∷ xs) old (lt, a) = ap₂ ◌∷◌ (old x lt) (limits_of-old f h h' xs old a)

pub limits_of-append :
    (h : Heap) (xs ys : List ℕ) → limits_of h (xs ++ ys) ≡ limits_of h xs ++ limits_of h ys
limits_of-append h [] ys = refl
limits_of-append h (x ∷ xs) ys = ap (λ zs. (h x).limit ∷ zs) (limits_of-append h xs ys)
