-- ===== src/Conn/Group.antt =====
-- A group counts with all of its limiters or with none.
use go_gost_x.Prelude.{
  ℕ, zero, suc, ◌<◌, ◌==◌, ◌≡◌, refl, ◌∙◌, ap, ap₂, sym, inl, inr, Bool, true, false, not, ◌&&◌,
  ◌||◌, List, [], ◌∷◌, pos, ◌+ℤ◌, ltb_ℤ, int_64, ltb, if◌then◌else◌, arith, all, any, Bool-cases,
  ==_iff, ==_comm,
}
use go_gost_x.Conn.{Limiter, Heap, raise, visit, take, undo, group_allow}
use go_gost_x.Conn.Undo.{
  lowered, put-raise, undo-lowered, visit-fits, visit-full, visit-lowered, fits, counted,
}

abbrev pub is_nil : List ℕ → Bool
is_nil [] = true
is_nil (x ∷ xs) = false

abbrev pub member : ℕ → List ℕ → Bool
member j xs = any (λ x. x == j) xs

abbrev pub Distinct : List ℕ → Type 0
Distinct [] = Unit {0}
Distinct (x ∷ xs) = (member x xs ≡ false) × Distinct xs

or_left : (a b : Bool) → (a || b) ≡ false → a ≡ false
or_left true b e = e
or_left false b e = refl

or_right : (a b : Bool) → (a || b) ≡ false → b ≡ false
or_right true b e = absurd cc
or_right false b e = e

counted-other : (h : Heap) (n x y : ℕ) → (x == y) ≡ false → counted h n x y ≡ h y
counted-other h n x y e = ap (λ b. if b then raise (pos n) (h x) else h y) e

all-fits_counted :
    (h : Heap) (n m x : ℕ) (xs : List ℕ)
    → member x xs ≡ false
    → all (fits (counted h m x) n) xs ≡ all (fits h n) xs
all-fits_counted h n m x [] e = refl
all-fits_counted h n m x (y ∷ ys) e =
    ap₂ ◌&&◌
      (ap (λ (l : Limiter). not (ltb_ℤ l.limit (int_64 (l.current +ℤ pos n))))
        (counted-other h m x y (==_comm x y ∙ or_left _ _ e)))
      (all-fits_counted h n m x ys (or_right _ _ e))

-- The answer of the loop.
visit-all :
    (h : Heap) (n i : ℕ) (xs : List ℕ)
    → Distinct xs
    → (visit h (pos n) i xs true).2 ≡ all (fits h n) xs
unfolding visit
visit-all h n i [] d = refl
visit-all h n i (x ∷ xs) d = elim (Bool-cases (fits h n x)) [
  | inl f ↦
      (ap (λ r. r.2) (visit-fits h n i x xs true f)
        ∙ (visit-all (counted h n x) n (suc i) xs d.1
            ∙ (all-fits_counted h n n x xs d.0 ∙ ap (λ c. c && all (fits h n) xs) (sym f))))
  | inr f ↦
      (ap (λ r. r.2) (visit-full h n i x xs true f) ∙ ap (λ c. c && all (fits h n) xs) (sym f))
]

-- The heap of a loop that no limiter refuses.
visit-member :
    (h : Heap) (n i : ℕ) (xs : List ℕ) (j : ℕ)
    → Distinct xs
    → (visit h (pos n) i xs true).2 ≡ true
    → (visit h (pos n) i xs true).0 j ≡ (if member j xs then raise (pos n) (h j) else h j)
unfolding visit
visit-member h n i [] j d e = refl
visit-member h n i (x ∷ xs) j d e = elim (Bool-cases (fits h n x)) [
  | inl f ↦
      (let eq = visit-fits h n i x xs true f in
        ap (λ r. r.0 j) eq
        ∙ (visit-member (counted h n x) n (suc i) xs j d.1 (ap (λ r. r.2) (sym eq) ∙ e)
            ∙ once (x == j) refl (put-raise h x (pos n) j)))
  | inr f ↦
      (let t : true ≡ false = sym e ∙ ap (λ r. r.2) (visit-full h n i x xs true f) in absurd cc)
]
  where
    once :
        (b : Bool)
        → (x == j) ≡ b
        → counted h n x j ≡ (if b then raise (pos n) (h j) else h j)
        → (if member j xs then raise (pos n) (counted h n x j) else counted h n x j)
          ≡ (if b || member j xs then raise (pos n) (h j) else h j)
    once true at eq =
        let absent : member j xs ≡ false = ap (λ i. member i xs) (sym ((==_iff x j).0 at)) ∙ d.0 in
        ap (λ c. if c then raise (pos n) (counted h n x j) else counted h n x j) absent ∙ eq
    once false at eq = ap (λ l. if member j xs then raise (pos n) l else l) eq

-- The group's answer, and its heap when one limiter refuses.
group_allow-refused :
    (h : Heap) (xs : List ℕ) (n j : ℕ)
    → 0 < n
    → (visit h (pos n) 0 xs false).2 ≡ false
    → ((group_allow h xs (pos n)).1 ≡ false) × ((group_allow h xs (pos n)).0 j ≡ h j)
unfolding group_allow lowered
group_allow-refused h xs n j le e =
    let (k, at, back) = visit-lowered h n 0 xs false e in
    settle k (visit h (pos n) 0 xs false) e (at ∙ omega arith) (back j)
  where
    answer : Heap × ℕ × Bool → Heap × Bool
    answer r =
        if not r.2 && (ltb 0 r.1 && ltb_ℤ (pos 0) (pos n))
        then (undo r.0 (pos n) (take r.1 xs), r.2)
        else (r.0, r.2)

    settle :
        (k : ℕ) (r : Heap × ℕ × Bool)
        → r.2 ≡ false
        → r.1 ≡ k
        → lowered n (take k xs) j (r.0 j) ≡ h j
        → ((answer r).1 ≡ false) × ((answer r).0 j ≡ h j)
    settle zero r er ek back = rw er (rw ek (refl, back))
    settle (suc k) r er ek back =
        let some_before : ltb 0 (suc k) ≡ true = ground arith in
        let positive : ltb_ℤ (pos 0) (pos n) ≡ true = ground arith in
        rw er (
          rw ek
            (rw some_before (rw positive (refl, undo-lowered r.0 n (take (suc k) xs) j le ∙ back))))

group_allow-granted :
    (h : Heap) (xs : List ℕ) (n : ℕ)
    → (visit h (pos n) 0 xs false).2 ≡ true
    → group_allow h xs (pos n) ≡ ((visit h (pos n) 0 xs false).0, true)
unfolding group_allow
group_allow-granted h xs n e = rw e refl

-- A group of limiters, no one twice, allows a positive number of connections exactly when it has a
-- limiter and each one has room for them: its count with them added, as the int64 that it wraps to,
-- is no more than its limit. It then adds the number to each of its limiters and
-- changes no other limiter; when it refuses, no limiter is changed.
pub group_allow-all :
    (h : Heap) (xs : List ℕ) (n j : ℕ)
    → 0 < n
    → Distinct xs
    → ((group_allow h xs (pos n)).1 ≡ (not (is_nil xs) && all (fits h n) xs))
      × ((group_allow h xs (pos n)).0 j ≡ (
          if not (is_nil xs) && all (fits h n) xs && member j xs then raise (pos n) (h j) else h j))
unfolding group_allow visit
group_allow-all h [] n j le d = (refl, refl)
group_allow-all h (x ∷ xs) n j le d = elim (Bool-cases (all (fits h n) (x ∷ xs))) [
  | inl f ↦
      (let b : (visit h (pos n) 0 (x ∷ xs) true).2 ≡ true = visit-all h n 0 (x ∷ xs) d ∙ f in
        let eq = group_allow-granted h (x ∷ xs) n b in
        (
          ap (λ r. r.1) eq ∙ sym f,
          ap (λ r. r.0 j) eq
              ∙ (visit-member h n 0 (x ∷ xs) j d b
                  ∙ ap (λ c. if c && member j (x ∷ xs) then raise (pos n) (h j) else h j) (sym f)),
        ))
  | inr f ↦
      (let b : (visit h (pos n) 0 (x ∷ xs) true).2 ≡ false = visit-all h n 0 (x ∷ xs) d ∙ f in
        let (answer, same) = group_allow-refused h (x ∷ xs) n j le b in
        (
          answer ∙ sym f,
          same ∙ ap (λ c. if c && member j (x ∷ xs) then raise (pos n) (h j) else h j) (sym f),
        ))
]
