-- ===== src/Conn/Undo.antt =====
-- What a group takes back when one of its limiters refuses.
use go_gost_x.Prelude.{
  ℕ, zero, suc, ◌+◌, ◌<◌, ◌==◌, ◌≡◌, refl, ◌∙◌, ap, sym, inl, inr, Bool, true, false, not, List, [],
  ◌∷◌, ℤ, pos, negsuc, neg, ◌+ℤ◌, ltb_ℤ, int_64, if◌then◌else◌, arith, Bool-cases, ==_iff,
}
use go_gost_x.Conn.{Limiter, Heap, put, raise, allow, visit, take, undo}

pub add_neg : (a : ℤ) (n : ℕ) → a +ℤ pos n +ℤ neg n ≡ a
unfolding ◌+ℤ◌
add_neg (pos m) zero = ground arith
add_neg (pos m) (suc n) = ground arith
add_neg (negsuc m) zero = ground arith
add_neg (negsuc m) (suc n) = ground arith

pub raise-neg : (n : ℕ) (l : Limiter) → raise (neg n) (raise (pos n) l) ≡ l
raise-neg n l = ap (λ c. record l { current = c }) (add_neg l.current n)

-- What `undo` leaves of one limiter.
unfoldable pub lowered : ℕ → List ℕ → ℕ → Limiter → Limiter
lowered n [] j l = l
lowered n (x ∷ xs) j l = lowered n xs j (if x == j then raise (neg n) l else l)

lowered-raise :
    (n : ℕ) (xs : List ℕ) (j : ℕ) (l : Limiter)
    → lowered n xs j (raise (neg n) l) ≡ raise (neg n) (lowered n xs j l)
unfolding lowered
lowered-raise n [] j l = refl
lowered-raise n (x ∷ xs) j l =
    go (x == j) (lowered-raise n xs j (raise (neg n) l)) (lowered-raise n xs j l)
  where
    go :
        (b : Bool)
        → lowered n xs j (raise (neg n) (raise (neg n) l))
          ≡ raise (neg n) (lowered n xs j (raise (neg n) l))
        → lowered n xs j (raise (neg n) l) ≡ raise (neg n) (lowered n xs j l)
        → lowered n xs j (if b then raise (neg n) (raise (neg n) l) else raise (neg n) l)
          ≡ raise (neg n) (lowered n xs j (if b then raise (neg n) l else l))
    go true once twice = once
    go false once twice = twice

pub put-raise :
    (h : Heap) (x : ℕ) (n : ℤ) (j : ℕ)
    → put h x (raise n (h x)) j ≡ (if x == j then raise n (h j) else h j)
put-raise h x n j = go (x == j) refl
  where
    go :
        (b : Bool)
        → (x == j) ≡ b
        → (if b then raise n (h x) else h j) ≡ (if b then raise n (h j) else h j)
    go true eq = ap (λ i. raise n (h i)) ((==_iff x j).0 eq)
    go false eq = refl

allow-neg :
    (h : Heap) (x n j : ℕ)
    → 0 < n
    → (allow h x (neg n)).0 j ≡ (if x == j then raise (neg n) (h j) else h j)
unfolding allow
allow-neg h x zero j le = absurd (omega arith)
allow-neg h x (suc n) j le =
    let t : ltb_ℤ (negsuc n) (pos 0) ≡ true = ground arith in rw t (put-raise h x (negsuc n) j)

pub undo-lowered :
    (h : Heap) (n : ℕ) (xs : List ℕ) (j : ℕ) → 0 < n → undo h (pos n) xs j ≡ lowered n xs j (h j)
unfolding undo lowered
undo-lowered h n [] j le = refl
undo-lowered h n (x ∷ xs) j le =
    undo-lowered (allow h x (neg n)).0 n xs j le ∙ ap (lowered n xs j) (allow-neg h x n j le)

-- The limiter at a place has room for n more: its count with them, as an int64, is within its limit.
abbrev pub fits : Heap → ℕ → ℕ → Bool
fits h n x = not (ltb_ℤ (h x).limit (int_64 ((h x).current +ℤ pos n)))

abbrev pub counted : Heap → ℕ → ℕ → Heap
counted h n x = put h x (raise (pos n) (h x))

abbrev pub given_back : Heap → ℕ → ℕ → Heap
given_back h n x = put (counted h n x) x (raise (neg n) (counted h n x x))

pos_not_neg : (n : ℕ) → ltb_ℤ (pos n) (pos 0) ≡ false
pos_not_neg n = ground arith

not-flip : (b c : Bool) → not b ≡ c → b ≡ not c
not-flip true c h = ap not h
not-flip false c h = ap not h

allow-fits : (h : Heap) (n x : ℕ) → fits h n x ≡ true → allow h x (pos n) ≡ (counted h n x, true)
unfolding allow
allow-fits h n x e = let t = pos_not_neg n in rw t (rw (not-flip _ true e) refl)

allow-full :
    (h : Heap) (n x : ℕ) → fits h n x ≡ false → allow h x (pos n) ≡ (given_back h n x, false)
unfolding allow
allow-full h n x e = let t = pos_not_neg n in rw t (rw (not-flip _ false e) refl)

pub given_back-same : (h : Heap) (n x j : ℕ) → given_back h n x j ≡ h j
given_back-same h n x j =
    put-raise (counted h n x) x (neg n) j
    ∙ (ap (λ l. if x == j then raise (neg n) l else l) (put-raise h x (pos n) j) ∙ go (x == j))
  where
    go :
        (b : Bool)
        → (if b
            then raise (neg n) (if b then raise (pos n) (h j) else h j)
            else (if b then raise (pos n) (h j) else h j))
          ≡ h j
    go true = raise-neg n (h j)
    go false = refl

pub visit-fits :
    (h : Heap) (n i x : ℕ) (xs : List ℕ) (b : Bool)
    → fits h n x ≡ true
    → visit h (pos n) i (x ∷ xs) b ≡ visit (counted h n x) (pos n) (suc i) xs true
unfolding visit
visit-fits h n i x xs b e = rw (allow-fits h n x e) refl

pub visit-full :
    (h : Heap) (n i x : ℕ) (xs : List ℕ) (b : Bool)
    → fits h n x ≡ false
    → visit h (pos n) i (x ∷ xs) b ≡ (given_back h n x, i, false)
unfolding visit
visit-full h n i x xs b e = rw (allow-full h n x e) refl

lowered-cons :
    (h : Heap) (n x : ℕ) (xs : List ℕ) (j : ℕ) (l : Limiter)
    → lowered n xs j l ≡ counted h n x j
    → lowered n (x ∷ xs) j l ≡ h j
unfolding lowered
lowered-cons h n x xs j l e = go (x == j) (e ∙ put-raise h x (pos n) j)
  where
    go :
        (b : Bool)
        → lowered n xs j l ≡ (if b then raise (pos n) (h j) else h j)
        → lowered n xs j (if b then raise (neg n) l else l) ≡ h j
    go true back = lowered-raise n xs j l ∙ (ap (raise (neg n)) back ∙ raise-neg n (h j))
    go false back = back

-- The limiters before the place where the loop ends hold the count, and taking it back from them
-- leaves the heap as it was.
pub visit-lowered :
    (h : Heap) (n i : ℕ) (xs : List ℕ) (b : Bool)
    → (visit h (pos n) i xs b).2 ≡ false
    → (k : ℕ) × ((visit h (pos n) i xs b).1 ≡ i + k)
      × ((j : ℕ) → lowered n (take k xs) j ((visit h (pos n) i xs b).0 j) ≡ h j)
unfolding visit lowered
visit-lowered h n i [] b e = (0, omega arith, λ j. refl)
visit-lowered h n i (x ∷ xs) b e = elim (Bool-cases (fits h n x)) [
  | inl f ↦
      (let eq = visit-fits h n i x xs b f in
        let (k, at, back) =
          visit-lowered (counted h n x) n (suc i) xs true (ap (λ r. r.2) (sym eq) ∙ e) in
        (
          suc k,
          ap (λ r. r.1) eq ∙ (at ∙ omega arith),
          λ j.
              ap (λ r. lowered n (take (suc k) (x ∷ xs)) j (r.0 j)) eq
              ∙ lowered-cons h n x (take k xs) j _ (back j),
        ))
  | inr f ↦
      (let eq = visit-full h n i x xs b f in
        (0, ap (λ r. r.1) eq ∙ omega arith, λ j. ap (λ r. r.0 j) eq ∙ given_back-same h n x j))
]
