-- ===== src/Conn/Keys/Groups.antt =====
-- The group of a key: its limiters were made, and no limiter stands in it twice.
use go_gost_x.Prelude.{
  ap₂, ==_comm, ℕ, ◌<◌, ◌≤◌, ◌==◌, ◌≡◌, refl, ◌∙◌, sym, subst, ◌⊎◌, inl, inr, Bool, true, false,
  List, [], ◌∷◌, ◌++◌, Option, none, some, if◌then◌else◌, ltb_ℤ, arith, Bool-cases, All,
}
use go_gost_x.Text.{Text, text_eq, lookup, lookup-insert}
use go_gost_x.Conn.{Heap}
use go_gost_x.Conn.Keys.{
  Generator, single, Store, from_entry, Ranger, ConnLimiter, global_limit_key, ip_limit_key,
  or_else, for_ip, choose, new_limiter_group, keep_group, limiter,
}
use go_gost_x.Conn.Keys.Tally.{Tallied, Given, from_entry-Given}
use go_gost_x.Conn.Keys.Choice.{Singles, IsGroup, IsSound, Elsewhere, own-Given}

-- A limiter of another entry and one of the global entry are two.
own_not_global :
    (m : List (Text × Generator)) (f f' x y : ℕ)
    → Singles m f
    → f ≤ f'
    → x < f'
    → Elsewhere m x ⊎ (f ≤ x)
    → (lookup global_limit_key m ≡ some (single (some y))) ⊎ (f' ≤ y)
    → (y == x) ≡ false
unfolding Elsewhere
own_not_global m f f' x y v le lt p (inr new) = ground arith
own_not_global m f f' x y v le lt (inl (k, e, src)) (inl global) = elim (Bool-cases (y == x)) [
  | inl same ↦
      (let eq : y ≡ x = ground arith in
        let t =
          v.apart k global_limit_key x src
            (subst (λ z. lookup global_limit_key m ≡ some (single (some z))) eq global) in
        absurd (let q : true ≡ false = sym t ∙ e in cc))
  | inr other ↦ other
]
own_not_global m f f' x y v le lt (inr new) (inl global) =
    ground (arith, v.below global_limit_key y global)

-- At most two limiters, and not the same.
pair-IsGroup : (f x y : ℕ) → (y == x) ≡ false → x < f → y < f → IsGroup f (x ∷ y ∷ [])
pair-IsGroup f x y e lx ly = ((rw e refl, (refl, tt)), (lx, (ly, tt)))

sorted-IsGroup :
    (h : Heap) (f x y : ℕ)
    → (y == x) ≡ false
    → x < f
    → y < f
    → IsGroup f (new_limiter_group h (x ∷ y ∷ []))
unfolding new_limiter_group
sorted-IsGroup h f x y e lx ly = go (ltb_ℤ (h y).limit (h x).limit)
  where
    go : (b : Bool) → IsGroup f (if b then y ∷ x ∷ [] else x ∷ y ∷ [])
    go true = pair-IsGroup f y x (==_comm x y ∙ e) ly lx
    go false = pair-IsGroup f x y e lx ly

nil-IsGroup : (h : Heap) (f : ℕ) → IsGroup f (new_limiter_group h [])
unfolding new_limiter_group
nil-IsGroup h f = (tt, tt)

one-IsGroup : (h : Heap) (f x : ℕ) → x < f → IsGroup f (new_limiter_group h (x ∷ []))
unfolding new_limiter_group
one-IsGroup h f x lt = ((refl, tt), (lt, tt))

sorted_at :
    (h : Heap) (f : ℕ) {xs ys : List ℕ}
    → xs ≡ ys
    → IsGroup f (new_limiter_group h ys)
    → IsGroup f (new_limiter_group h xs)
sorted_at h f e g = subst (λ zs. IsGroup f (new_limiter_group h zs)) (sym e) g

All-below : {f f' : ℕ} (g : List ℕ) → f ≤ f' → All (λ x. x < f) g → All (λ x. x < f') g
All-below [] le a = tt
All-below (x ∷ xs) le (lt, a) = (omega arith, All-below xs le a)

pub IsGroup-grow : {f f' : ℕ} (g : List ℕ) → f ≤ f' → IsGroup f g → IsGroup f' g
IsGroup-grow g le (d, a) = (d, All-below g le a)

Singles-grow : {m : List (Text × Generator)} {f f' : ℕ} → Singles m f → f ≤ f' → Singles m f'
Singles-grow v le = record { below = λ k x e. omega (arith, v.below k x e); apart = v.apart }

some_injective : {a b : List ℕ} → some a ≡ some b → a ≡ b
some_injective e = cc

-- The limiters that `choose` gives.
record Chosen (n : ℕ → ℕ) (l_fresh : ℕ) (p : Store × List ℕ) : Type 0 where
  tallied : Tallied n p.0
  grows : l_fresh ≤ p.0.fresh
  group : (h : Heap) → IsGroup p.0.fresh (new_limiter_group h p.1)

module _ (r : Ranger) (parse_ip : Text → Option (List ℕ))
    (not_ip : parse_ip global_limit_key ≡ none) where
  choose-Chosen :
      (n : ℕ → ℕ) (l : ConnLimiter r) (key : Text)
      → IsSound n l
      → Chosen n l.store.fresh (choose r parse_ip l key)
  unfolding choose
  choose-Chosen n l key v = record {
    tallied = global.tallied;
    grows = omega (arith, own.grows, global.grows);
    group = λ h. group h own.one global.one;
  }
    where
      p : Store × List ℕ
      p =
          or_else (for_ip r parse_ip l key (parse_ip key))
            (from_entry (lookup ip_limit_key l.ip_limits))

      own : Given n (Elsewhere l.ip_limits) l.store p
      own = own-Given r parse_ip not_ip n l key v

      q : Store × List ℕ
      q = from_entry (lookup global_limit_key l.ip_limits) p.0

      global : Given n (λ x. lookup global_limit_key l.ip_limits ≡ some (single (some x))) p.0 q
      global =
          from_entry-Given n (lookup global_limit_key l.ip_limits) p.0
            (λ x e. omega (arith, v.singles.below global_limit_key x e, own.grows)) own.tallied

      group :
          (h : Heap) {xs ys : List ℕ}
          → (xs ≡ [])
            ⊎ ((x : ℕ) × (xs ≡ x ∷ [])
                × (x < p.0.fresh)
                × (Elsewhere l.ip_limits x ⊎ (l.store.fresh ≤ x)))
          → (ys ≡ [])
            ⊎ ((y : ℕ) × (ys ≡ y ∷ [])
                × (y < q.0.fresh)
                × ((lookup global_limit_key l.ip_limits ≡ some (single (some y)))
                    ⊎ (p.0.fresh ≤ y)))
          → IsGroup q.0.fresh (new_limiter_group h (xs ++ ys))
      group h (inl e) (inl d) = sorted_at h q.0.fresh (ap₂ ◌++◌ e d) (nil-IsGroup h q.0.fresh)
      group h (inl e) (inr (y, d, ly, t)) =
          sorted_at h q.0.fresh (ap₂ ◌++◌ e d) (one-IsGroup h q.0.fresh y ly)
      group h (inr (x, e, lx, s)) (inl d) =
          sorted_at h q.0.fresh (ap₂ ◌++◌ e d)
            (one-IsGroup h q.0.fresh x (omega (arith, global.grows)))
      group h (inr (x, e, lx, s)) (inr (y, d, ly, t)) = sorted_at h q.0.fresh (ap₂ ◌++◌ e d) (
          sorted-IsGroup h q.0.fresh x y
            (own_not_global l.ip_limits l.store.fresh p.0.fresh x y v.singles own.grows lx s t)
            (omega (arith, global.grows)) ly)

  -- Limiter(key) makes no limiter count, and its group has limiters that were made, no one twice.
  pub limiter-IsSound :
      (n : ℕ → ℕ) (l : ConnLimiter r) (key : Text)
      → IsSound n l
      → IsSound n (limiter r parse_ip l key).0
        × ((g : List ℕ)
            → (limiter r parse_ip l key).1 ≡ some g
            → IsGroup (limiter r parse_ip l key).0.store.fresh g)
        × (l.store.fresh ≤ (limiter r parse_ip l key).0.store.fresh)
  unfolding limiter
  limiter-IsSound n l key v = known (lookup key l.limits) refl
    where
      Answer : ConnLimiter r × Option (List ℕ) → Type 0
      Answer a =
          IsSound n a.0
          × ((g : List ℕ) → a.1 ≡ some g → IsGroup a.0.store.fresh g)
          × (l.store.fresh ≤ a.0.store.fresh)

      kept :
          (p : Store × List ℕ) → Chosen n l.store.fresh p → Answer (keep_group r parse_ip l key p)
      kept (s, []) c = (
        record {
          tallied = c.tallied;
          singles = Singles-grow v.singles c.grows;
          groups = λ k g e. IsGroup-grow g c.grows (v.groups k g e);
        },
        (λ g e. cc),
        c.grows,
      )
      kept (s, x ∷ xs) c = (
        record {
          tallied = c.tallied;
          singles = Singles-grow v.singles c.grows;
          groups = λ k g e. inserted k g (text_eq key k) (sym (lookup-insert key k _ l.limits) ∙ e);
        },
        (λ g e. subst (IsGroup s.fresh) (some_injective e) (c.group s.heap)),
        c.grows,
      )
        where
          inserted :
              (k : Text) (g : List ℕ) (b : Bool)
              → (if b then some (new_limiter_group s.heap (x ∷ xs)) else lookup k l.limits) ≡ some g
              → IsGroup s.fresh g
          inserted k g true e = subst (IsGroup s.fresh) (some_injective e) (c.group s.heap)
          inserted k g false e = IsGroup-grow g c.grows (v.groups k g e)

      known :
          (o : Option (List ℕ))
          → lookup key l.limits ≡ o
          → Answer (elim o [
            | some g ↦ (l, some g)
            | none ↦ keep_group r parse_ip l key (choose r parse_ip l key)
          ])
      known (some g) e = (v, (λ g' e'. v.groups key g' (e ∙ e')), omega arith)
      known none e = kept (choose r parse_ip l key) (choose-Chosen n l key v)
