-- ===== src/Conn/Slots/Fair.antt =====
-- What a listener keeps to: each limiter counts the connections that hold it.
use go_gost_x.Prelude.{
  ℕ, zero, suc, ◌+◌, ◌<◌, ◌≤◌, ◌≡◌, refl, ◌∙◌, ap, sym, subst, Bool, true, false, ◌&&◌, List, [],
  ◌∷◌, Option, none, some, if◌then◌else◌, pos, negsuc, ◌+ℤ◌, ltb_ℤ, int_64, int_64-pos, max_int,
  leb, ℤ, ◌≤ℤ◌, ◌⊎◌, all, ◌==◌, ==_iff, ◌||◌, not, inl, inr, Bool-cases, arith, All, get_elem?,
}
use go_gost_x.Conn.{Limiter, Heap, raise, group_allow}
use go_gost_x.Conn.Group.{member, group_allow-all}
use go_gost_x.Conn.Undo.{fits}
use go_gost_x.Conn.Keys.Tally.{Within, Kept}
use go_gost_x.Conn.Keys.{Ranger, ConnLimiter}
use go_gost_x.Conn.Keys.Groups.{IsGroup-grow}
use go_gost_x.Conn.Keys.Choice.{IsSound, IsGroup}
use go_gost_x.Conn.Slots.{ServerConn, Listener, set_heap, append, close_at, slots}
use go_gost_x.Conn.Slots.Release.{group_release}

-- A limiter that a connection with the group takes a slot of.
abbrev pub slot : List ℕ → ℕ → ℕ
slot g x = if member x g then 1 else 0

pub slots-append :
    (cs : List ServerConn) (g : List ℕ) (x : ℕ)
    → slots (append cs (record { limiter = g; closed = false })) x ≡ slots cs x + slot g x
unfolding slots
slots-append [] g x = omega arith
slots-append (c ∷ cs) g x = omega (arith, slots-append cs g x)

pub slots-close_at :
    (cs : List ServerConn) (i : ℕ) (c : ServerConn) (x : ℕ)
    → get_elem? cs i ≡ some c
    → c.closed ≡ false
    → slots cs x ≡ slots (close_at cs i) x + slot c.limiter x
unfolding slots
slots-close_at [] i c x e o = cc
slots-close_at (d ∷ cs) zero c x e o = ground (arith, e)
slots-close_at (d ∷ cs) (suc i) c x e o = omega (arith, slots-close_at cs i c x e o)

pub member_below : (f x : ℕ) (g : List ℕ) → All (λ y. y < f) g → f ≤ x → member x g ≡ false
member_below f x [] a le = refl
member_below f x (y ∷ ys) (lt, a) le = ground (arith, member_below f x ys a le)

pub slot_below : (f x : ℕ) (g : List ℕ) → All (λ y. y < f) g → f ≤ x → slot g x ≡ 0
slot_below f x g a le = let e = member_below f x g a le in rw e refl

-- A count that was exact is exact after one connection more or one less.
pub one_more :
    (b : Bool) (a : Limiter) (l : Limiter) (k k' : ℕ)
    → a ≡ (if b then raise (pos 1) l else l)
    → l.current ≡ pos k
    → k' ≡ k + (if b then 1 else 0)
    → a.current ≡ pos k'
unfolding ◌+ℤ◌
one_more true a l k k' e c q = ground (arith, e, c, q)
one_more false a l k k' e c q = ground (arith, e, c, q)

pub one_less :
    (b : Bool) (a : Limiter) (l : Limiter) (k k' : ℕ)
    → a ≡ (if b then raise (negsuc 0) l else l)
    → l.current ≡ pos k
    → k ≡ k' + (if b then 1 else 0)
    → a.current ≡ pos k'
unfolding ◌+ℤ◌
one_less true a l k k' e c q = ground (arith, e, c, q)
one_less false a l k k' e c q = ground (arith, e, c, q)

and_true : (a b : Bool) → (a && b) ≡ true → (a ≡ true) × (b ≡ true)
and_true true b e = (refl, e)
and_true false b e = absurd cc

all-member :
    (h : Heap) (g : List ℕ) (j : ℕ)
    → all (fits h 1) g ≡ true
    → member j g ≡ true
    → fits h 1 j ≡ true
all-member h [] j a m = absurd cc
all-member h (x ∷ xs) j a m = elim (Bool-cases (x == j)) [
  | inl e ↦ ap (fits h 1) (sym ((==_iff x j).0 e)) ∙ (and_true _ _ a).0
  | inr e ↦ all-member h xs j (and_true _ _ a).1 (ap (λ b. b || member j xs) (sym e) ∙ m)
]

one_more-fits :
    (k : ℕ) (limit : ℤ)
    → not (ltb_ℤ limit (int_64 (pos k +ℤ pos 1))) ≡ true
    → pos k ≤ℤ limit
    → (pos (k + 1) ≤ℤ limit) ⊎ (pos max_int ≤ℤ limit)
unfolding ◌+ℤ◌
one_more-fits k (negsuc m) f le = absurd (omega arith)
one_more-fits k (pos m) f le = elim (Bool-cases (leb max_int m)) [
  | inl g ↦ inr (ground (arith, g))
  | inr g ↦ inl (ground (arith, f, g, int_64-pos (k + 1) (ground (arith, g))))
]

-- A limiter that had room is within its limit after one connection more, and after one less.
one_more-Kept :
    (l a : Limiter) (k : ℕ)
    → a ≡ raise (pos 1) l
    → l.current ≡ pos k
    → not (ltb_ℤ l.limit (int_64 (l.current +ℤ pos 1))) ≡ true
    → Kept l
    → Kept a
unfolding ◌+ℤ◌
one_more-Kept l a k e c f (inl le) =
    elim (one_more-fits k l.limit
      (subst (λ n. not (ltb_ℤ l.limit (int_64 (n +ℤ pos 1))) ≡ true) c f)
      (subst (λ n. n ≤ℤ l.limit) c le)) [
        | inl h ↦ inl (ground (arith, e, c, h))
        | inr h ↦ inr (ground (arith, e, h))
      ]
one_more-Kept l a k e c f (inr ge) = inr (ground (arith, e, ge))

one_less-Kept : (l a : Limiter) → a ≡ raise (negsuc 0) l → Kept l → Kept a
unfolding ◌+ℤ◌
one_less-Kept l a e (inl le) = inl (ground (arith, e, le))
one_less-Kept l a e (inr ge) = inr (ground (arith, e, ge))

pub record IsFair {r : Ranger} (s : Listener r) : Type 0 where
  pub sound : IsSound (slots s.wrapped) s.conns
  pub groups : All (λ c. IsGroup s.conns.store.fresh c.limiter) s.wrapped

pub groups_grow :
    (f f' : ℕ) (cs : List ServerConn)
    → f ≤ f'
    → All (λ c. IsGroup f c.limiter) cs
    → All (λ c. IsGroup f' c.limiter) cs
groups_grow f f' [] le a = tt
groups_grow f f' (c ∷ cs) le (g, a) = (IsGroup-grow c.limiter le g, groups_grow f f' cs le a)

pub groups-append :
    (f : ℕ) (cs : List ServerConn) (c : ServerConn)
    → All (λ d. IsGroup f d.limiter) cs
    → IsGroup f c.limiter
    → All (λ d. IsGroup f d.limiter) (append cs c)
groups-append f [] c a g = (g, tt)
groups-append f (d ∷ ds) c (h, a) g = (h, groups-append f ds c a g)

pub groups-close_at :
    (f : ℕ) (cs : List ServerConn) (i : ℕ)
    → All (λ d. IsGroup f d.limiter) cs
    → All (λ d. IsGroup f d.limiter) (close_at cs i)
groups-close_at f [] i a = tt
groups-close_at f (c ∷ cs) zero (h, a) = (h, a)
groups-close_at f (c ∷ cs) (suc i) (h, a) = (h, groups-close_at f cs i a)

pub IsGroup-at :
    (f : ℕ) (cs : List ServerConn) (i : ℕ) (c : ServerConn)
    → get_elem? cs i ≡ some c
    → All (λ d. IsGroup f d.limiter) cs
    → IsGroup f c.limiter
IsGroup-at f [] i c e a = cc
IsGroup-at f (d ∷ cs) zero c e (h, a) = subst (λ o. IsGroup f (limiter_or d o)) e h
  where
    limiter_or : ServerConn → Option ServerConn → List ℕ
    limiter_or d none = d.limiter
    limiter_or d (some c) = c.limiter
IsGroup-at f (d ∷ cs) (suc i) c e (h, a) = IsGroup-at f cs i c e a

-- The counts after a group took its slots, was refused, or gave its slots back.
module _ {r : Ranger} (l : ConnLimiter r) (g : List ℕ) (n n' : ℕ → ℕ) (v : IsSound n l)
    (d : IsGroup l.store.fresh g) where
  pub with_heap :
      (h : Heap)
      → Within h
      → ((j : ℕ) → (h j).current ≡ pos (n' j))
      → ((j : ℕ) → l.store.fresh ≤ j → n' j ≡ 0)
      → IsSound n' (set_heap l h)
  with_heap h w e u = record {
    tallied = record { exact = e; unused = u; within = w };
    singles = v.singles;
    groups = v.groups;
  }

  room : (group_allow l.store.heap g (pos 1)).1 ≡ true → all (fits l.store.heap 1) g ≡ true
  room b =
      let (answer, heap) = group_allow-all l.store.heap g 1 0 (omega arith) d.0 in
      (and_true _ _ (sym answer ∙ b)).1

  pub taken :
      (group_allow l.store.heap g (pos 1)).1 ≡ true
      → ((j : ℕ) → n' j ≡ n j + slot g j)
      → IsSound n' (set_heap l (group_allow l.store.heap g (pos 1)).0)
  taken b e =
      with_heap _ (λ j. within j (member j g) refl (granted j))
        (λ j.
          one_more (member j g) _ (l.store.heap j) (n j) (n' j) (granted j) (v.tallied.exact j)
            (e j))
        (λ j le. omega (arith, e j, v.tallied.unused j le, slot_below l.store.fresh j g d.1 le))
    where
      granted :
          (j : ℕ)
          → (group_allow l.store.heap g (pos 1)).0 j
            ≡ (if member j g then raise (pos 1) (l.store.heap j) else l.store.heap j)
      granted j =
          let (answer, heap) = group_allow-all l.store.heap g 1 j (omega arith) d.0 in
          heap
          ∙ ap (λ c. if c && member j g then raise (pos 1) (l.store.heap j) else l.store.heap j)
              (sym answer ∙ b)

      within :
          (j : ℕ) (c : Bool)
          → member j g ≡ c
          → (group_allow l.store.heap g (pos 1)).0 j
            ≡ (if c then raise (pos 1) (l.store.heap j) else l.store.heap j)
          → Kept ((group_allow l.store.heap g (pos 1)).0 j)
      within j true m q =
          one_more-Kept (l.store.heap j) _ (n j) q (v.tallied.exact j)
            (all-member l.store.heap g j (room b) m) (v.tallied.within j)
      within j false m q = subst Kept (sym q) (v.tallied.within j)

  pub refused :
      (group_allow l.store.heap g (pos 1)).1 ≡ false
      → ((j : ℕ) → n' j ≡ n j)
      → IsSound n' (set_heap l (group_allow l.store.heap g (pos 1)).0)
  refused b e =
      with_heap _ (λ j. subst Kept (sym (same j)) (v.tallied.within j))
        (λ j. ap (λ (a : Limiter). a.current) (same j) ∙ (v.tallied.exact j ∙ ap pos (sym (e j))))
        (λ j le. omega (arith, e j, v.tallied.unused j le))
    where
      same : (j : ℕ) → (group_allow l.store.heap g (pos 1)).0 j ≡ l.store.heap j
      same j =
          let (answer, heap) = group_allow-all l.store.heap g 1 j (omega arith) d.0 in
          heap
          ∙ ap (λ c. if c && member j g then raise (pos 1) (l.store.heap j) else l.store.heap j)
              (sym answer ∙ b)

  pub returned :
      ((j : ℕ) → n j ≡ n' j + slot g j)
      → IsSound n' (set_heap l (group_allow l.store.heap g (negsuc 0)).0)
  returned e =
      with_heap _ (λ j. within j (member j g) (group_release l.store.heap g j d.0))
        (λ j.
          one_less (member j g) _ (l.store.heap j) (n j) (n' j) (group_release l.store.heap g j d.0)
            (v.tallied.exact j) (e j))
        (λ j le. omega (arith, e j, v.tallied.unused j le))
    where
      within :
          (j : ℕ) (c : Bool)
          → (group_allow l.store.heap g (negsuc 0)).0 j
            ≡ (if c then raise (negsuc 0) (l.store.heap j) else l.store.heap j)
          → Kept ((group_allow l.store.heap g (negsuc 0)).0 j)
      within j true q = one_less-Kept (l.store.heap j) _ q (v.tallied.within j)
      within j false q = subst Kept (sym q) (v.tallied.within j)
