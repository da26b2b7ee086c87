-- ===== src/Hop/Scan/Ranking.antt =====
-- What the loop over the nodes computes: the pool of candidates, and what it records of their
-- priorities.
use go_gost_x.Prelude.{
  ◌≤◌, ◌≡◌, refl, sym, ap, subst, ◌∙◌, Bool, true, false, ◌&&◌, ◌||◌, List, [], ◌∷◌, ◌++◌, Option,
  none, some, if◌then◌else◌, ℤ, pos, ltb_ℤ, leb_ℤ, eq_ℤ, Memᴰ, Memᴰ-append_right, all, any,
  any-append, length, length-append, arith,
}
use mathlib.Core.List.{append-nil, append_assoc}
use go_gost_x.Hop.Node.{Node, SelectOptions}
use go_gost_x.Hop.Gate.{admitted}
use go_gost_x.Hop.Scan.{Pool, no_pool, ranked, rank, visit, scan}

-- The candidates of a selection, in their order.
abbrev pub candidates : SelectOptions → List (Option Node) → List Node
candidates o [] = []
candidates o (none ∷ ns) = candidates o ns
candidates o (some n ∷ ns) = let rest = candidates o ns in if admitted o n then n ∷ rest else rest

abbrev pub at_most : ℤ → Node → Bool
at_most m n = leb_ℤ n.priority m

abbrev pub at : ℤ → Node → Bool
at m n = eq_ℤ n.priority m

-- What the variables of the loop say of the candidates so far.
pub record IsRanked (p : Pool) : Type 0 where
  pub bounded : all (at_most p.max_priority) p.nodes ≡ true
  pub count_le : p.max_pri_count ≤ length p.nodes
  pub level : p.max_pri_count ≡ length p.nodes → all (at p.max_priority) p.nodes ≡ true
  pub top :
      ltb_ℤ (pos 0) p.max_priority ≡ true
      → (n : Node) × (p.max_pri_node ≡ some n) × Memᴰ n p.nodes × (n.priority ≡ p.max_priority)
  pub flag : p.has_backup ≡ any (λ n. n.backup) p.nodes

no_pool-IsRanked : IsRanked no_pool
no_pool-IsRanked = record {
  bounded = refl;
  count_le = omega arith;
  level = λ e. refl;
  top = λ h. absurd (ground arith);
  flag = refl;
}

all_last :
    (f : Node → Bool) (ns : List Node) (n : Node) → all f (ns ++ (n ∷ [])) ≡ (all f ns && f n)
all_last f [] n = ground arith
all_last f (m ∷ ns) n = ground (arith, all_last f ns n)

all-raise :
    (a b : ℤ) (ns : List Node)
    → ltb_ℤ a b ≡ true
    → all (at_most a) ns ≡ true
    → all (at_most b) ns ≡ true
all-raise a b [] h e = refl
all-raise a b (n ∷ ns) h e = ground (arith, all-raise a b ns h)

any_last :
    (ns : List Node) (n : Node) (b : Bool)
    → b ≡ any (λ m. m.backup) ns
    → (b || n.backup) ≡ any (λ m. m.backup) (ns ++ (n ∷ []))
any_last ns n b h = ground (arith, h, any-append (λ m. m.backup) ns (n ∷ []))

Memᴰ-last : (ns : List Node) (n : Node) {m : Node} → Memᴰ m ns → Memᴰ m (ns ++ (n ∷ []))
Memᴰ-last [] n i = elim i [ ]
Memᴰ-last (x ∷ ns) n (Memᴰ.head e) = Memᴰ.head e
Memᴰ-last (x ∷ ns) n (Memᴰ.tail i) = Memᴰ.tail (Memᴰ-last ns n i)

alone :
    (ns : List Node) (n : Node)
    → 1 ≡ length (ns ++ (n ∷ []))
    → all (at n.priority) (ns ++ (n ∷ [])) ≡ true
alone [] n c = ground arith
alone (m ∷ ns) n c = absurd (omega (arith, length-append ns (n ∷ [])))

ranked-IsRanked :
    (p : Pool) (n : Node) (h e : Bool)
    → IsRanked p
    → ltb_ℤ p.max_priority n.priority ≡ h
    → eq_ℤ n.priority p.max_priority ≡ e
    → IsRanked (ranked h e p n)
ranked-IsRanked p n true e r eh ee = record {
  bounded = ground (
    arith,
    all_last (at_most n.priority) p.nodes n,
    all-raise p.max_priority n.priority p.nodes eh r.bounded,
  );
  count_le = omega (arith, length-append p.nodes (n ∷ []));
  level = alone p.nodes n;
  top = λ h. (n, refl, Memᴰ-append_right p.nodes (Memᴰ.head refl), refl);
  flag = any_last p.nodes n p.has_backup r.flag;
}
ranked-IsRanked p n false true r eh ee = record {
  bounded = ground (arith, all_last (at_most p.max_priority) p.nodes n, r.bounded);
  count_le = omega (arith, length-append p.nodes (n ∷ []), r.count_le);
  level = λ c. ground (
    arith,
    all_last (at p.max_priority) p.nodes n,
    r.level (omega (arith, length-append p.nodes (n ∷ []))),
  );
  top = λ h. let (m, q, i, s) = r.top h in (m, q, Memᴰ-last p.nodes n i, s);
  flag = any_last p.nodes n p.has_backup r.flag;
}
ranked-IsRanked p n false false r eh ee = record {
  bounded = ground (arith, all_last (at_most p.max_priority) p.nodes n, r.bounded);
  count_le = omega (arith, length-append p.nodes (n ∷ []), r.count_le);
  level = λ c. absurd (omega (arith, length-append p.nodes (n ∷ []), r.count_le));
  top = λ h. let (m, q, i, s) = r.top h in (m, q, Memᴰ-last p.nodes n i, s);
  flag = any_last p.nodes n p.has_backup r.flag;
}

visit-IsRanked :
    (o : SelectOptions) (p : Pool) (n : Option Node) → IsRanked p → IsRanked (visit o p n)
unfolding visit rank
visit-IsRanked o p none r = r
visit-IsRanked o p (some n) r = by_case (admitted o n)
  where
    by_case : (b : Bool) → IsRanked (if b then rank p n else p)
    by_case true = ranked-IsRanked p n _ _ r refl refl
    by_case false = r

scan-ranks :
    (o : SelectOptions) (p : Pool) (ns : List (Option Node)) → IsRanked p → IsRanked (scan o p ns)
unfolding scan visit
scan-ranks o p [] r = r
scan-ranks o p (n ∷ ns) r = scan-ranks o (visit o p n) ns (visit-IsRanked o p n r)

pub scan-IsRanked : (o : SelectOptions) (ns : List (Option Node)) → IsRanked (scan o no_pool ns)
scan-IsRanked o ns = scan-ranks o no_pool ns no_pool-IsRanked

pub scan-nodes :
    (o : SelectOptions) (p : Pool) (ns : List (Option Node))
    → (scan o p ns).nodes ≡ p.nodes ++ candidates o ns
unfolding scan visit rank
scan-nodes o p [] = sym (append-nil p.nodes)
scan-nodes o p (none ∷ ns) = scan-nodes o p ns
scan-nodes o p (some n ∷ ns) =
    scan-nodes o (visit o p (some n)) ns ∙ visited (admitted o n) (candidates o ns)
  where
    grown : (h e : Bool) → (ranked h e p n).nodes ≡ p.nodes ++ (n ∷ [])
    grown true e = refl
    grown false true = refl
    grown false false = refl

    visited :
        (b : Bool) (cs : List Node)
        → (if b then rank p n else p).nodes ++ cs ≡ p.nodes ++ (if b then n ∷ cs else cs)
    visited true cs = ap (λ us. us ++ cs) (grown _ _) ∙ append_assoc p.nodes (n ∷ []) cs
    visited false cs = refl

pub candidates-Memᴰ :
    (o : SelectOptions) (ns : List (Option Node)) (v : Node)
    → Memᴰ v (candidates o ns)
    → Memᴰ (some v) ns × (admitted o v ≡ true)
candidates-Memᴰ o [] v i = elim i [ ]
candidates-Memᴰ o (none ∷ ns) v i = let (j, e) = candidates-Memᴰ o ns v i in (Memᴰ.tail j, e)
candidates-Memᴰ o (some n ∷ ns) v i = by_case (admitted o n) refl i (candidates-Memᴰ o ns v)
  where
    by_case :
        (b : Bool)
        → admitted o n ≡ b
        → Memᴰ v (if b then n ∷ candidates o ns else candidates o ns)
        → (Memᴰ v (candidates o ns) → Memᴰ (some v) ns × (admitted o v ≡ true))
        → Memᴰ (some v) (some n ∷ ns) × (admitted o v ≡ true)
    by_case true e (Memᴰ.head q) ih = (Memᴰ.head (ap some q), ap (admitted o) q ∙ e)
    by_case true e (Memᴰ.tail i) ih = let (j, e) = ih i in (Memᴰ.tail j, e)
    by_case false e i ih = let (j, e) = ih i in (Memᴰ.tail j, e)

pub Memᴰ-candidates :
    (o : SelectOptions) (ns : List (Option Node)) (v : Node)
    → Memᴰ (some v) ns
    → admitted o v ≡ true
    → Memᴰ v (candidates o ns)
Memᴰ-candidates o [] v i e = elim i [ ]
Memᴰ-candidates o (none ∷ ns) v (Memᴰ.head q) e = cc
Memᴰ-candidates o (none ∷ ns) v (Memᴰ.tail i) e = Memᴰ-candidates o ns v i e
Memᴰ-candidates o (some n ∷ ns) v (Memᴰ.tail i) e =
    later (admitted o n) (Memᴰ-candidates o ns v i e)
  where
    later :
        (b : Bool)
        → Memᴰ v (candidates o ns)
        → Memᴰ v (if b then n ∷ candidates o ns else candidates o ns)
    later true i = Memᴰ.tail i
    later false i = i
Memᴰ-candidates o (some n ∷ ns) v (Memᴰ.head q) e =
    subst (λ b. Memᴰ v (if b then n ∷ candidates o ns else candidates o ns))
      (sym (ap (admitted o) (sym same) ∙ e)) (Memᴰ.head same)
  where
    same : v ≡ n
    same = cc
