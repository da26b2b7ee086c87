-- ===== src/Routing/Funcs/Host/Meaning.antt =====
-- Which hosts a Host rule matches.
use go_gost_x.Prelude.{
  ◌≡◌, refl, sym, ap, subst, ◌↔◌, ◌⊎◌, inl, inr, Bool, true, false, ◌&&◌, ◌==◌, List, [], ◌∷◌, ◌++◌,
  some, if◌then◌else◌, arith, ==_iff, ℕ,
}
use go_gost_x.Text.{
  Text, dot, text_eq, text_eq_iff, has_suffix, has_suffix-append, has_suffix→append,
}
use go_gost_x.Routing.Request.{Request}
use go_gost_x.Routing.Funcs.{built, Packages, Matcher, built, is_ascii}
use go_gost_x.Routing.Funcs.Host.{host_test, host_pattern, request_host, host}

-- A host that a pattern `c ∷ d` stands for: that text, or with a dot before it one that ends in it.
abbrev pub IsHostOf : ℕ → Text → Text → Type 0
IsHostOf c d n = (n ≡ c ∷ d) ⊎ ((c ≡ dot) × (q : Text) × (n ≡ q ++ (c ∷ d)))

some-eq : {a b : Bool} → some a ≡ some b → a ≡ b
some-eq e = cc

host_test-IsHostOf : (c : ℕ) (d n : Text) → (host_test (c ∷ d) n ≡ some true) ↔ IsHostOf c d n
host_test-IsHostOf c d [] = (none_here, from)
  where
    none_here : some false ≡ some true → IsHostOf c d []
    none_here e = cc

    from : IsHostOf c d [] → some false ≡ some true
    from (inl e) = cc
    from (inr (e, [], q)) = cc
    from (inr (e, b ∷ us, q)) = cc
host_test-IsHostOf c d (b ∷ n) = by_case (text_eq (b ∷ n) (c ∷ d)) refl
  where
    ends : Bool
    ends = c == dot && has_suffix (b ∷ n) (c ∷ d)

    by_case :
        (t : Bool)
        → text_eq (b ∷ n) (c ∷ d) ≡ t
        → ((if t then some true else some ends) ≡ some true) ↔ IsHostOf c d (b ∷ n)
    by_case true e = ((λ h. inl ((text_eq_iff (b ∷ n) (c ∷ d)).0 e)), λ i. refl)
    by_case false e = (to, from)
      where
        apart : {t : Bool} → t ≡ false → t ≡ true → ⊥
        apart p q = cc

        to : some ends ≡ some true → IsHostOf c d (b ∷ n)
        to h =
            let (us, r) = has_suffix→append (b ∷ n) (c ∷ d) (ground (arith, some-eq h)) in
            inr ((==_iff c dot).0 (ground (arith, some-eq h)), us, r)

        from : IsHostOf c d (b ∷ n) → some ends ≡ some true
        from (inl q) = absurd (apart e ((text_eq_iff (b ∷ n) (c ∷ d)).1 q))
        from (inr (q, us, r)) = ap some (
            ground (
              arith,
              q,
              subst (λ w. has_suffix w (c ∷ d) ≡ true) (sym r) (has_suffix-append us (c ∷ d)),
            ))

-- Where the first argument of Host is ASCII and its pattern not empty (in lower case, without white
-- space around it, and with a dot for a star at its start, unless one follows), there is no error,
-- and a request matches exactly when its host (without a port or brackets, in lower case and without
-- white space around it) is the pattern, or ends in the pattern and that starts with a dot.
pub host-IsHostOf :
    {F : Type 0} (p : Packages F) (s : Text) (rest : List Text) (c : ℕ) (d : Text)
    → is_ascii s ≡ true
    → host_pattern p s ≡ c ∷ d
    → (f : Matcher) × (host p (s ∷ rest) ≡ built f)
      × ((req : Request) → (f req ≡ some true) ↔ IsHostOf c d (request_host p req))
unfolding host
host-IsHostOf p s rest c d a e =
    rw (a, e)
      (
        (λ req. host_test (c ∷ d) (request_host p req)),
        refl,
        λ req. host_test-IsHostOf c d (request_host p req),
      )
