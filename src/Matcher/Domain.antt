-- ===== src/Matcher/Domain.antt =====
-- internal/matcher/matcher.go: DomainMatcher. `lower` is strings.ToLower.
use go_gost_x.Prelude.{
  ◌≡◌, refl, Bool, true, false, ◌||◌, List, [], ◌∷◌, ◌++◌, arith, if◌then◌else◌, any, All, any-swap,
  any-ext, any_none, Bool-cases, inl, inr, subst, sym, ap, ◌∙◌,
}
use go_gost_x.Text.{Text, text_eq, text_eq_iff}
use go_gost_x.Matcher.Suffix.{match_name, dotted, IsLabel, keys, match_name-keys}

-- map[string]struct{}
abbrev has : List Text → Text → Bool
has set k = any (λ d. text_eq d k) set

abbrev put : Text → List Text → List Text
put k set = if has set k then set else k ∷ set

abbrev is_nil : List Text → Bool
is_nil [] = true
is_nil (d ∷ ds) = false

has-put : (k j : Text) (set : List Text) → has (put k set) j ≡ (text_eq k j || has set j)
has-put k j set = elim (Bool-cases (has set k)) [
  | inl old ↦ rw old (elim (Bool-cases (text_eq k j)) [
    | inl same ↦ rw same (subst (λ i. has set i ≡ true) ((text_eq_iff k j).0 same) old)
    | inr other ↦ rw other
  ])
  | inr new ↦ rw new
]

module _ (lower : Text → Text) where
  fill : List Text → List Text → List Text
  fill [] set = set
  fill (d ∷ ds) set = fill ds (put (lower d) set)

  unfoldable pub domain_matcher : List Text → List Text
  unfolding fill
  domain_matcher domains = fill domains []

  unfoldable pub match_domain : List Text → Text → Bool
  unfolding match_name
  match_domain set domain = if is_nil set then false else match_name (has set) (lower domain)

  has-fill :
      (ds set : List Text) (k : Text)
      → has (fill ds set) k ≡ (any (λ d. text_eq (lower d) k) ds || has set k)
  unfolding fill
  has-fill [] set k = refl
  has-fill (d ∷ ds) set k =
      ground (arith, has-fill ds (put (lower d) set) k, has-put (lower d) k set)

  has-fill_nil :
      (ds : List Text) (k : Text) → has (fill ds []) k ≡ any (λ d. text_eq (lower d) k) ds
  has-fill_nil ds k = ground (arith, has-fill ds [] k)

  match_domain-has :
      (set : List Text) (name l : Text) (ls : List Text)
      → lower name ≡ l ++ dotted ls
      → All IsLabel (l ∷ ls)
      → match_domain set name ≡ any (has set) (keys l ls)
  unfolding match_domain
  match_domain-has [] name l ls e v = sym (any_none (keys l ls))
  match_domain-has (d ∷ ds) name l ls e v =
      ap (match_name (has (d ∷ ds))) e ∙ match_name-keys (has (d ∷ ds)) l ls v

  -- A matcher built from a list of domains matches a name made of non-empty labels exactly when
  -- one of the domains, in lower case, is the name, or is one of the name's tails from a dot on,
  -- the whole name after a dot among them.
  pub match_domain-keys :
      (domains : List Text) (name l : Text) (ls : List Text)
      → lower name ≡ l ++ dotted ls
      → All IsLabel (l ∷ ls)
      → match_domain (domain_matcher domains) name
        ≡ any (λ d. any (text_eq (lower d)) (keys l ls)) domains
  unfolding match_domain domain_matcher
  match_domain-keys domains name l ls e v =
      match_domain-has (domain_matcher domains) name l ls e v
      ∙ any-ext (has (domain_matcher domains)) (λ k. any (λ d. text_eq (lower d) k) domains)
          (keys l ls) (λ k. has-fill_nil domains k)
      ∙ any-swap (λ d k. text_eq (lower d) k) domains (keys l ls)
