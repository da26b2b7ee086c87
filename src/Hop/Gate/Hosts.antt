-- ===== src/Hop/Gate/Hosts.antt =====
-- Which hosts a node's filter lets through.
use go_gost_x.Prelude.{
  ◌≡◌, refl, sym, ◌↔◌, ◌⊎◌, inl, inr, true, false, ◌||◌, ◌∷◌, ◌++◌, arith, Bool-cases,
}
use go_gost_x.Text.{
  bare, Text, dot, text_eq, text_eq_iff, text_eq_refl, is_empty, has_suffix, has_suffix-append,
  has_suffix→append,
}
use go_gost_x.Hop.Node.{Node}
use go_gost_x.Hop.Gate.{filter_host, check_host}

-- A filter with a dot before a domain lets a host through exactly when the host without its port is
-- the filter's text or ends in the domain, at a dot or not; an empty host it does not.
pub check_host-dotted :
    (host domain : Text) (node : Node)
    → filter_host node.filter ≡ dot ∷ domain
    → is_empty host ≡ false
    → (check_host host node ≡ true)
      ↔ ((bare host ≡ dot ∷ domain) ⊎ ((p : Text) × (bare host ≡ p ++ domain)))
unfolding check_host
check_host-dotted host domain node e h = rw (e, h) (to, from)
  where
    to :
        (text_eq (dot ∷ domain) (bare host) || has_suffix (bare host) domain) ≡ true
        → (bare host ≡ dot ∷ domain) ⊎ ((p : Text) × (bare host ≡ p ++ domain))
    to q = elim (Bool-cases (has_suffix (bare host) domain)) [
      | inl s ↦ inr (has_suffix→append (bare host) domain s)
      | inr s ↦ inl (sym ((text_eq_iff (dot ∷ domain) (bare host)).0 (ground arith)))
    ]

    from :
        (bare host ≡ dot ∷ domain) ⊎ ((p : Text) × (bare host ≡ p ++ domain))
        → (text_eq (dot ∷ domain) (bare host) || has_suffix (bare host) domain) ≡ true
    from (inl q) = rw (q, text_eq_refl domain) refl
    from (inr (p, q)) = rw (q, has_suffix-append p domain) (ground arith)
