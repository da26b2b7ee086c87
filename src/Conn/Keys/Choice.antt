-- ===== src/Conn/Keys/Choice.antt =====
-- The limiters that a key is given, and the entries that they come from.
use go_gost_x.Prelude.{
  ℕ, ◌<◌, ◌≤◌, ◌≡◌, refl, ◌∙◌, ap, sym, ◌⊎◌, inl, inr, Bool, true, false, List, [], ◌∷◌, Option,
  none, some, arith, All,
}
use go_gost_x.Text.{Text, text_eq, text_eq_iff, lookup}
use go_gost_x.Conn.Group.{Distinct}
use go_gost_x.Conn.Keys.{
  Generator, single, Store, from_entry, Ranger, ConnLimiter, global_limit_key, ip_limit_key,
  or_else, for_ip,
}
use go_gost_x.Conn.Keys.Tally.{Tallied, Given, from_entry-Given, from_nets-Given}

-- A limiter that several keys are given stands for one entry only.
pub record Singles (m : List (Text × Generator)) (f : ℕ) : Type 0 where
  pub below : (k : Text) (x : ℕ) → lookup k m ≡ some (single (some x)) → x < f
  pub apart :
      (j k : Text) (x : ℕ)
      → lookup j m ≡ some (single (some x))
      → lookup k m ≡ some (single (some x))
      → text_eq j k ≡ true

abbrev pub IsGroup : ℕ → List ℕ → Type 0
IsGroup f g = Distinct g × All (λ x. x < f) g

pub record IsSound {r : Ranger} (n : ℕ → ℕ) (l : ConnLimiter r) : Type 0 where
  pub tallied : Tallied n l.store
  pub singles : Singles l.ip_limits l.store.fresh
  pub groups : (k : Text) (g : List ℕ) → lookup k l.limits ≡ some g → IsGroup l.store.fresh g

-- An entry of another key than the global one.
unfoldable pub Elsewhere : List (Text × Generator) → ℕ → Type 0
Elsewhere m x =
    (k : Text) × (text_eq k global_limit_key ≡ false) × (lookup k m ≡ some (single (some x)))

module _ (n : ℕ → ℕ) (Source : ℕ → Type 0) where
  or_else-Given :
      (s : Store) (p : Store × List ℕ) (next : Store → Store × List ℕ)
      → Given n Source s p
      → ((s' : Store) → s.fresh ≤ s'.fresh → Tallied n s' → Given n Source s' (next s'))
      → Given n Source s (or_else p next)
  or_else-Given s (s', []) next g h =
      let q = h s' g.grows g.tallied in
      record { tallied = q.tallied; grows = omega (arith, g.grows, q.grows); one = later q.one }
    where
      later :
          {ys : List ℕ} {f : ℕ}
          → (ys ≡ []) ⊎ ((x : ℕ) × (ys ≡ x ∷ []) × (x < f) × (Source x ⊎ (s'.fresh ≤ x)))
          → (ys ≡ []) ⊎ ((x : ℕ) × (ys ≡ x ∷ []) × (x < f) × (Source x ⊎ (s.fresh ≤ x)))
      later (inl e) = inl e
      later (inr (x, e, lt, inl src)) = inr (x, e, lt, inl src)
      later (inr (x, e, lt, inr le)) = inr (x, e, lt, inr (omega (arith, g.grows)))
  or_else-Given s (s', x ∷ xs) next g h = g

  -- The same facts from a source that says more.
  Given-weaken :
      (Strong : ℕ → Type 0) (s : Store) (p : Store × List ℕ)
      → ((x : ℕ) → Strong x → Source x)
      → Given n Strong s p
      → Given n Source s p
  Given-weaken Strong s p w g = record { tallied = g.tallied; grows = g.grows; one = weaker g.one }
    where
      weaker :
          (p.1 ≡ []) ⊎ ((x : ℕ) × (p.1 ≡ x ∷ []) × (x < p.0.fresh) × (Strong x ⊎ (s.fresh ≤ x)))
          → (p.1 ≡ []) ⊎ ((x : ℕ) × (p.1 ≡ x ∷ []) × (x < p.0.fresh) × (Source x ⊎ (s.fresh ≤ x)))
      weaker (inl e) = inl e
      weaker (inr (x, e, lt, inl src)) = inr (x, e, lt, inl (w x src))
      weaker (inr (x, e, lt, inr le)) = inr (x, e, lt, inr le)

-- An entry of a key that is not the global one.
entry-Given :
    (n : ℕ → ℕ) (m : List (Text × Generator)) (k : Text) (f : ℕ) (s : Store)
    → Singles m f
    → f ≤ s.fresh
    → text_eq k global_limit_key ≡ false
    → Tallied n s
    → Given n (Elsewhere m) s (from_entry (lookup k m) s)
unfolding Elsewhere
entry-Given n m k f s v le e t =
    Given-weaken n (Elsewhere m) (λ x. lookup k m ≡ some (single (some x))) s _ (λ x h. (k, e, h))
      (from_entry-Given n (lookup k m) s (λ x h. omega (arith, v.below k x h)) t)

module _ (r : Ranger) (parse_ip : Text → Option (List ℕ))
    (not_ip : parse_ip global_limit_key ≡ none) where
  for_ip-Given :
      (n : ℕ → ℕ) (l : ConnLimiter r) (key : Text) (o : Option (List ℕ))
      → parse_ip key ≡ o
      → IsSound n l
      → Given n (Elsewhere l.ip_limits) l.store (for_ip r parse_ip l key o)
  for_ip-Given n l key none e v = record {
    tallied = v.tallied;
    grows = omega arith;
    one = inl refl;
  }
  for_ip-Given n l key (some ip) e v =
      or_else-Given n _ l.store _ _
        (entry-Given n l.ip_limits key l.store.fresh l.store v.singles (omega arith)
          (not_global (text_eq key global_limit_key) refl) v.tallied)
        (λ s' le t. from_nets-Given n _ (r.containing l.cidr_limits ip) s' t)
    where
      not_global : (b : Bool) → text_eq key global_limit_key ≡ b → b ≡ false
      not_global true h =
          let k : key ≡ global_limit_key = (text_eq_iff key global_limit_key).0 h in
          absurd (let q : none ≡ some ip = sym not_ip ∙ (ap parse_ip (sym k) ∙ e) in cc)
      not_global false h = refl

  pub own-Given :
      (n : ℕ → ℕ) (l : ConnLimiter r) (key : Text)
      → IsSound n l
      → Given n (Elsewhere l.ip_limits) l.store (
          or_else
            (for_ip r parse_ip l key (parse_ip key))
            (from_entry (lookup ip_limit_key l.ip_limits)))
  own-Given n l key v =
      or_else-Given n _ l.store _ _ (for_ip-Given n l key (parse_ip key) refl v)
        (λ s' le t. entry-Given n l.ip_limits ip_limit_key l.store.fresh s' v.singles le refl t)
