-- ===== src/Conn/Keys/Limits.antt =====
-- Which limits a key has.
use go_gost_x.Prelude.{
  ℕ, ◌≤◌, ◌≡◌, refl, ◌∙◌, ap, ap₂, subst, Bool, true, false, List, [], ◌∷◌, ◌++◌, Option, none,
  some, if◌then◌else◌, ℤ, ltb_ℤ, arith,
}
use go_gost_x.Text.{Text, lookup}
use go_gost_x.Conn.{Heap}
use go_gost_x.Conn.Keys.{
  Generator, Store, from_entry, from_nets, Ranger, ConnLimiter, global_limit_key, ip_limit_key,
  or_else, for_ip, choose, new_limiter_group, keep_group, limiter,
}
use go_gost_x.Conn.Keys.Choice.{Singles}
use go_gost_x.Conn.Keys.Listed.{
  entry_limit, net_limit, first_of, in_order, both, limits_of, answer_limits, listed, Limited,
  Below, from_entry-Limited, from_nets-Limited, entry_limit-old, or_else-Limited, limits_of-old,
  limits_of-append,
}

two_limits :
    (h : Heap) (x y : ℕ) (c : Bool)
    → limits_of h (if c then y ∷ x ∷ [] else x ∷ y ∷ [])
      ≡ (if c then (h y).limit ∷ (h x).limit ∷ [] else (h x).limit ∷ (h y).limit ∷ [])
two_limits h x y true = refl
two_limits h x y false = refl

-- The limits of a group that is made of what was given.
keep_group-both :
    {r : Ranger} (parse_ip : Text → Option (List ℕ)) (l : ConnLimiter r) (key : Text) (s : Store)
    (xs : List ℕ) (a b : Option ℤ)
    → limits_of s.heap xs ≡ listed a ++ listed b
    → answer_limits (keep_group r parse_ip l key (s, xs)) ≡ both a b
unfolding new_limiter_group
keep_group-both parse_ip l key s [] none none e = refl
keep_group-both parse_ip l key s [] none (some b) e = absurd cc
keep_group-both parse_ip l key s [] (some a) none e = absurd cc
keep_group-both parse_ip l key s [] (some a) (some b) e = absurd cc
keep_group-both parse_ip l key s (x ∷ []) none none e = absurd cc
keep_group-both parse_ip l key s (x ∷ []) none (some b) e = ap (λ z. some z) e
keep_group-both parse_ip l key s (x ∷ []) (some a) none e = ap (λ z. some z) e
keep_group-both parse_ip l key s (x ∷ []) (some a) (some b) e = absurd cc
keep_group-both parse_ip l key s (x ∷ y ∷ xs) none none e = absurd cc
keep_group-both parse_ip l key s (x ∷ y ∷ xs) none (some b) e = absurd cc
keep_group-both parse_ip l key s (x ∷ y ∷ xs) (some a) none e = absurd cc
keep_group-both parse_ip l key s (x ∷ y ∷ []) (some a) (some b) e =
    let ea : (s.heap x).limit ≡ a = cc in
    let eb : (s.heap y).limit ≡ b = cc in
    ap (λ z. some z)
      (two_limits s.heap x y (ltb_ℤ (s.heap y).limit (s.heap x).limit) ∙ ap₂ in_order ea eb)
keep_group-both parse_ip l key s (x ∷ y ∷ z ∷ xs) (some a) (some b) e = absurd cc

module _ (r : Ranger) (parse_ip : Text → Option (List ℕ)) where
  -- The limit of a key's address: its own, or else that of the first network that holds it.
  abbrev pub address_limit : ConnLimiter r → Text → Option (List ℕ) → Option ℤ
  address_limit l key none = none
  address_limit l key (some ip) =
      first_of (entry_limit l.store.heap (lookup key l.ip_limits))
        (net_limit (r.containing l.cidr_limits ip))

  for_ip-Limited :
      (l : ConnLimiter r) (key : Text) (o : Option (List ℕ))
      → Singles l.ip_limits l.store.fresh
      → Limited (address_limit l key o) l.store (for_ip r parse_ip l key o)
  unfolding Below
  for_ip-Limited l key none v = record {
    old = λ j lt. refl;
    grows = omega arith;
    below = tt;
    same = refl;
  }
  for_ip-Limited l key (some ip) v =
      or_else-Limited _ _ l.store _ (from_nets (r.containing l.cidr_limits ip))
        (from_entry-Limited (lookup key l.ip_limits) l.store (v.below key))
        (from_nets-Limited (r.containing l.cidr_limits ip) _)

  -- Limiter of a key that has no group yet gives a group of at most two limits, the smaller first:
  -- the global one; and that of the key's entry, for an address that has one, or else of the first
  -- network that holds the address, or else of the entry for any address. Without any it gives
  -- none. The shared limiters of the entries are ones that were made.
  pub limiter-both :
      (l : ConnLimiter r) (key : Text)
      → Singles l.ip_limits l.store.fresh
      → lookup key l.limits ≡ none
      → answer_limits (limiter r parse_ip l key)
        ≡ both
            (first_of
              (address_limit l key (parse_ip key))
              (entry_limit l.store.heap (lookup ip_limit_key l.ip_limits)))
            (entry_limit l.store.heap (lookup global_limit_key l.ip_limits))
  unfolding limiter choose Below
  limiter-both l key v new =
      ap
        (λ o. answer_limits (elim o as (λ _. ConnLimiter r × Option (List ℕ)) [
          | some g ↦ (l, some g)
          | none ↦ keep_group r parse_ip l key (choose r parse_ip l key)
        ]))
        new
      ∙ keep_group-both parse_ip l key q.0 (p.1 ++ q.1) _ _ limits
    where
      default_entry : Option Generator
      default_entry = lookup ip_limit_key l.ip_limits

      global_entry : Option Generator
      global_entry = lookup global_limit_key l.ip_limits

      p : Store × List ℕ
      p = or_else (for_ip r parse_ip l key (parse_ip key)) (from_entry default_entry)

      q : Store × List ℕ
      q = from_entry global_entry p.0

      later : (k : Text) (s : Store) → l.store.fresh ≤ s.fresh → Below s (lookup k l.ip_limits)
      later k s le x e = omega (arith, v.below k x e)

      address :
          Limited
            (address_limit l key (parse_ip key))
            l.store
            (for_ip r parse_ip l key (parse_ip key))
      address = for_ip-Limited l key (parse_ip key) v

      a : Store
      a = (for_ip r parse_ip l key (parse_ip key)).0

      own :
          Limited
            (first_of (address_limit l key (parse_ip key)) (entry_limit l.store.heap default_entry))
            l.store
            p
      own = or_else-Limited _ _ l.store _ (from_entry default_entry) address (
          subst (λ o. Limited o a (from_entry default_entry a))
            (entry_limit-old default_entry l.store a.heap (v.below ip_limit_key) address.old)
            (from_entry-Limited default_entry a (later ip_limit_key a address.grows)))

      global : Limited (entry_limit p.0.heap global_entry) p.0 q
      global = from_entry-Limited global_entry p.0 (later global_limit_key p.0 own.grows)

      limits :
          limits_of q.0.heap (p.1 ++ q.1)
          ≡ listed (
              first_of
                (address_limit l key (parse_ip key))
                (entry_limit l.store.heap default_entry))
            ++ listed (entry_limit l.store.heap global_entry)
      limits =
          limits_of-append q.0.heap p.1 q.1
          ∙ ap₂ ◌++◌ (limits_of-old p.0.fresh p.0.heap q.0.heap p.1 global.old own.below ∙ own.same)
              (global.same
                ∙ ap listed (
                    entry_limit-old global_entry l.store p.0.heap (v.below global_limit_key)
                      own.old))
