-- ===== src/Admission/Patterns.antt =====
-- What a list of patterns stands for, and that `reload` finds it.
use go_gost_x.Prelude.{
  ℕ, ◌≡◌, refl, sym, ◌↔◌, ◌⊎◌, inl, inr, Bool, true, false, ◌||◌, List, [], ◌∷◌, subst, Option,
  none, some, any, Memᴰ,
}
use go_gost_x.Text.{Text}
use go_gost_x.Matcher.Addr.{Addr, unmap}
use go_gost_x.Matcher.CidrTrie.{Prefix}
use go_gost_x.Matcher.CidrTrie.Coverage.{Covers}
use go_gost_x.Matcher.Cidr.{IpNet, ip_net_to_prefix, prefixes}
use go_gost_x.Matcher.Ip.{same_ip}
use go_gost_x.Admission.{Found, find, put_ip}

-- The address is one of those found, or a network found covers it.
abbrev pub Hits : Found → Addr → Type 0
Hits f a =
    (any (λ b. same_ip b (unmap a)) f.ips ≡ true)
    ⊎ ((q : Prefix) × Memᴰ q (prefixes f.inets) × Covers q (unmap a))

-- A network covers the addresses that its prefix covers, as ipNetToPrefix reads it: the IPv4 mapping
-- of its address is taken off, and its length is cut to the bits that are left.
abbrev pub CoveredBy : Option Prefix → Addr → Type 0
CoveredBy none a = ⊥
CoveredBy (some q) a = Covers q (unmap a)

-- What a pattern stands for: an IP address, or else a network, or else the address it resolves to.
abbrev pub Means : Option (List ℕ) → Option IpNet → Option (List ℕ) → Addr → Type 0
Means (some ip) net resolved a = same_ip ip (unmap a) ≡ true
Means none (some net) resolved a = CoveredBy (ip_net_to_prefix net) a
Means none none (some ip) a = same_ip ip (unmap a) ≡ true
Means none none none a = ⊥

pub or-true : (x y : Bool) → ((x || y) ≡ true) ↔ ((x ≡ true) ⊎ (y ≡ true))
or-true true y = (λ e. inl refl, λ s. refl)
or-true false y = (λ e. inr e, λ s. elim s [ inl e ↦ absurd cc | inr e ↦ e ])

module _ (parse_ip : Text → Option (List ℕ)) (parse_cidr : Text → Option IpNet)
    (resolve : Text → Option (List ℕ)) where
  abbrev pub Listed : List Text → Addr → Type 0
  Listed [] a = ⊥
  Listed (s ∷ ss) a = Means (parse_ip s) (parse_cidr s) (resolve s) a ⊎ Listed ss a

  address-Hits :
      (ip : List ℕ) (f : Found) (a : Addr)
      → Hits (record f { ips = ip ∷ f.ips }) a ↔ ((same_ip ip (unmap a) ≡ true) ⊎ Hits f a)
  address-Hits ip f a =
      let split = or-true (same_ip ip (unmap a)) (any (λ b. same_ip b (unmap a)) f.ips) in
      (
        λ h. (elim h [
          | inl x ↦ (elim (split.0 x) [ inl s ↦ inl s | inr y ↦ inr (inl y) ])
          | inr n ↦ inr (inr n)
        ]),
        λ h. (elim h [
          | inl s ↦ inl (split.1 (inl s))
          | inr t ↦ (elim t [ inl y ↦ inl (split.1 (inr y)) | inr n ↦ inr n ])
        ]),
      )

  prefixed : Option Prefix → List Prefix → List Prefix
  prefixed none qs = qs
  prefixed (some q) qs = q ∷ qs

  Memᴰ-prefixed :
      (o : Option Prefix) (qs : List Prefix) (a : Addr)
      → ((q : Prefix) × Memᴰ q (prefixed o qs) × Covers q (unmap a))
        ↔ (CoveredBy o a ⊎ ((q : Prefix) × Memᴰ q qs × Covers q (unmap a)))
  unfolding prefixed
  Memᴰ-prefixed none qs a = (λ h. inr h, λ h. elim h [ inl x ↦ absurd x | inr y ↦ y ])
  Memᴰ-prefixed (some p) qs a = (there, back)
    where
      there :
          (q : Prefix) × Memᴰ q (p ∷ qs) × Covers q (unmap a)
          → Covers p (unmap a) ⊎ ((q : Prefix) × Memᴰ q qs × Covers q (unmap a))
      there (q, Memᴰ.head e, c) = inl (subst (λ r. Covers r (unmap a)) e c)
      there (q, Memᴰ.tail m, c) = inr (q, m, c)

      back :
          Covers p (unmap a) ⊎ ((q : Prefix) × Memᴰ q qs × Covers q (unmap a))
          → (q : Prefix) × Memᴰ q (p ∷ qs) × Covers q (unmap a)
      back (inl c) = (p, Memᴰ.head refl, c)
      back (inr (q, m, c)) = (q, Memᴰ.tail m, c)

  prefixes-prefixed :
      (net : IpNet) (nets : List IpNet)
      → prefixes (net ∷ nets) ≡ prefixed (ip_net_to_prefix net) (prefixes nets)
  unfolding prefixed
  prefixes-prefixed net nets = by_case (ip_net_to_prefix net)
    where
      by_case :
          (o : Option Prefix)
          → elim o as (λ _. List Prefix) [ none ↦ prefixes nets | some p ↦ p ∷ prefixes nets ]
            ≡ prefixed o (prefixes nets)
      by_case none = refl
      by_case (some p) = refl

  network-Hits :
      (net : IpNet) (f : Found) (a : Addr)
      → Hits (record f { inets = net ∷ f.inets }) a
        ↔ (CoveredBy (ip_net_to_prefix net) a ⊎ Hits f a)
  network-Hits net f a =
      let split = Memᴰ-prefixed (ip_net_to_prefix net) (prefixes f.inets) a in
      let e = prefixes-prefixed net f.inets in
      (
        λ h. (elim h [
          | inl y ↦ inr (inl y)
          | inr n ↦
              (elim (split.0 (subst (λ qs. (q : Prefix) × Memᴰ q qs × Covers q (unmap a)) e n)) [
                | inl c ↦ inl c
                | inr m ↦ inr (inr m)
              ])
        ]),
        λ h. (elim h [
          | inl c ↦ inr (
              subst (λ qs. (q : Prefix) × Memᴰ q qs × Covers q (unmap a)) (sym e) (split.1 (inl c)))
          | inr t ↦ (elim t [
            | inl y ↦ inl y
            | inr m ↦ inr (
                subst (λ qs. (q : Prefix) × Memᴰ q qs × Covers q (unmap a)) (sym e)
                  (split.1 (inr m)))
          ])
        ]),
      )

  one-Hits :
      (s : Text) (f : Found) (a : Addr)
      → Hits (put_ip parse_ip parse_cidr resolve s (parse_ip s) f) a
        ↔ (Means (parse_ip s) (parse_cidr s) (resolve s) a ⊎ Hits f a)
  one-Hits s f a = by_case (parse_ip s) (parse_cidr s) refl (resolve s) refl
    where
      none_more : Hits f a ↔ (⊥ ⊎ Hits f a)
      none_more = (λ h. inr h, λ h. elim h [ inl x ↦ absurd x | inr y ↦ y ])

      by_case :
          (i : Option (List ℕ)) (n : Option IpNet)
          → parse_cidr s ≡ n
          → (r : Option (List ℕ)) → resolve s ≡ r
          → Hits (put_ip parse_ip parse_cidr resolve s i f) a ↔ (Means i n r a ⊎ Hits f a)
      by_case (some ip) n en r er = address-Hits ip f a
      by_case none (some net) en r er = rw en (network-Hits net f a)
      by_case none none en (some ip) er = rw en (rw er (address-Hits ip f a))
      by_case none none en none er = rw en (rw er none_more)

  pub find-Hits :
      (ss : List Text) (a : Addr) → Hits (find parse_ip parse_cidr resolve ss) a ↔ Listed ss a
  unfolding find
  find-Hits [] a = (nothing, λ x. absurd x)
    where
      nothing : Hits (record { ips = []; inets = [] }) a → ⊥
      nothing (inl e) = cc
      nothing (inr (q, m, c)) = elim m [ ]
  find-Hits (s ∷ ss) a =
      let one = one-Hits s (find parse_ip parse_cidr resolve ss) a in
      let rest = find-Hits ss a in
      (
        λ h. (elim (one.0 h) [ inl x ↦ inl x | inr y ↦ inr (rest.0 y) ]),
        λ h. one.1 (elim h [ inl x ↦ inl x | inr y ↦ inr (rest.1 y) ]),
      )
