-- ===== src/Conn/Keys/Reload.antt =====
-- A reload makes limiters anew and keeps the counts of the old ones.
use go_gost_x.Prelude.{
  ℕ, suc, ◌<◌, ◌≤◌, ◌≡◌, refl, ◌∙◌, sym, inl, inr, Bool, true, false, ◌||◌, List, [], ◌∷◌, ◌++◌,
  map, Option, none, some, if◌then◌else◌, ℤ, pos, ltb_ℤ, leb_ℤ, arith, Bool-cases,
}
use go_gost_x.Text.{Text, text_eq, text_eq_iff, is_empty, lookup, insert, lookup-insert}
use go_gost_x.Matcher.Cidr.{IpNet}
use go_gost_x.Conn.Keys.{
  Generator, many, single, new_limiter, new_single, Ranger, ConnLimiter, Built, put_line, put_lines,
  put_net, put_single, put_address, reload, global_limit_key, ip_limit_key,
}
use go_gost_x.Conn.Keys.Tally.{Tallied, new_limiter-Tallied}
use go_gost_x.Conn.Keys.Choice.{Singles, IsSound}

single_injective : {f x : ℕ} → some (single (some f)) ≡ some (single (some x)) → f ≡ x
single_injective e = cc

or_right : (a b : Bool) → (a || b) ≡ false → b ≡ false
or_right a b e = ground arith

-- A new limiter is no other entry's.
insert-Singles :
    (m : List (Text × Generator)) (key : Text) (f : ℕ)
    → Singles m f
    → Singles (insert key (single (some f)) m) (suc f)
insert-Singles m key f v = record {
  below = λ k x e. below k x (text_eq key k) (sym (lookup-insert key k _ m) ∙ e);
  apart = λ j k x e d.
      apart j k x (text_eq key j) (text_eq key k) refl refl (sym (lookup-insert key j _ m) ∙ e)
        (sym (lookup-insert key k _ m) ∙ d);
}
  where
    below :
        (k : Text) (x : ℕ) (b : Bool)
        → (if b then some (single (some f)) else lookup k m) ≡ some (single (some x))
        → x < suc f
    below k x true e = omega (arith, single_injective e)
    below k x false e = omega (arith, v.below k x e)

    apart :
        (j k : Text) (x : ℕ) (b c : Bool)
        → text_eq key j ≡ b
        → text_eq key k ≡ c
        → (if b then some (single (some f)) else lookup j m) ≡ some (single (some x))
        → (if c then some (single (some f)) else lookup k m) ≡ some (single (some x))
        → text_eq j k ≡ true
    apart j k x true true p q e d =
        ground (arith, text_eq_iff key j, text_eq_iff key k, text_eq_iff j k)
    apart j k x true false p q e d = absurd (omega (arith, single_injective e, v.below k x d))
    apart j k x false true p q e d = absurd (omega (arith, single_injective d, v.below j x e))
    apart j k x false false p q e d = v.apart j k x e d

-- The generator of the default is no single limiter.
insert_many-Singles :
    (m : List (Text × Generator)) (key : Text) (n : ℤ) (f : ℕ)
    → Singles m f
    → Singles (insert key (many n) m) f
insert_many-Singles m key n f v = record {
  below = λ k x e. v.below k x (older k x (text_eq key k) (sym (lookup-insert key k _ m) ∙ e));
  apart = λ j k x e d.
      v.apart j k x (older j x (text_eq key j) (sym (lookup-insert key j _ m) ∙ e))
        (older k x (text_eq key k) (sym (lookup-insert key k _ m) ∙ d));
}
  where
    older :
        (k : Text) (x : ℕ) (b : Bool)
        → (if b then some (many n) else lookup k m) ≡ some (single (some x))
        → lookup k m ≡ some (single (some x))
    older k x true e = cc
    older k x false e = e

record IsBuilt {r : Ranger} (n : ℕ → ℕ) (f : ℕ) (b : Built r) : Type 0 where
  tallied : Tallied n b.store
  singles : Singles b.ip_limits b.store.fresh
  grows : f ≤ b.store.fresh

module _ (r : Ranger) (parse_ip : Text → Option (List ℕ)) (parse_cidr : Text → Option IpNet)
    (n : ℕ → ℕ) where
  put_single-IsBuilt :
      (f : ℕ) (key : Text) (k : ℤ) (b : Built r)
      → leb_ℤ k (pos 0) ≡ false
      → IsBuilt n f b
      → IsBuilt n f (put_single r parse_ip parse_cidr key k b)
  unfolding new_single new_limiter
  put_single-IsBuilt f key k b h v =
      let p : ltb_ℤ (pos 0) k ≡ true = ground arith in
      rw p (record {
        tallied = new_limiter-Tallied n k b.store p v.tallied;
        singles = insert-Singles b.ip_limits key b.store.fresh v.singles;
        grows = omega (arith, v.grows);
      })

  put_line-IsBuilt :
      (f : ℕ) (line : Text × ℤ) (b : Built r)
      → IsBuilt n f b
      → IsBuilt n f (put_line r parse_ip parse_cidr line b)
  unfolding put_line
  put_line-IsBuilt f (key, k) b v = elim (Bool-cases (is_empty key || leb_ℤ k (pos 0))) [
    | inl e ↦ rw e v
    | inr e ↦ rw e (
        go (text_eq key global_limit_key) (text_eq key ip_limit_key) (parse_ip key)
          (or_right (is_empty key) (leb_ℤ k (pos 0)) e))
  ]
    where
      put_other : (o : Option IpNet) → IsBuilt n f (put_net r parse_ip parse_cidr k o b)
      put_other none = v
      put_other (some net) = record { tallied = v.tallied; singles = v.singles; grows = v.grows }

      go :
          (c d : Bool) (o : Option (List ℕ))
          → leb_ℤ k (pos 0) ≡ false
          → IsBuilt n f (
              if c
              then put_single r parse_ip parse_cidr key k b
              else if d
              then record b { ip_limits = insert key (many k) b.ip_limits }
              else put_address r parse_ip parse_cidr key k o b)
      go true d o h = put_single-IsBuilt f key k b h v
      go false true o h = record {
        tallied = v.tallied;
        singles = insert_many-Singles b.ip_limits key k b.store.fresh v.singles;
        grows = v.grows;
      }
      go false false (some ip) h = put_single-IsBuilt f key k b h v
      go false false none h = put_other (parse_cidr key)

  put_lines-IsBuilt :
      (f : ℕ) (lines : List (Text × ℤ)) (b : Built r)
      → IsBuilt n f b
      → IsBuilt n f (put_lines r parse_ip parse_cidr lines b)
  unfolding put_lines
  put_lines-IsBuilt f [] b v = v
  put_lines-IsBuilt f (x ∷ xs) b v =
      put_lines-IsBuilt f xs (put_line r parse_ip parse_cidr x b) (put_line-IsBuilt f x b v)

  pub reload-IsSound :
      (parse_limit : Text → Text × ℤ) (l : ConnLimiter r) (loaded : List Text)
      → IsSound n l
      → IsSound n (reload r parse_ip parse_cidr parse_limit l loaded)
        × (l.store.fresh ≤ (reload r parse_ip parse_cidr parse_limit l loaded).store.fresh)
  unfolding reload
  reload-IsSound parse_limit l loaded v =
      let b =
        put_lines-IsBuilt l.store.fresh (map parse_limit (l.lines ++ loaded)) empty_built start in
      (record { tallied = b.tallied; singles = b.singles; groups = λ k g e. cc }, b.grows)
    where
      empty_built : Built r
      empty_built = record { ip_limits = []; cidr_limits = r.empty; store = l.store }

      start : IsBuilt n l.store.fresh empty_built
      start = record {
        tallied = v.tallied;
        singles = record { below = λ k x e. cc; apart = λ j k x e d. cc };
        grows = omega arith;
      }
