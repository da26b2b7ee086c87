-- ===== src/Hosts/Tails.antt =====
-- The order in which a host is looked up.
use go_gost_x.Prelude.{
  ℕ, zero, suc, ◌<◌, ◌≡◌, refl, ap, List, [], ◌∷◌, ◌++◌, Option, none, arith, length, length-append,
  All,
}
use go_gost_x.Text.{Text, dot}
use go_gost_x.Matcher.Suffix.{
  dotted, suffixes, IsLabel, keys, index_byte-label, index_byte-last, drop-append, drop-append_suc,
}
use go_gost_x.Hosts.{Ip, tails, or_next, find_ips}

-- The first of the keys that has addresses.
abbrev pub first : {A : Type 0} → (Text → Option A) → List Text → Option A
first find [] = none
first find (k ∷ ks) = or_next (find k) (first find ks)

pub tails-first :
    {A : Type 0} (find : Text → Option A) (fuel : ℕ) (l : Text) (ls : List Text)
    → All IsLabel (l ∷ ls)
    → length (l ++ dotted ls) < fuel
    → tails find fuel (l ++ dotted ls) ≡ first find (suffixes ls)
unfolding tails
tails-first find zero l ls v h = elim h [ ]
tails-first find (suc fuel) [] ls v h = absurd (v.0.0 refl)
tails-first find (suc fuel) (b ∷ l) [] v h = rw (index_byte-last (b ∷ l) v.0.1, tails) refl
tails-first find (suc fuel) (b ∷ l) (m ∷ ls) v h =
    rw (index_byte-label (b ∷ l) ls m v.0.1, tails)
      (rw (drop-append (b ∷ l) (dotted (m ∷ ls)), drop-append_suc (b ∷ l) (m ++ dotted ls) dot)
        (ap (or_next (find (dotted (m ∷ ls))))
          (tails-first find fuel m ls v.1 (omega (arith, length-append l (dotted (m ∷ ls)))))))

pub find_ips-first :
    (find : Text → Option (List Ip)) (l : Text) (ls : List Text)
    → All IsLabel (l ∷ ls)
    → find_ips find (l ++ dotted ls) ≡ or_next (first find (keys l ls)) (find (dot ∷ []))
unfolding find_ips
find_ips-first find l ls v =
    ground (arith, tails-first find (suc (length (l ++ dotted ls))) l ls v (omega arith))
