-- ===== src/Text/Affix.antt =====
-- strings.HasPrefix and HasSuffix.
use go_gost_x.Prelude.{
  ℕ, ◌+◌, ◌-◌, ◌≡◌, refl, sym, ap, ◌∙◌, Bool, true, false, ◌&&◌, [], ◌∷◌, ◌++◌, ◌==◌, arith, length,
  length-append, leb, take, drop, take-append-drop,
}
use go_gost_x.Text.Bytes.{Text, text_eq, text_eq_iff, text_eq_refl}

abbrev pub has_prefix : Text → Text → Bool
has_prefix s [] = true
has_prefix [] (c ∷ t) = false
has_prefix (b ∷ s) (c ∷ t) = b == c && has_prefix s t

abbrev pub has_suffix : Text → Text → Bool
has_suffix s t = leb (length t) (length s) && text_eq (drop (length s - length t) s) t

pub has_prefix-append : (t s : Text) → has_prefix (t ++ s) t ≡ true
has_prefix-append [] s = refl
has_prefix-append (c ∷ t) s = ground (arith, has_prefix-append t s)

pub has_prefix→append : (s t : Text) → has_prefix s t ≡ true → (r : Text) × (s ≡ t ++ r)
has_prefix→append s [] h = (s, refl)
has_prefix→append [] (c ∷ t) h = cc
has_prefix→append (b ∷ s) (c ∷ t) h =
    let (r, e) = has_prefix→append s t (ground arith) in (r, ground (arith, e))

drop-length : (s t : Text) → drop (length (s ++ t) - length t) (s ++ t) ≡ t
drop-length s t = rw (length-append s t, minus s t) (dropped s)
  where
    minus : (u v : Text) → length u + length v - length v ≡ length u
    minus u v = omega arith

    dropped : (u : Text) → drop (length u) (u ++ t) ≡ t
    dropped [] = refl
    dropped (b ∷ u) = dropped u

pub has_suffix-append : (s t : Text) → has_suffix (s ++ t) t ≡ true
has_suffix-append s t = rw (drop-length s t, text_eq_refl t) (ground (arith, length-append s t))

pub has_suffix→append : (s t : Text) → has_suffix s t ≡ true → (r : Text) × (s ≡ r ++ t)
has_suffix→append s t h = (take n s, sym (take-append-drop n s) ∙ ap (λ v. take n s ++ v) same)
  where
    n : ℕ
    n = length s - length t

    same : drop n s ≡ t
    same = (text_eq_iff (drop n s) t).0 (ground arith)
