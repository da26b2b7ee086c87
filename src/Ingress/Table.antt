-- ===== src/Ingress/Table.antt =====
-- Which rule a host has after a reload.
use go_gost_x.Prelude.{
  subst, Memᴰ-append_right, Memᴰ, ◌≡◌, refl, sym, ap, ◌∙◌, Bool, true, false, ◌||◌, List, [], ◌∷◌,
  ◌++◌, Option, none, some, if◌then◌else◌, length, suc, All, arith, map,
}
use mathlib.Core.List.Memᴰ.{append_left}
use go_gost_x.Loader.{Loaders, lists}
use mathlib.Core.List.{map-append}
use go_gost_x.Text.{
  bare_whole, insert, Text, is_empty, lookup, lookup-insert, text_eq, split_host_port,
}
use go_gost_x.Matcher.Suffix.{dotted, IsLabel, keys}
use go_gost_x.Hosts.Tails.{first, tails-first}
use go_gost_x.Ingress.{
  Rule, Rules, parse_line, load, from_source, key_of, add_rule, add_all, reload, find_rule,
  get_rule,
}

-- The last rule with a host name and an endpoint that stands for a key, or `d`.
abbrev pub is_for : Text → Rule → Bool
is_for k r =
    if is_empty r.hostname || is_empty r.endpoint then false else text_eq (key_of r.hostname) k

abbrev pub latest : Text → Option Rule → List Rule → Option Rule
latest k d [] = d
latest k d (r ∷ rs) = latest k (if is_for k r then some r else d) rs

lookup-add_rule :
    (m : Rules) (r : Rule) (k : Text)
    → lookup k (add_rule m r) ≡ (if is_for k r then some r else lookup k m)
lookup-add_rule m r k = by_case (is_empty r.hostname || is_empty r.endpoint)
  where
    by_case :
        (b : Bool)
        → lookup k (if b then m else insert (key_of r.hostname) r m)
          ≡ (if (if b then false else text_eq (key_of r.hostname) k) then some r else lookup k m)
    by_case true = refl
    by_case false = lookup-insert (key_of r.hostname) k r m

add_all-latest :
    (m : Rules) (rs : List Rule)
    → (n : Rules) × (add_all m (map some rs) ≡ some n)
      × ((k : Text) → lookup k n ≡ latest k (lookup k m) rs)
unfolding add_all
add_all-latest m [] = (m, refl, λ k. refl)
add_all-latest m (r ∷ rs) =
    let (n, e, h) = add_all-latest (add_rule m r) rs in
    (n, e, λ k. h k ∙ ap (λ d. latest k d rs) (lookup-add_rule m r k))

find_rule-first :
    (find : Text → Option Rule) (l : Text) (ls : List Text)
    → All IsLabel (l ∷ ls)
    → find_rule find (l ++ dotted ls) ≡ first find (keys l ls)
unfolding find_rule
find_rule-first find l ls v =
    ground (arith, tails-first find (suc (length (l ++ dotted ls))) l ls v (omega arith))

first-ext :
    (f g : Text → Option Rule) (ks : List Text) → ((k : Text) → f k ≡ g k) → first f ks ≡ first g ks
first-ext f g [] h = refl
first-ext f g (k ∷ ks) h = rw (h k, first-ext f g ks h) refl

-- A reload of rules none of which is nil does not panic, and a host of labels without a port then
-- has the first of these: the last rule for the host itself, for the host with a dot before it, and
-- for each of its tails from a dot on, a star at the start of a rule's host name left out. Rules
-- without a host name or an endpoint count for nothing.
pub get_rule-reload :
    (own loaded : List Rule) (l : Text) (ls : List Text)
    → All IsLabel (l ∷ ls)
    → split_host_port (l ++ dotted ls) ≡ none
    → (n : Rules) × (reload (map some own) (map some loaded) ≡ some n)
      × (get_rule n (l ++ dotted ls) ≡ first (λ k. latest k none (own ++ loaded)) (keys l ls))
unfolding reload get_rule
get_rule-reload own loaded [] ls v p = absurd (v.0.0 refl)
get_rule-reload own loaded (b ∷ l) ls v p =
    let (n, e, h) = add_all-latest [] (own ++ loaded) in
    (
      n,
      ap (add_all []) (sym (map-append some own loaded)) ∙ e,
      ap (find_rule (λ k. lookup k n)) (bare_whole ((b ∷ l) ++ dotted ls) p)
          ∙ find_rule-first (λ k. lookup k n) (b ∷ l) ls v
          ∙ first-ext (λ k. lookup k n) (λ k. latest k none (own ++ loaded)) (keys (b ∷ l) ls) h,
    )

add_all-nil : (m : Rules) (rs : List (Option Rule)) → Memᴰ none rs → add_all m rs ≡ none
unfolding add_all
add_all-nil m [] i = elim i [ ]
add_all-nil m (none ∷ rs) i = refl
add_all-nil m (some r ∷ rs) (Memᴰ.head e) = cc
add_all-nil m (some r ∷ rs) (Memᴰ.tail i) = add_all-nil (add_rule m r) rs i

Memᴰ-map_nil :
    (f : Text → Option Rule) (s : Text) (ss : List Text)
    → Memᴰ s ss
    → f s ≡ none
    → Memᴰ none (map f ss)
Memᴰ-map_nil f s [] i e = elim i [ ]
Memᴰ-map_nil f s (t ∷ ss) (Memᴰ.head q) e = Memᴰ.head (sym e ∙ ap f q)
Memᴰ-map_nil f s (t ∷ ss) (Memᴰ.tail i) e = Memᴰ.tail (Memᴰ-map_nil f s ss i e)

-- Where a file loader lists the lines of its file, a reload panics as soon as one of them is no rule:
-- an empty line, or a comment.
pub reload-listed :
    (trim_space : Text → Text) (own : List (Option Rule)) (l : Loaders) (ss : List Text) (s : Text)
    → l.file_loader ≡ some (lists ss)
    → Memᴰ s ss
    → parse_line trim_space s ≡ none
    → reload own (load trim_space l) ≡ none
unfolding reload load
reload-listed trim_space own l ss s f i e = add_all-nil [] _ (
    Memᴰ-append_right own (
      append_left _ (
        subst (λ o. Memᴰ none (from_source trim_space o)) (sym f)
          (Memᴰ-map_nil (parse_line trim_space) s ss i e))))
