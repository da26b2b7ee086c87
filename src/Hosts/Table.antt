-- ===== src/Hosts/Table.antt =====
-- What the table holds, and what a lookup of a host answers.
use go_gost_x.Prelude.{
  ◌≡◌, refl, ◌∙◌, ap, ap₂, sym, Bool, true, false, List, [], ◌∷◌, ◌++◌, Option, none, some,
  if◌then◌else◌, arith, All,
}
use go_gost_x.Text.{Text, dot, lookup, lookup-insert, text_eq, text_eq_iff}
use go_gost_x.Matcher.Suffix.{dotted, IsLabel, keys}
use go_gost_x.Hosts.{
  Ip, Mapping, Mappings, or_nil, add_ip, map_ip, map_all, reload, or_next, answer, lookup_host,
}
use go_gost_x.Hosts.Tails.{first, find_ips-first}

-- The addresses of a name, in the order of the lines, those that Equal an earlier one left out.
abbrev pub ips_of : Text → List Ip → List Mapping → List Ip
ips_of k ips [] = ips
ips_of k ips (x ∷ xs) = ips_of k (if text_eq x.hostname k then add_ip x.ip ips else ips) xs

abbrev pub non_nil : List Ip → Option (List Ip)
non_nil [] = none
non_nil (ip ∷ ips) = some (ip ∷ ips)

add_ip-non_nil : (ip : Ip) (ips : List Ip) → non_nil (add_ip ip ips) ≡ some (add_ip ip ips)
add_ip-non_nil ip [] = refl
add_ip-non_nil ip (x ∷ xs) = ground arith

map_all-ips_of :
    (m : Mappings) (xs : List Mapping) (k : Text) (ips : List Ip)
    → lookup k m ≡ non_nil ips
    → lookup k (map_all m xs) ≡ non_nil (ips_of k ips xs)
unfolding map_all
map_all-ips_of m [] k ips h = h
map_all-ips_of m (x ∷ xs) k ips h = map_all-ips_of (map_ip m x) xs k _ (
    lookup-insert x.hostname k (add_ip x.ip (or_nil (lookup x.hostname m))) m
    ∙ same_name (text_eq x.hostname k) refl)
  where
    or_nil-non_nil : (ys : List Ip) → or_nil (non_nil ys) ≡ ys
    or_nil-non_nil [] = refl
    or_nil-non_nil (y ∷ ys) = refl

    same_name :
        (b : Bool)
        → text_eq x.hostname k ≡ b
        → (if b then some (add_ip x.ip (or_nil (lookup x.hostname m))) else lookup k m)
          ≡ non_nil (if b then add_ip x.ip ips else ips)
    same_name true e =
        let at = (text_eq_iff x.hostname k).0 e in
        ap (λ o. some (add_ip x.ip (or_nil o))) (ap (λ j. lookup j m) at ∙ h)
        ∙ (ap (λ ys. some (add_ip x.ip ys)) (or_nil-non_nil ips) ∙ sym (add_ip-non_nil x.ip ips))
    same_name false e = h

first-ext :
    (f g : Text → Option (List Ip)) (ks : List Text)
    → ((k : Text) → f k ≡ g k)
    → first f ks ≡ first g ks
first-ext f g [] e = refl
first-ext f g (k ∷ ks) e = ap₂ or_next (e k) (first-ext f g ks e)

first-append :
    (f : Text → Option (List Ip)) (ks : List Text) (k : Text)
    → or_next (first f ks) (f k) ≡ first f (ks ++ (k ∷ []))
first-append f [] k = last (f k)
  where
    last : (o : Option (List Ip)) → o ≡ or_next o none
    last none = refl
    last (some ips) = refl
first-append f (j ∷ ks) k = before (f j) _ _ _ (first-append f ks k)
  where
    before : (o p q r : Option (List Ip)) → or_next p q ≡ r → or_next (or_next o p) q ≡ or_next o r
    before none p q r e = e
    before (some ips) p q r e = refl

-- After a reload, a lookup of a host of non-empty labels answers the addresses of the first name in
-- this order that has lines: the host, the host after a dot, each of its shorter tails from a dot
-- on, and the single dot; no address twice, the options' lines before the loaded ones, and of the
-- network asked for only. It answers false exactly where none is left.
pub lookup_host-reload :
    (own loaded : List Mapping) (network l : Text) (ls : List Text)
    → All IsLabel (l ∷ ls)
    → lookup_host (reload own loaded) network (l ++ dotted ls)
      ≡ answer network
          (first (λ k. non_nil (ips_of k [] (own ++ loaded))) (keys l ls ++ ((dot ∷ []) ∷ [])))
unfolding lookup_host reload
lookup_host-reload own loaded network l ls v = ap (answer network) (
    find_ips-first (λ k. lookup k (map_all [] (own ++ loaded))) l ls v
    ∙ (first-append (λ k. lookup k (map_all [] (own ++ loaded))) (keys l ls) (dot ∷ [])
        ∙ first-ext (λ k. lookup k (map_all [] (own ++ loaded))) _ (keys l ls ++ ((dot ∷ []) ∷ []))
            (λ k. map_all-ips_of [] (own ++ loaded) k [] refl)))
