-- ===== src/Admission/Denial.antt =====
-- Who is denied after a reload.
use go_gost_x.Prelude.{
  ℕ, ◌≡◌, refl, ◌∙◌, ap, sym, ◌↔◌, inl, inr, Bool, true, false, not, ◌&&◌, ◌||◌, List, ◌++◌, Option,
  none, some, any,
}
use go_gost_x.Text.{Text, is_empty}
use go_gost_x.Matcher.Addr.{Addr, unmap}
use go_gost_x.Matcher.Cidr.{IpNet, match_cidr, match_cidr-Covers, cidr_matcher}
use go_gost_x.Matcher.Ip.{same_ip, match_ip, match_ip-same_ip, ip_matcher}
use go_gost_x.Bypass.{host_of}
use go_gost_x.Admission.{LocalAdmission, Found, admit, find, reload}
use go_gost_x.Admission.Patterns.{Hits, or-true, Listed, find-Hits}

by_mode : (white m : Bool) → ((not white && not m || white && m) ≡ white) ↔ (m ≡ true)
by_mode true m = (λ e. e, λ e. e)
by_mode false true = (λ e. refl, λ e. refl)
by_mode false false = (λ e. sym e, λ e. sym e)

module _ (parse_addr : Text → Option Addr) (parse_ip : Text → Option (List ℕ))
    (parse_cidr : Text → Option IpNet) (resolve : Text → Option (List ℕ)) where
  answer : Found → Option Addr → Bool
  answer f none = false
  answer f (some a) = any (λ b. same_ip b (unmap a)) f.ips

  match_ip-answer :
      (f : Found) (o : Option Addr)
      → elim o as (λ _. Bool) [ none ↦ false | some a ↦ any (λ b. same_ip b (unmap a)) f.ips ]
        ≡ answer f o
  unfolding answer
  match_ip-answer f none = refl
  match_ip-answer f (some a) = refl

  matched-Hits :
      (f : Found) (host : Text) (a : Addr)
      → parse_addr host ≡ some a
      → ((match_ip parse_addr (ip_matcher f.ips) host
            || match_cidr parse_addr (cidr_matcher f.inets) host)
          ≡ true)
        ↔ Hits f a
  unfolding answer
  matched-Hits f host a e =
      let ip =
        match_ip-same_ip parse_addr f.ips host
        ∙ (match_ip-answer f (parse_addr host) ∙ ap (answer f) e) in
      let net = match_cidr-Covers parse_addr f.inets host a e in
      let split =
        or-true (match_ip parse_addr (ip_matcher f.ips) host)
          (match_cidr parse_addr (cidr_matcher f.inets) host) in
      (
        λ h. (elim (split.0 h) [ inl x ↦ inl (sym ip ∙ x) | inr y ↦ inr (net.0 y) ]),
        λ l. (elim l [ inl x ↦ split.1 (inl (ip ∙ x)) | inr y ↦ split.1 (inr (net.1 y)) ]),
      )

  -- After a reload, a blacklist denies a non-empty address whose host is an IP address exactly when
  -- some pattern, its own or loaded, stands for that: is the address, or else a network that covers
  -- it, or else resolves to the address, IPv4 mappings taken off. A whitelist admits it exactly
  -- then. A network covers what the prefix covers that ipNetToPrefix makes of it, where the length
  -- of one over an IPv4-mapped address is kept, and cut to 32.
  pub admit-Listed :
      (p : LocalAdmission) (loaded : List Text) (addr : Text) (a : Addr)
      → is_empty addr ≡ false
      → parse_addr (host_of addr) ≡ some a
      → (admit parse_addr (reload parse_ip parse_cidr resolve p loaded) addr ≡ p.whitelist)
        ↔ Listed parse_ip parse_cidr resolve (p.matchers ++ loaded) a
  unfolding admit reload
  admit-Listed p loaded addr a n e =
      let f = find parse_ip parse_cidr resolve (p.matchers ++ loaded) in
      let m = matched-Hits f (host_of addr) a e in
      let hits = find-Hits parse_ip parse_cidr resolve (p.matchers ++ loaded) a in
      let mode = by_mode p.whitelist _ in
      rw n (λ h. hits.0 (m.0 (mode.0 h)), λ l. mode.1 (m.1 (hits.1 l)))
