-- ===== src/Tests/Ruling.antt =====
-- The matchers of routing rules, with packages that know no regular expression, no number and no
-- address.
use go_gost_x.Prelude.{
  if◌then◌else◌, ◌==◌, ℕ, ◌≡◌, refl, ◌↔◌, inl, inr, Bool, true, false, [], ◌∷◌, Option, none, some,
}
use go_gost_x.Text.{Text, bytes, dot, split_host_port}
use go_gost_x.Routing.Request.{Request}
use go_gost_x.Routing.Funcs.{Packages, Matcher, Built, built}
use go_gost_x.Routing.Funcs.Host.{host, request_host, parse_host}
use go_gost_x.Routing.Funcs.Host.Meaning.{IsHostOf, host-IsHostOf}
use go_gost_x.Routing.Funcs.Table.{matcher, http_funcs}
use go_gost_x.Routing.Funcs.Table.Total.{matcher-IsTotal}
use go_gost_x.Routing.Funcs.Table.Each.{IsTotal}

-- Texts are taken to have no upper case; the only white space is a blank.
abbrev trim : Text → Text
trim [] = []
trim (b ∷ s) = let rest = trim s in if b == b' ' then rest else b ∷ s

abbrev packages : Packages ℕ
packages = record {
  to_lower = λ s. s;
  to_upper = λ s. s;
  trim_space = trim;
  canonical_key = λ s. s;
  compile = λ s. none;
  parse_float = λ s. none;
  less = λ a b. false;
  less_or_equal = λ a b. false;
  same = λ a b. false;
  get_json = λ body path. [];
  parse_ip = λ s. none;
  parse_cidr = λ s. none;
  admission = λ name. none;
  bypass = λ name. none;
}

host-IsHostOf_example :
    (f : Matcher) × (host packages (bytes "*.a.org" ∷ []) ≡ built f)
    × ((req : Request)
        → (f req ≡ some true) ↔ IsHostOf dot (bytes "a.org") (request_host packages req))
host-IsHostOf_example = host-IsHostOf packages (bytes "*.a.org") [] dot (bytes "a.org") refl refl

matcher-IsTotal_example : IsTotal (matcher packages (bytes "Host") (bytes "a.org" ∷ []))
unfolding http_funcs
matcher-IsTotal_example =
    matcher-IsTotal packages (bytes "Host") (bytes "a.org" ∷ []) (inr (inr (inr (inl refl))))
      (λ h. refl)

abbrev request : Request
request = record {
  client_ip = none;
  network = bytes "tcp";
  host = bytes "www.a.org:80";
  protocol = [];
  method = [];
  path = [];
  query = none;
  header = none;
  body = [];
}

abbrev run : Built → Option (Option Bool)
run (built f) = some (f request)
run r = none

-- A domain matches a subdomain, at a dot, and a blank pattern panics.
subdomain : run (host packages (bytes "*a.org" ∷ [])) ≡ some (some true)
unfolding host parse_host split_host_port
subdomain = refl

not_a_label : run (host packages (bytes "*.org.a" ∷ [])) ≡ some (some false)
unfolding host parse_host split_host_port
not_a_label = refl

blank : run (host packages (bytes "  " ∷ [])) ≡ some none
unfolding host parse_host split_host_port
blank = refl
