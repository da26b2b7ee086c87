-- ===== src/Tests/Entering.antt =====
-- An ingress with rules for a domain and a host, and an authenticator with two users.
use go_gost_x.Prelude.{◌≡◌, refl, true, false, [], ◌∷◌, ◌++◌, none, some, map, Memᴰ}
use go_gost_x.Text.{Text, bytes, split_host_port}
use go_gost_x.Matcher.Suffix.{dotted, keys}
use go_gost_x.Hosts.Tails.{first}
use go_gost_x.Loader.{lists}
use go_gost_x.Loader as Loading
use go_gost_x.Ingress.{Rule, Rules, get_rule, parse_line}
use go_gost_x.Ingress as Ingress
use go_gost_x.Ingress.Table as Table
use go_gost_x.Ingress.Table.{get_rule-reload, reload-listed}
use go_gost_x.Auth.{Kvs, Loaders, maps, reads, load, reload, accepts, authenticate, or_empty}
use go_gost_x.Auth.Users.{latest, reload-authenticate}

abbrev no_trim : Text → Text
no_trim s = s

abbrev domain_rule : Rule
domain_rule = record { hostname = bytes "*.a.org"; endpoint = bytes "e1" }

abbrev host_rule : Rule
host_rule = record { hostname = bytes "w.a.org"; endpoint = bytes "e2" }

get_rule-reload_example :
    (n : Rules) × (Ingress.reload (map some (domain_rule ∷ [])) (map some (host_rule ∷ []))
      ≡ some n)
    × (get_rule n (bytes "v" ++ dotted (bytes "a" ∷ bytes "org" ∷ []))
        ≡ first
            (λ k. Table.latest k none ((domain_rule ∷ []) ++ (host_rule ∷ [])))
            (keys (bytes "v") (bytes "a" ∷ bytes "org" ∷ [])))
unfolding split_host_port
get_rule-reload_example =
    get_rule-reload (domain_rule ∷ []) (host_rule ∷ []) (bytes "v") (bytes "a" ∷ bytes "org" ∷ [])
      (((λ e. cc), refl), (((λ e. cc), refl), (((λ e. cc), refl), tt))) refl

abbrev listed : Loading.Loaders
listed = record {
  file_loader = some (lists (bytes "w.a.org e2" ∷ bytes "# more" ∷ []));
  redis_loader = none;
  http_loader = none;
}

reload-listed_example : Ingress.reload (some domain_rule ∷ []) (Ingress.load no_trim listed) ≡ none
unfolding parse_line
reload-listed_example =
    reload-listed no_trim (some domain_rule ∷ []) listed (bytes "w.a.org e2" ∷ bytes "# more" ∷ [])
      (bytes "# more") refl (Memᴰ.tail (Memᴰ.head refl)) refl

abbrev users : Kvs
users = (bytes "ann", bytes "x") ∷ (bytes "bob", []) ∷ []

abbrev stored : Loaders
stored = record {
  file_loader = none;
  redis_loader = some (maps (some ((bytes "ann", bytes "y") ∷ [])) false);
  http_loader = none;
}

reload-authenticate_example :
    (n : Kvs) × (reload no_trim [] users stored ≡ some n)
    × ((authenticate n (bytes "ann") (bytes "y")).1
        ≡ accepts (bytes "y") (
            latest
              (bytes "ann")
              none
              (users ++ or_empty no_trim (some ((bytes "ann", bytes "y") ∷ [])))))
unfolding load
reload-authenticate_example =
    reload-authenticate no_trim [] users stored (some ((bytes "ann", bytes "y") ∷ [])) (bytes "ann")
      (bytes "y") refl refl

abbrev missing : Loaders
missing = record {
  file_loader = some (reads none true);
  redis_loader = some (maps (some users) false);
  http_loader = none;
}

-- A file that is missing leaves a nil map, into which the entries of the next loader are copied.
no_file : reload no_trim [] users missing ≡ none
unfolding reload load
no_file = refl
