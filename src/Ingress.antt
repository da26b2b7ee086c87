-- ===== src/Ingress.antt =====
-- ingress/ingress.go: the rules of an ingress, by host name.
pub mod Table
use go_gost_x.Prelude.{
  ℕ, suc, Bool, true, false, ◌||◌, ◌==◌, List, [], ◌∷◌, ◌++◌, Option, none, some, if◌then◌else◌,
  drop, get_or, length, map,
}
use go_gost_x.Text.{bare, Text, dot, is_empty, lookup, insert, split_host_port}
use go_gost_x.Loader.{Source, lists, reads, Loaders, fields_of}
use go_gost_x.Hosts.{or_next, tails}

pub record Rule : Type 0 where
  pub hostname : Text
  pub endpoint : Text

abbrev pub Rules : Type 0
Rules = List (Text × Rule)

abbrev of_fields : List Text → Option Rule
of_fields [] = none
of_fields (h ∷ []) = none
of_fields (h ∷ e ∷ rest) = some (record { hostname = h; endpoint = e })

-- A rule that parseRules keeps.
abbrev keep_named : Option Rule → List (Option Rule) → List (Option Rule)
keep_named none rest = rest
keep_named (some r) rest = if is_empty r.hostname then rest else some r ∷ rest

-- A nil rule is none.
module _ (trim_space : Text → Text) where
  unfoldable pub parse_line : Text → Option Rule
  parse_line s = of_fields (fields_of trim_space s)

  abbrev parse_lines : List Text → List (Option Rule)
  unfolding parse_line
  parse_lines [] = []
  parse_lines (s ∷ ss) = keep_named (parse_line s) (parse_lines ss)

  unfoldable pub parse_rules : Option (List Text) → List (Option Rule)
  unfolding parse_lines
  parse_rules none = []
  parse_rules (some ss) = parse_lines ss

  -- The lines of a lister are all taken, with nil for one that is no rule.
  abbrev pub from_source : Option Source → List (Option Rule)
  from_source none = []
  from_source (some (lists ss)) = map parse_line ss
  from_source (some (reads r)) = parse_rules r

  abbrev from_http : Option (Option (List Text)) → List (Option Rule)
  from_http none = []
  from_http (some r) = parse_rules r

  unfoldable pub load : Loaders → List (Option Rule)
  unfolding parse_line parse_rules
  load l = from_source l.file_loader ++ (from_source l.redis_loader ++ from_http l.http_loader)

-- The key of a rule; a host name is not empty here.
abbrev pub key_of : Text → Text
key_of host = if get_or host 0 0 == b'*' then drop 1 host else host

-- The function `fn` of reload, for a rule that is not nil.
abbrev pub add_rule : Rules → Rule → Rules
add_rule m r =
    if is_empty r.hostname || is_empty r.endpoint then m else insert (key_of r.hostname) r m

-- Its calls; none for a panic, of a nil rule.
unfoldable pub add_all : Rules → List (Option Rule) → Option Rules
add_all m [] = some m
add_all m (none ∷ rs) = none
add_all m (some r ∷ rs) = add_all (add_rule m r) rs

-- reload, with the rules of the options and those that `load` gives.
unfoldable pub reload : List (Option Rule) → List (Option Rule) → Option Rules
unfolding add_all
reload own loaded = add_all [] (own ++ loaded)

unfoldable pub find_rule : (Text → Option Rule) → Text → Option Rule
unfolding tails
find_rule find host =
    or_next (find host) (or_next (find (dot ∷ host)) (tails find (suc (length host)) host))

-- GetRule
unfoldable pub get_rule : Rules → Text → Option Rule
unfolding find_rule
get_rule m host = if is_empty host then none else find_rule (λ k. lookup k m) (bare host)
