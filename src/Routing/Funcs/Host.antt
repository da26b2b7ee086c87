-- ===== src/Routing/Funcs/Host.antt =====
-- routing/matcher.go: the matchers of a host.
pub mod Meaning
use go_gost_x.Prelude.{
  ◌-◌, Bool, true, false, not, ◌&&◌, ◌==◌, ◌∷◌, Option, none, some, if◌then◌else◌, drop, length,
  get_or,
}
use go_gost_x.Text.{
  Text, dot, text_eq, contains_byte, slice, split_host_port, is_empty, bytes, has_prefix,
  has_suffix,
}
use go_gost_x.Routing.Request.{Request}
use go_gost_x.Routing.Funcs.{Packages, Func, built, refused, with_arg, matcher_of, is_ascii}

-- parseHost
unfoldable pub parse_host : Text → Text
parse_host addr = if not (contains_byte b':' addr) then addr else elim (split_host_port addr) [
  | none ↦
      if get_or addr 0 0 == b'[' && get_or addr (length addr - 1) 0 == b']'
      then slice 1 (length addr - 1) addr
      else addr
  | some (host, port) ↦ host
]

-- The pattern of Host after a star: a star stands for a dot, if none follows it.
abbrev pub starred : Text → Text
starred rest = if has_prefix rest (bytes ".") then rest else dot ∷ rest

abbrev pub unstarred : Text → Text
unstarred s = if has_prefix s (bytes "*") then starred (drop 1 s) else s

-- The pattern is not empty where the matcher looks at its first byte; that would be a panic.
abbrev pub host_test : Text → Text → Option Bool
host_test host req_host =
    if is_empty req_host
    then some false
    else if text_eq req_host host
    then some true
    else if is_empty host
    then none
    else some (get_or host 0 0 == dot && has_suffix req_host host)

module _ {F : Type 0} (p : Packages F) where
  abbrev pub host_pattern : Text → Text
  host_pattern s = unstarred (p.to_lower (p.trim_space s))

  abbrev pub request_host : Request → Text
  unfolding parse_host
  request_host req = p.to_lower (p.trim_space (parse_host req.host))

  unfoldable pub host : Func
  unfolding request_host
  host values = with_arg values 0 (λ v.
      if is_ascii v then built (λ req. host_test (host_pattern v) (request_host req)) else refused)

  unfoldable pub host_regexp : Func
  unfolding request_host
  host_regexp values = with_arg values 0 (λ v.
      if is_ascii v then matcher_of (p.compile v) (λ re req. re (request_host req)) else refused)
