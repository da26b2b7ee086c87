-- ===== src/Hop/Gate.antt =====
-- hop/hop.go: which nodes a selection may choose.
pub mod Hosts
use go_gost_x.Prelude.{
  [], Bool, true, false, not, ◌&&◌, ◌||◌, ◌==◌, Option, none, some, if◌then◌else◌, get_or, drop,
}
use go_gost_x.Text.{bare, Text, dot, text_eq, is_empty, split_host_port, has_prefix, has_suffix}
use go_gost_x.Hop.Node.{Node, NodeFilter, SelectOptions, request_of, bypassed_by}

abbrev pub filter_host : Option NodeFilter → Text
filter_host none = []
filter_host (some f) = f.host

abbrev filter_protocol : Option NodeFilter → Text
filter_protocol none = []
filter_protocol (some f) = f.protocol

abbrev filter_path : Option NodeFilter → Text
filter_path none = []
filter_path (some f) = f.path

unfoldable pub check_host : Text → Node → Bool
check_host host node =
    let vhost = filter_host node.filter in
    if is_empty vhost
    then true
    else if is_empty host
    then false
    else text_eq vhost (bare host)
      || (get_or vhost 0 0 == dot && has_suffix (bare host) (drop 1 vhost))

unfoldable pub check_protocol : Text → Node → Bool
check_protocol protocol node =
    let prot = filter_protocol node.filter in if is_empty prot then true else text_eq prot protocol

unfoldable pub check_path : Text → Node → Bool
check_path path node =
    let path_filter = filter_path node.filter in
    if is_empty path_filter then true else has_prefix path path_filter

unfoldable pub is_eligible : Node → SelectOptions → Bool
unfolding check_host check_protocol check_path
is_eligible node o = elim node.filter [
  | none ↦ true
  | some f ↦
      if not (check_host o.host node)
        || not (check_protocol o.protocol node)
        || not (check_path o.path node)
      then false
      else true
]

-- The matcher's answer, or the filter's for a node without a matcher.
unfoldable pub gate : Node → SelectOptions → Bool
unfolding is_eligible
gate node o = elim node.matcher [ none ↦ is_eligible node o | some m ↦ m (request_of o) ]

-- The conditions on a node in the loop of Select.
unfoldable pub admitted : SelectOptions → Node → Bool
unfolding gate
admitted o node = if bypassed_by node.bypass o then false else gate node o
