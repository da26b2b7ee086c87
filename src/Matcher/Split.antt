-- ===== src/Matcher/Split.antt =====
-- internal/matcher/matcher.go: splitHostPort.
use go_gost_x.Prelude.{[], Option, none, some, if◌then◌else◌}
use go_gost_x.Text.{Text, contains_byte, split_host_port, is_empty}

-- With an error of net.SplitHostPort both parts are empty.
abbrev or_empty : Option (Text × Text) → Text × Text
or_empty none = ([], [])
or_empty (some hp) = hp

unfoldable pub split_addr : Text → Text × Text
unfolding split_host_port
split_addr addr =
    if contains_byte b':' addr
    then (let (host, port) = or_empty (split_host_port addr) in
        (if is_empty host then addr else host, port))
    else (addr, [])
