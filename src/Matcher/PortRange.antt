-- ===== src/Matcher/PortRange.antt =====
-- internal/net/addr.go: port ranges.
use go_gost_x.Prelude.{
  Bool, true, false, ◌&&◌, ◌||◌, List, [], ◌∷◌, Option, none, some, ℤ, pos, ltb_ℤ, leb_ℤ,
  if◌then◌else◌,
}
use go_gost_x.Text.{Text, split, atoi}

pub record PortRange : Type 0 where
  pub min : ℤ
  pub max : ℤ

abbrev single : ℤ × Bool → Option PortRange
single (port, true) = none
single (port, false) =
    if ltb_ℤ port (pos 0) || ltb_ℤ (pos 65535) port
    then none
    else some (record { min = port; max = port })

abbrev double : ℤ × Bool → ℤ × Bool → Option PortRange
double (lo, true) hi = none
double (lo, false) (hi, true) = none
double (lo, false) (hi, false) = some (record { min = lo; max = hi })

abbrev parse_parts : Text → List Text → Option PortRange
parse_parts s (w ∷ []) = single (atoi s)
parse_parts s (lo ∷ hi ∷ []) = double (atoi lo) (atoi hi)
parse_parts s ws = none

-- PortRange.Parse; none for its error, which leaves the range as it was.
unfoldable pub parse : Text → Option PortRange
unfolding atoi
parse s = parse_parts s (split b'-' s)

unfoldable pub contains : PortRange → ℤ → Bool
contains pr port = leb_ℤ pr.min port && leb_ℤ port pr.max
