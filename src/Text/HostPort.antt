-- ===== src/Text/HostPort.antt =====
-- net.SplitHostPort; none for its error.
use go_gost_x.Prelude.{
  ◌≡◌, refl, ℕ, ◌+◌, ◌||◌, Option, none, some, if◌then◌else◌, ◌==◌, length, take, drop, get_or,
}
use go_gost_x.Text.Bytes.{is_empty, Text, index_byte, last_index_byte, contains_byte, slice}

-- The end of the function: the brackets that are not expected, and the two results.
abbrev finish : Text → ℕ → ℕ → ℕ → Text → Option (Text × Text)
finish s i j k host =
    if contains_byte b'[' (drop j s) || contains_byte b']' (drop k s)
    then none
    else some (host, drop (i + 1) s)

abbrev bracketed : Text → ℕ → Option (Text × Text)
bracketed s i = elim (index_byte b']' s) [
  | none ↦ none
  | some end ↦
      if end + 1 == length s
      then none
      else if end + 1 == i
      then finish s i 1 (end + 1) (slice 1 end s)
      else none
]

unfoldable pub split_host_port : Text → Option (Text × Text)
split_host_port s = elim (last_index_byte b':' s) [
  | none ↦ none
  | some i ↦
      if get_or s 0 0 == b'['
      then bracketed s i
      else if contains_byte b':' (take i s)
      then none
      else finish s i 0 0 (take i s)
]

-- The host without its port, where it has one.
abbrev pub bare : Text → Text
bare host = elim (split_host_port host) [
  | none ↦ host
  | some (h, p) ↦ if is_empty h then host else h
]

pub bare_whole : (host : Text) → split_host_port host ≡ none → bare host ≡ host
bare_whole host e = rw (e, bare) refl
