-- ===== src/Conn/Keys/Lines.antt =====
-- The lines of the limits: parseLine, parsePatterns, load, parseLimit. The loaders of file, Redis and
-- HTTP are what they give: a list, or the lines of a reader, which is none where loading fails.
use go_gost_x.Prelude.{List, [], ◌∷◌, ◌++◌, Option, none, some, if◌then◌else◌, ℤ, pos, map}
use go_gost_x.Loader.{Source, lists, reads, Loaders, until, blank_tab}
use go_gost_x.Text.{Text, is_empty, index_byte, split, atoi}

abbrev non_empty : List Text → List Text
non_empty [] = []
non_empty (s ∷ ss) = let rest = non_empty ss in if is_empty s then rest else s ∷ rest

module _ (trim_space : Text → Text) where
  -- What stands before a comment.
  unfoldable pub parse_line : Text → Text
  parse_line s = trim_space (until s (index_byte b'#' s))

  unfoldable pub parse_patterns : Option (List Text) → List Text
  unfolding parse_line
  parse_patterns none = []
  parse_patterns (some lines) = non_empty (map parse_line lines)

  abbrev from_file : Option Source → List Text
  from_file none = []
  from_file (some (lists ss)) = parse_patterns (some ss)
  from_file (some (reads r)) = parse_patterns r

  -- A list from Redis is taken as it is.
  abbrev from_redis : Option Source → List Text
  from_redis none = []
  from_redis (some (lists ss)) = ss
  from_redis (some (reads r)) = parse_patterns r

  abbrev from_http : Option (Option (List Text)) → List Text
  from_http none = []
  from_http (some r) = parse_patterns r

  unfoldable pub load : Loaders → List Text
  unfolding parse_patterns
  load l = from_file l.file_loader ++ (from_redis l.redis_loader ++ from_http l.http_loader)

  abbrev two_words : List Text → Text × ℤ
  two_words [] = ([], pos 0)
  two_words (key ∷ []) = ([], pos 0)
  two_words (key ∷ n ∷ rest) = (key, (atoi n).0)

  -- The first two words of a line.
  unfoldable pub parse_limit : Text → Text × ℤ
  unfolding atoi
  parse_limit s = two_words (non_empty (split b' ' (trim_space (map blank_tab s))))
