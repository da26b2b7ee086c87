-- ===== src/Loader.antt =====
-- What the loaders of a component give (internal/loader): a list of texts, or the lines of a reader,
-- which is none where loading fails. What the lines hold is the business of the component.
use go_gost_x.Prelude.{[], ◌∷◌, map, ℕ, ◌==◌, List, Option, none, some, if◌then◌else◌, take}
use go_gost_x.Text.{Text, is_empty, index_byte, split}

pub data Source : Type 0 where
  lists : List Text → Source
  reads : Option (List Text) → Source

pub record Loaders : Type 0 where
  pub file_loader : Option Source
  pub redis_loader : Option Source
  pub http_loader : Option (Option (List Text))

-- strings.Replace of a tab by a blank, on one byte.
abbrev pub blank_tab : ℕ → ℕ
blank_tab b = if b == 9 then b' ' else b

-- The text before a position, or all of it.
abbrev pub until : Text → Option ℕ → Text
until s none = s
until s (some n) = take n s

module _ (trim_space : Text → Text) where
  abbrev fields : List Text → List Text
  fields [] = []
  fields (s ∷ ss) =
      let rest = fields ss in let w = trim_space s in if is_empty w then rest else w ∷ rest

  -- The words of a line before its comment, as several parts read a line.
  abbrev pub fields_of : Text → List Text
  fields_of s =
      let line = trim_space (map blank_tab s) in
      fields (split b' ' (until line (index_byte b'#' line)))
