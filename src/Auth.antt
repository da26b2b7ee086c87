-- ===== src/Auth.antt =====
-- auth/auth.go: the users of an authenticator, their reloading, and a group. A nil authenticator,
-- which lets everyone in, is not one of a group.
pub mod Users
use go_gost_x.Prelude.{
  ℕ, zero, suc, ◌==◌, Bool, true, false, ◌&&◌, ◌||◌, List, [], ◌∷◌, ◌++◌, Option, none, some,
  if◌then◌else◌, map, take, drop,
}
use go_gost_x.Text.{Text, is_empty, text_eq, index_byte, lookup, insert}
use go_gost_x.Loader.{blank_tab}

-- map[string]string
abbrev pub Kvs : Type 0
Kvs = List (Text × Text)

-- maps.Copy, into a map that is not nil
unfoldable pub copy : Kvs → Kvs → Kvs
copy m [] = m
copy m ((k, v) ∷ kvs) = copy (insert k v m) kvs

-- What a loader gives: a map, or the lines of a reader; none for nil. Both may come with an error.
pub data Source : Type 0 where
  maps : Option Kvs → Bool → Source
  reads : Option (List Text) → Bool → Source

pub record Loaders : Type 0 where
  pub file_loader : Option Source
  pub redis_loader : Option Source
  pub http_loader : Option Source

abbrev pub failed : Option Source → Bool
failed none = false
failed (some (maps m err)) = err
failed (some (reads r err)) = err

module _ (trim_space : Text → Text) where
  -- strings.SplitN(line, " ", 2), and what is made of its parts.
  abbrev pub put_pair : Text → Text → Kvs → Kvs
  put_pair k v m = let key = trim_space k in if is_empty key then m else insert key v m

  abbrev pub put_parts : Text → Option ℕ → Kvs → Kvs
  put_parts line none m = put_pair line [] m
  put_parts line (some n) m = put_pair (take n line) (trim_space (drop (suc n) line)) m

  abbrev pub is_comment : Option ℕ → Bool
  is_comment none = false
  is_comment (some n) = n == 0

  unfoldable pub put_line : Text → Kvs → Kvs
  put_line s m =
      let line = trim_space (map blank_tab s) in
      if is_comment (index_byte b'#' line) then m else put_parts line (index_byte b' ' line) m

  abbrev pub put_lines : List Text → Kvs → Kvs
  unfolding put_line
  put_lines [] m = m
  put_lines (s ∷ ss) m = put_lines ss (put_line s m)

  unfoldable pub parse_auths : Option (List Text) → Option Kvs
  unfolding put_lines
  parse_auths none = none
  parse_auths (some ss) = some (put_lines ss [])

  abbrev pub given : Source → Option Kvs
  unfolding parse_auths
  given (maps m err) = m
  given (reads r err) = parse_auths r

  -- maps.Copy(m, auths), where both may be nil; none for a panic, of an entry for a nil map.
  abbrev pub copy_into : Option Kvs → Option Kvs → Option (Option Kvs)
  unfolding copy
  copy_into m none = some m
  copy_into m (some []) = some m
  copy_into none (some (kv ∷ kvs)) = none
  copy_into (some m) (some (kv ∷ kvs)) = some (some (copy m (kv ∷ kvs)))

  abbrev pub first_of : Option Source → Option Kvs
  unfolding given
  first_of none = some []
  first_of (some s) = given s

  abbrev pub more_of : Option Source → Option Kvs
  unfolding given
  more_of none = none
  more_of (some s) = given s

  abbrev pub then_copy : Option (Option Kvs) → Option Kvs → Option (Option Kvs)
  unfolding copy_into
  then_copy none auths = none
  then_copy (some m) auths = copy_into m auths

  -- load: the map, which may be nil; none for a panic. Its error is load_fails.
  unfoldable pub load : Loaders → Option (Option Kvs)
  unfolding first_of more_of then_copy
  load l =
      then_copy (then_copy (some (first_of l.file_loader)) (more_of l.redis_loader))
        (more_of l.http_loader)

  abbrev pub load_fails : Loaders → Bool
  load_fails l = failed l.file_loader || (failed l.redis_loader || failed l.http_loader)

  abbrev pub or_empty : Option Kvs → Kvs
  or_empty none = []
  or_empty (some m) = m

  abbrev pub reload_with : Kvs → Kvs → Bool → Option (Option Kvs) → Option Kvs
  unfolding copy
  reload_with kvs own err none = none
  reload_with kvs own err (some m) =
      if err then some kvs else some (copy (copy [] own) (or_empty m))

  -- reload: `kvs` are the users before it; with an error they stay.
  unfoldable pub reload : Kvs → Kvs → Loaders → Option Kvs
  unfolding reload_with load
  reload kvs own l = reload_with kvs own (load_fails l) (load l)

abbrev pub accepts : Text → Option Text → Bool
accepts password none = false
accepts password (some v) = is_empty v || text_eq password v

-- Authenticate
unfoldable pub authenticate : Kvs → Text → Text → Text × Bool
authenticate [] user password = ([], false)
authenticate (kv ∷ kvs) user password = (user, accepts password (lookup user (kv ∷ kvs)))

-- Authenticate of a group; an authenticator is its answers.
unfoldable pub authenticate_group :
    List (Option (Text → Text → Text × Bool)) → Text → Text → Text × Bool
authenticate_group [] user password = ([], false)
authenticate_group (none ∷ auths) user password = authenticate_group auths user password
authenticate_group (some a ∷ auths) user password =
    let rest = authenticate_group auths user password in
    if (a user password).1 then a user password else rest
