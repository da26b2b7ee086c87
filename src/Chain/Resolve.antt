-- ===== src/Chain/Resolve.antt =====
-- internal/net/resolve.go: Resolve. The resolver and the host mapper are their answers; `join` is
-- net.JoinHostPort of an address in its text form.
use go_gost_x.Prelude.{ℕ, List, [], ◌∷◌, Option, none, some, if◌then◌else◌}
use go_gost_x.Text.{Text, is_empty, split_host_port}

-- What a resolver answers: ErrInvalid, or the addresses, none with another error.
pub data Resolved : Type 0 where
  invalid : Resolved
  addresses : List (List ℕ) → Resolved

module _ (join : List ℕ → Text → Text) where
  -- A nil host mapper or resolver is none.
  abbrev pub by_resolver : Option (Text → Text → Resolved) → Text → Text → Text → Text → Option Text
  by_resolver none network addr host port = some addr
  by_resolver (some resolver) network addr host port = elim (resolver network host) [
    | invalid ↦ some addr
    | addresses ips ↦ elim ips [ [] ↦ none | ip ∷ rest ↦ some (join ip port) ]
  ]

  abbrev pub mapped : Option (Text → Text → List (List ℕ)) → Text → Text → List (List ℕ)
  mapped none network host = []
  mapped (some hosts) network host = hosts network host

  -- The host and the port of an address without the error; an empty host for one.
  abbrev pub split_or_empty : Text → Text × Text
  split_or_empty addr = elim (split_host_port addr) [ none ↦ ([], []) | some p ↦ p ]

  unfoldable pub resolve :
      Option (Text → Text → List (List ℕ))
      → Option (Text → Text → Resolved)
      → Text
      → Text
      → Option Text
  resolve hosts resolver network addr =
      let (host, port) = split_or_empty addr in
      if is_empty addr
      then some addr
      else if is_empty host
      then some addr
      else elim (mapped hosts network host) [
        | [] ↦ by_resolver resolver network addr host port
        | ip ∷ rest ↦ some (join ip port)
      ]
