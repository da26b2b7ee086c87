-- ===== src/Registry.antt =====
-- registry/registry.go: the objects of one kind by their names. `T` is their type.
pub mod Holder
use go_gost_x.Prelude.{Bool, true, false, List, [], ◌∷◌, Option, none, some, if◌then◌else◌}
use go_gost_x.Text.{Text, is_empty, lookup, insert, delete}

module _ {T : Type 0} where
  -- Register; true stands for ErrDup. LoadOrStore keeps the value that is there.
  unfoldable pub register : List (Text × T) → Text → T → List (Text × T) × Bool
  register m name v =
      if is_empty name then (m, false) else elim (lookup name m) as (λ _. List (Text × T) × Bool) [
        | none ↦ (insert name v m, false)
        | some old ↦ (m, true)
      ]

  -- Unregister, with the value that it closes.
  unfoldable pub unregister : List (Text × T) → Text → List (Text × T) × Option T
  unregister m name = (delete name m, lookup name m)

  unfoldable pub is_registered : List (Text × T) → Text → Bool
  is_registered m name = elim (lookup name m) [ none ↦ false | some v ↦ true ]

  -- Get; none for the zero value.
  unfoldable pub get : List (Text × T) → Text → Option T
  get m name = if is_empty name then none else lookup name m

pub data Call (T : Type 0) : Type 0 where
  registers : Text → T → Call T
  unregisters : Text → Call T

module _ {T : Type 0} where
  abbrev pub step : List (Text × T) → Call T → List (Text × T)
  step m (registers name v) = (register m name v).0
  step m (unregisters name) = (unregister m name).0

  -- A history of calls on an empty registry, the latest first.
  unfoldable pub run : List (Call T) → List (Text × T)
  run [] = []
  run (c ∷ cs) = step (run cs) c
