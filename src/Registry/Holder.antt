-- ===== src/Registry/Holder.antt =====
-- Who holds a name after a history of calls.
use go_gost_x.Prelude.{Bool, true, false, List, [], ◌∷◌, Option, none, some, if◌then◌else◌}
use go_gost_x.Text.{Text, text_eq}
use go_gost_x.Registry.{Call, registers, unregisters}

module _ {T : Type 0} where
  -- The calls since the name was unregistered last.
  abbrev pub since : Text → List (Call T) → List (Call T)
  since k [] = []
  since k (registers n v ∷ cs) = registers n v ∷ since k cs
  since k (unregisters n ∷ cs) = if text_eq n k then [] else unregisters n ∷ since k cs

  -- The values that were offered for the name, the latest first.
  abbrev pub offers : Text → List (Call T) → List T
  offers k [] = []
  offers k (registers n v ∷ cs) = if text_eq n k then v ∷ offers k cs else offers k cs
  offers k (unregisters n ∷ cs) = offers k cs

  abbrev pub earliest : List T → Option T
  earliest [] = none
  earliest (v ∷ vs) = elim (earliest vs) [ none ↦ some v | some w ↦ some w ]

  abbrev pub holder : Text → List (Call T) → Option T
  holder k cs = earliest (offers k (since k cs))

  abbrev pub is_set : Option T → Bool
  is_set none = false
  is_set (some v) = true
