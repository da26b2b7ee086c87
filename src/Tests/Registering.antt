-- ===== src/Tests/Registering.antt =====
-- Two objects of one name.
use go_gost_x.Prelude.{ℕ, ◌≡◌, refl, List, [], ◌∷◌, some}
use go_gost_x.Text.{bytes}
use go_gost_x.Registry.{Call, registers, unregisters, register, unregister, get, run}

abbrev calls : List (Call ℕ)
calls =
    registers (bytes "a") 3
    ∷ registers (bytes "a") 2
    ∷ unregisters (bytes "a")
    ∷ registers (bytes "a") 1
    ∷ []

second : get (run calls) (bytes "a") ≡ some 2
unfolding get run register unregister
second = refl
