-- ===== src/Selector/Filter/Healthy.antt =====
-- The values that the fail filter keeps at any time.
use go_gost_x.Prelude.{◌≡◌, refl, Bool, true, Option, none, some, ℤ, ltb_ℤ, arith}
use go_gost_x.Selector.View.{View, Marker}
use go_gost_x.Selector.Filter.{max_fails_of, fail_timeout_of, alive_marker, alive}

abbrev pub unfailed : ℤ → Option Marker → Bool
unfailed limit none = true
unfailed limit (some m) = ltb_ℤ m.count limit

module _ {T : Type 0} (view : View T) where
  unfailed-alive_marker :
      (limit timeout now : ℤ) (m : Option Marker)
      → unfailed limit m ≡ true
      → alive_marker view limit timeout now m ≡ true
  unfailed-alive_marker limit timeout now none h = refl
  unfailed-alive_marker limit timeout now (some m) h = ground arith

  -- The value has no marker, or one with fewer failures than its limit.
  abbrev pub healthy : ℤ → T → Bool
  healthy max_fails v = unfailed (max_fails_of view max_fails v) (view.marker v)

  pub healthy-alive :
      (max_fails timeout now : ℤ) (v : T)
      → healthy max_fails v ≡ true
      → alive view max_fails timeout now v ≡ true
  unfolding alive
  healthy-alive max_fails timeout now v h =
      unfailed-alive_marker (max_fails_of view max_fails v) (fail_timeout_of view timeout v) now
        (view.marker v) h
