-- ===== src/Selector/View.antt =====
-- What the selectors read of a value through the interfaces it may implement: its metadata, its
-- marker and its probe result. A value that lacks an interface, or whose metadata is nil, gives
-- the field's none (or the zero value that mdutil's getters return).
use go_gost_x.Prelude.{Bool, Option, ℤ}

pub record Marker : Type 0 where
  pub count : ℤ
  pub time : ℤ

pub record Probe : Type 0 where
  pub success : Bool
  pub latency : ℤ

pub record View (T : Type 0) : Type 0 where
  -- md.IsExists and mdutil.GetInt or GetDuration
  pub max_fails : T → Option ℤ
  pub fail_timeout : T → Option ℤ
  pub marker : T → Option Marker
  -- mdutil.GetBool and GetInt
  pub backup : T → Bool
  pub weight : T → ℤ
  -- chain.ProbeResultReader
  pub probe : T → Option Probe
