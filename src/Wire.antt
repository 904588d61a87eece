-- ===== src/Wire.antt =====
-- Wire.h: a wire as the search chooses it, with the electrical values that follow.
use destiny_3d_cache.Prelude.{ℕ, Bool}
use destiny_3d_cache.TypeDef.{WireType, WireRepeaterType}

pub record Wire (D : Type 0) : Type 0 where
  pub initialized : Bool
  pub feature_size_in_nano : ℕ
  pub feature_size : D
  pub wire_type : WireType
  pub wire_repeater_type : WireRepeaterType
  pub temperature : ℕ
  pub is_low_swing : Bool
  pub barrier_thickness : D
  pub horizontal_dielectric : D
  pub wire_pitch : D
  pub aspect_ratio : D
  pub ild_thickness : D
  pub wire_width : D
  pub wire_thickness : D
  pub wire_spacing : D
  pub repeater_size : D
  pub repeater_spacing : D
  pub repeater_height : D
  pub repeater_width : D
  pub repeated_wire_pitch : D
  pub res_wire_per_unit : D
  pub cap_wire_per_unit : D
