-- ===== src/InputParameter.antt =====
-- InputParameter.h. A pair `minX`, `maxX` is a range; the fields that exist once for the data array
-- and once, with `Tag` in the name, for the tag array are two values of one record.
pub mod New
pub mod Words
pub mod Read
pub mod Settings
use destiny_3d_cache.Prelude.{ℕ, Bool, List}
use destiny_3d_cache.Text.{Text}
use destiny_3d_cache.TypeDef.{
  DesignTarget, OptimizationTarget, CacheAccessMode, RoutingMode, DeviceRoadmap, WriteScheme,
}

pub record Range : Type 0 where
  pub lo : ℕ
  pub hi : ℕ

-- `maxX = minX`
abbrev pub fixed : ℕ → Range
fixed n = record { lo = n; hi = n }

pub record ArraySpace : Type 0 where
  pub num_row_mat : Range
  pub num_column_mat : Range
  pub num_active_mat_per_row : Range
  pub num_active_mat_per_column : Range
  pub num_row_subarray : Range
  pub num_column_subarray : Range
  pub num_active_subarray_per_row : Range
  pub num_active_subarray_per_column : Range
  pub mux_sense_amp : Range
  pub mux_output_lev1 : Range
  pub mux_output_lev2 : Range
  pub area_optimization_level : Range
  pub local_wire_type : Range
  pub global_wire_type : Range
  pub local_wire_repeater_type : Range
  pub global_wire_repeater_type : Range
  pub is_local_wire_low_swing : Range
  pub is_global_wire_low_swing : Range

pub record InputParameter (D : Type 0) : Type 0 where
  pub design_target : DesignTarget
  pub optimization_target : OptimizationTarget
  pub process_node : ℕ
  -- in bytes
  pub capacity : ℕ
  -- in bits
  pub word_width : ℕ
  pub device_roadmap : DeviceRoadmap
  pub file_mem_cell : List Text
  pub temperature : ℕ
  pub max_driver_current : D
  pub write_scheme : WriteScheme
  pub read_latency_constraint : D
  pub write_latency_constraint : D
  pub read_dynamic_energy_constraint : D
  pub write_dynamic_energy_constraint : D
  pub leakage_constraint : D
  pub area_constraint : D
  pub read_edp_constraint : D
  pub write_edp_constraint : D
  pub is_constraint_applied : Bool
  pub is_pruning_enabled : Bool
  pub use_cacti_assumption : Bool
  pub associativity : ℕ
  pub cache_access_mode : CacheAccessMode
  pub page_size : ℕ
  pub flash_block_size : ℕ
  pub routing_mode : RoutingMode
  pub internal_sensing : Bool
  pub max_nmos_size : D
  pub output_file_prefix : Text
  pub data_space : ArraySpace
  pub tag_space : ArraySpace
  pub num_row_per_set : Range
  pub partition_granularity : ℕ
  pub local_tsv_projection : ℕ
  pub global_tsv_projection : ℕ
  pub tsv_redundancy : D
  pub monolithic_stack_count : ℕ
  pub stack_layer : Range
  pub forced_stack_layers : Bool
  pub double_prune : Bool
  pub print_all_optimals : Bool
  pub allow_different_tag_tech : Bool
  pub print_level : ℕ
