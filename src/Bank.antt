-- ===== src/Bank.antt =====
-- Bank.h: the bank that a point of the search builds.
use destiny_3d_cache.Prelude.{ℕ, Bool}
use destiny_3d_cache.TypeDef.{BufferDesignTarget, MemoryType}
use destiny_3d_cache.FunctionUnit.{FunctionUnit}
use destiny_3d_cache.Mat.{SubArray}

-- The values that `routing...` of a bank hold, in the order of Bank.h.
pub record Routing (D : Type 0) : Type 0 where
  pub routing_read_latency : D
  pub routing_write_latency : D
  pub routing_reset_latency : D
  pub routing_set_latency : D
  pub routing_refresh_latency : D
  pub routing_read_dynamic_energy : D
  pub routing_write_dynamic_energy : D
  pub routing_reset_dynamic_energy : D
  pub routing_set_dynamic_energy : D
  pub routing_refresh_dynamic_energy : D
  pub routing_leakage : D

pub record Bank (D : Type 0) : Type 0 where
  pub unit : FunctionUnit D
  pub open unit use *
  pub initialized : Bool
  pub invalid : Bool
  pub internal_sense_amp : Bool
  pub num_row_mat : ℕ
  pub num_column_mat : ℕ
  pub capacity : ℕ
  pub block_size : ℕ
  pub associativity : ℕ
  pub num_row_per_set : ℕ
  pub num_active_mat_per_row : ℕ
  pub num_active_mat_per_column : ℕ
  pub mux_sense_amp : ℕ
  pub mux_output_lev1 : ℕ
  pub mux_output_lev2 : ℕ
  pub num_row_subarray : ℕ
  pub num_column_subarray : ℕ
  pub num_active_subarray_per_row : ℕ
  pub num_active_subarray_per_column : ℕ
  pub area_optimization_level : BufferDesignTarget
  pub memory_type : MemoryType
  pub stacked_die_count : ℕ
  pub partition_granularity : ℕ
  pub routing : Routing D
  pub subarray : SubArray
