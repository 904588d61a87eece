-- ===== src/BankConfig.antt =====
-- The arguments of `Bank::Initialize`, which both kinds of bank share, and what both make of them.
pub mod Products
pub mod Powers
pub mod Capacity
pub mod Defined
use destiny_3d_cache.Prelude.{ℕ, ◌*◌, ◌/◌, ◌^◌, Bool, ltb, if◌then◌else◌, ℤ, log2_int, log2_ratio}
use destiny_3d_cache.Prelude.Outcome.{Outcome, ok, ◌>>=◌, defined, quotient}
use destiny_3d_cache.TypeDef.{BufferDesignTarget, MemoryType, MemCellType, dram, edram}
use destiny_3d_cache.Mat.{clamp, MatConfig}

pub record BankConfig : Type 0 where
  pub num_row_mat : ℕ
  pub num_column_mat : ℕ
  pub capacity : ℕ
  pub block_size : ℕ
  pub associativity : ℕ
  pub num_row_per_set : ℕ
  pub num_active_mat_per_row : ℕ
  pub num_active_mat_per_column : ℕ
  pub mux_sense_amp : ℕ
  pub internal_sense_amp : Bool
  pub mux_output_lev1 : ℕ
  pub mux_output_lev2 : ℕ
  pub num_row_subarray : ℕ
  pub num_column_subarray : ℕ
  pub num_active_subarray_per_row : ℕ
  pub num_active_subarray_per_column : ℕ
  pub area_optimization_level : BufferDesignTarget
  pub memory_type : MemoryType
  pub stacked_die_count : ℕ
  pub partition_granularity : ℕ
  pub monolithic_stack_count : ℕ

-- `if (a > b) a = b;` for the active mats and subarrays
abbrev pub bank_clamped : BankConfig → BankConfig
bank_clamped c = record c {
  num_active_mat_per_row = clamp c.num_active_mat_per_row c.num_column_mat;
  num_active_mat_per_column = clamp c.num_active_mat_per_column c.num_row_mat;
  num_active_subarray_per_row = clamp c.num_active_subarray_per_row c.num_column_subarray;
  num_active_subarray_per_column = clamp c.num_active_subarray_per_column c.num_row_subarray;
}

-- The bits that select a word; one layer does not divide the capacity.
unfoldable pub bank_address_bits : BankConfig → Outcome ℤ
bank_address_bits c =
    if ltb 1 c.stacked_die_count
    then defined (log2_ratio c.capacity (c.block_size * c.associativity * c.stacked_die_count))
    else defined (log2_ratio c.capacity (c.block_size * c.associativity))

-- The three mux degrees of a mat.
pub record Muxes : Type 0 where
  pub sense_amp : ℕ
  pub lev1 : ℕ
  pub lev2 : ℕ

abbrev pub mux_product : Muxes → ℕ
mux_product m = m.sense_amp * m.lev1 * m.lev2

-- The data bits and the ways of a mat, and its mux degrees.
pub record Share : Type 0 where
  pub mat_block_size : ℕ
  pub num_way : ℕ
  pub muxes : Muxes

abbrev pub given_muxes : BankConfig → Muxes
given_muxes c = record {
  sense_amp = c.mux_sense_amp;
  lev1 = c.mux_output_lev1;
  lev2 = c.mux_output_lev2;
}

-- More than one way in a row needs more mux levels. Before the sense amplifier of a DRAM there can
-- be none.
unfoldable pub extra_muxes : MemCellType → ℕ → Muxes → Outcome Muxes
extra_muxes dram ways m = do
  bits ← defined (log2_int ways)
  extra1 ← quotient ways (2 ^ (bits / 2))
  ok (record m { lev1 = m.lev1 * extra1; lev2 = m.lev2 * 2 ^ (bits / 2) })
extra_muxes edram ways m = do
  bits ← defined (log2_int ways)
  extra1 ← quotient ways (2 ^ (bits / 2))
  ok (record m { lev1 = m.lev1 * extra1; lev2 = m.lev2 * 2 ^ (bits / 2) })
extra_muxes _ ways m = do
  bits ← defined (log2_int ways)
  by_lev1 ← quotient ways (2 ^ (bits / 3))
  extra ← quotient by_lev1 (2 ^ (bits / 3))
  ok (record {
    sense_amp = m.sense_amp * extra;
    lev1 = m.lev1 * 2 ^ (bits / 3);
    lev2 = m.lev2 * 2 ^ (bits / 3);
  })

unfoldable pub way_muxes : MemCellType → ℕ → Muxes → Outcome Muxes
unfolding extra_muxes
way_muxes t ways m = if ltb 1 ways then extra_muxes t ways m else ok m

-- the arguments of `mat.Initialize`
abbrev pub mat_config : BankConfig → ℤ → Share → MatConfig
mat_config c address share = record {
  num_row_subarray = c.num_row_subarray;
  num_column_subarray = c.num_column_subarray;
  num_address_bit = address;
  num_data_bit = share.mat_block_size;
  num_way = share.num_way;
  num_row_per_set = c.num_row_per_set;
  num_active_subarray_per_row = c.num_active_subarray_per_row;
  num_active_subarray_per_column = c.num_active_subarray_per_column;
  mux_sense_amp = share.muxes.sense_amp;
  internal_sense_amp = c.internal_sense_amp;
  mux_output_lev1 = share.muxes.lev1;
  mux_output_lev2 = share.muxes.lev2;
  area_optimization_level = c.area_optimization_level;
  memory_type = c.memory_type;
  stacked_die_count = c.stacked_die_count;
  partition_granularity = c.partition_granularity;
  monolithic_stack_count = c.monolithic_stack_count;
}
