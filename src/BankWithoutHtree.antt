-- ===== src/BankWithoutHtree.antt =====
-- BankWithoutHtree.cpp: `Initialize` shares the address and the data bits out among the active mats
-- at once, without levels, and may sense outside of the mats.
pub mod Shares
pub mod Capacity
pub mod Defined
use destiny_3d_cache.Prelude.{
  ℕ, ◌*◌, Bool, true, ◌&&◌, not, ltb, ◌==◌, ℤ, sub_int, log2_int, if◌then◌else◌,
}
use destiny_3d_cache.Prelude.Outcome.{
  Outcome, ok, invalid, ◌>>=◌, ◌>>◌, reject_if, defined, quotient,
}
use destiny_3d_cache.TypeDef.{MemoryType, data_array, tag, cam, MemCellType, dram, edram}
use destiny_3d_cache.Mat.{Mat, Context, mat_initialize}
use destiny_3d_cache.BankConfig.{
  BankConfig, bank_clamped, bank_address_bits, way_muxes, Share, given_muxes, mat_config,
}

-- What the bank reads beside the globals of a mat: `globalWire->wireRepeaterType == repeated_none`,
-- and whether the global sense amplifier accepts its number of amplifiers, for a mat and the number
-- of columns of mats.
pub record BankContext : Type 0 where
  pub mat : Context
  pub repeated_none : Bool
  pub global_sense_amp : ℕ → Mat → ℕ → Bool

-- External sense amplification is not for DRAM, and needs wires without repeaters.
abbrev pub rejects_external : BankContext → MemCellType → Bool
rejects_external g dram = true
rejects_external g edram = true
rejects_external g _ = not g.repeated_none

-- The address bits that do not power gate inactive mats.
unfoldable pub routed_address : BankConfig → Outcome ℤ
routed_address c = do
  address ← bank_address_bits c
  by_column ← quotient (c.num_row_mat * c.num_column_mat) c.num_active_mat_per_column
  idle ← quotient by_column c.num_active_mat_per_row
  gating ← defined (log2_int idle)
  ok (sub_int address gating)

-- `x / numActiveMatPerColumn / numActiveMatPerRow`
unfoldable pub per_active_mat : BankConfig → ℕ → Outcome ℕ
per_active_mat c x = do
  by_column ← quotient x c.num_active_mat_per_column
  quotient by_column c.num_active_mat_per_row

abbrev pub flat_share : MemCellType → MemoryType → BankConfig → Outcome Share
flat_share t data_array c = do
  bits ← per_active_mat c c.block_size
  reject_if (ltb c.associativity c.num_row_per_set)
  way_per_row ← quotient c.associativity c.num_row_per_set
  muxes ← way_muxes t way_per_row (given_muxes c)
  ok (record { mat_block_size = bits; num_way = c.associativity; muxes = muxes })
flat_share t tag c = do
  reject_if (ltb 1 c.num_row_per_set)
  ways ← per_active_mat c c.associativity
  reject_if (ltb ways 1)
  ok (record { mat_block_size = c.block_size; num_way = ways; muxes = given_muxes c })
flat_share t cam c =
    ok (record { mat_block_size = c.block_size; num_way = 1; muxes = given_muxes c })

unfoldable pub flat_mat_share : MemCellType → BankConfig → Outcome Share
unfolding way_muxes per_active_mat
flat_mat_share t c = flat_share t c.memory_type c

abbrev pub num_global_sense_amp : MemoryType → BankConfig → ℕ
num_global_sense_amp data_array c = c.block_size
num_global_sense_amp _ c = c.block_size * c.associativity

pub record FlatBank : Type 0 where
  pub config : BankConfig
  pub address_bit_route_to_mat : ℤ
  pub share : Share
  pub mat : Mat

unfoldable pub flat_initialize : BankContext → BankConfig → Outcome FlatBank
flat_initialize g config = do
  reject_if (not config.internal_sense_amp && rejects_external g g.mat.mem_cell_type)
  let c = bank_clamped config
  address ← routed_address c
  share ← flat_mat_share g.mat.mem_cell_type c
  mat ← mat_initialize g.mat (mat_config c address share)
  reject_if (
      not c.internal_sense_amp
      && not (g.global_sense_amp (num_global_sense_amp c.memory_type c) mat c.num_column_mat))
  ok (record { config = c; address_bit_route_to_mat = address; share = share; mat = mat })
