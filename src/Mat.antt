-- ===== src/Mat.antt =====
-- Mat.cpp and SubArray.cpp: the organisation of a mat and of its subarrays, as `Initialize` derives
-- it. What the electrical values decide about a subarray is a parameter.
pub mod Defined
pub mod Capacity
use destiny_3d_cache.Prelude.{
  ℕ, ◌+◌, ◌-◌, ◌*◌, ◌/◌, ◌^◌, Bool, true, false, ◌&&◌, ◌||◌, not, ltb, ◌==◌, if◌then◌else◌, ℤ, pos,
  negsuc, sub_int, log2_int,
}
use destiny_3d_cache.Prelude.Outcome.{
  Outcome, ok, ◌>>=◌, ◌>>◌, reject_if, defined, quotient, shift_one,
}
use destiny_3d_cache.TypeDef.{
  BufferDesignTarget, MemoryType, data_array, tag, MemCellType, dram, edram, memristor, fbram,
  slc_nand, DesignTarget, cache, CacheAccessMode, sequential_access_mode,
}

-- What the checks of a subarray read of the global `inputParameter` and `cell`, and `electrical`:
-- whether the checks that follow, on currents, voltages, drivers and sense amplifiers, pass for a
-- number of rows, of columns and the three mux degrees.
pub record Context : Type 0 where
  pub design_target : DesignTarget
  pub cache_access_mode : CacheAccessMode
  pub associativity : ℕ
  pub page_size : ℕ
  pub flash_block_size : ℕ
  pub mem_cell_type : MemCellType
  pub electrical : ℕ → ℕ → ℕ → ℕ → ℕ → Bool

pub record SubArray : Type 0 where
  pub num_row : ℕ
  pub num_column : ℕ
  pub multiple_row_per_set : Bool
  pub internal_sense_amp : Bool
  pub mux_sense_amp : ℕ
  pub mux_output_lev1 : ℕ
  pub mux_output_lev2 : ℕ
  pub area_optimization_level : BufferDesignTarget
  pub num_3d_levels : ℕ

-- In these cases each column should hold part of the data of all the ways.
abbrev holds_all_ways : DesignTarget → CacheAccessMode → Bool
holds_all_ways cache sequential_access_mode = false
holds_all_ways cache _ = true
holds_all_ways _ _ = false

-- Whether the cell type forbids the configuration, before any electrical value is looked at.
abbrev cell_forbids : Context → SubArray → MemCellType → Outcome Bool
cell_forbids g a dram = ok (ltb 1 a.mux_sense_amp)
cell_forbids g a edram = ok (ltb 1 a.mux_sense_amp)
cell_forbids g a slc_nand = do
  page_count ← quotient g.flash_block_size g.page_size
  ok (ltb a.num_row page_count || (a.internal_sense_amp && ltb a.mux_sense_amp 2))
cell_forbids g a memristor = ok (a.internal_sense_amp && ltb a.mux_sense_amp 2)
cell_forbids g a fbram = ok (a.internal_sense_amp && ltb a.mux_sense_amp 2)
cell_forbids g a _ = ok false

-- `SubArray::Initialize`
unfoldable pub subarray_initialize : Context → SubArray → Outcome SubArray
subarray_initialize g a = do
  reject_if (holds_all_ways g.design_target g.cache_access_mode && ltb a.num_column g.associativity)
  forbidden ← cell_forbids g a g.mem_cell_type
  reject_if forbidden
  reject_if (
      not (g.electrical a.num_row a.num_column a.mux_sense_amp a.mux_output_lev1 a.mux_output_lev2))
  ok a

-- the arguments of `Mat::Initialize`
pub record MatConfig : Type 0 where
  pub num_row_subarray : ℕ
  pub num_column_subarray : ℕ
  pub num_address_bit : ℤ
  pub num_data_bit : ℕ
  pub num_way : ℕ
  pub num_row_per_set : ℕ
  pub num_active_subarray_per_row : ℕ
  pub num_active_subarray_per_column : ℕ
  pub mux_sense_amp : ℕ
  pub internal_sense_amp : Bool
  pub mux_output_lev1 : ℕ
  pub mux_output_lev2 : ℕ
  pub area_optimization_level : BufferDesignTarget
  pub memory_type : MemoryType
  pub stacked_die_count : ℕ
  pub partition_granularity : ℕ
  pub monolithic_stack_count : ℕ

-- The address bits of the two predecoder blocks of a group.
pub record Predecoders : Type 0 where
  pub block1 : ℕ
  pub block2 : ℕ

pub record Mat : Type 0 where
  pub config : MatConfig
  pub subarray : SubArray
  pub row_predecoder : Predecoders
  pub bitline_mux_predecoder : Predecoders
  pub sense_amp_mux_lev1_predecoder : Predecoders
  pub sense_amp_mux_lev2_predecoder : Predecoders
  pub total_predecoder_output_bits : ℕ

-- `if (a > b) a = b;`, with a warning
abbrev pub clamp : ℕ → ℕ → ℕ
clamp a b = if ltb b a then b else a

abbrev pub clamped : MatConfig → MatConfig
clamped c = record c {
  num_active_subarray_per_row = clamp c.num_active_subarray_per_row c.num_column_subarray;
  num_active_subarray_per_column = clamp c.num_active_subarray_per_column c.num_row_subarray;
}

-- `x` if it is more than 0
abbrev pub positive_part : ℤ → ℕ
positive_part (pos n) = n
positive_part (negsuc n) = 0

abbrev pub mux_degree : MatConfig → ℕ
mux_degree c = c.mux_sense_amp * c.mux_output_lev1 * c.mux_output_lev2

abbrev pub when_data : MemoryType → ℕ → ℕ
when_data data_array n = n
when_data _ n = 1

abbrev pub when_tag : MemoryType → ℕ → ℕ
when_tag tag n = n
when_tag _ n = 1

-- The address bits that power gate the inactive subarrays.
unfoldable pub gating_bits : MatConfig → Outcome ℕ
gating_bits c = do
  by_column ← quotient (c.num_row_subarray * c.num_column_subarray) c.num_active_subarray_per_column
  idle ← quotient by_column c.num_active_subarray_per_row
  defined (log2_int idle)

-- The rows and the columns of a subarray, and the address bits that select a row or a column in it.
unfoldable pub dimensions : MatConfig → ℕ → Outcome (ℕ × ℕ × ℕ)
dimensions c gating = do
  let bits = positive_part (sub_int c.num_address_bit gating)
  reject_if (bits == 0)
  selected ← shift_one bits
  rows ← quotient (selected * when_data c.memory_type c.num_way) (mux_degree c)
  reject_if (rows == 0)
  columns ←
      quotient c.num_data_bit (c.num_active_subarray_per_row * c.num_active_subarray_per_column)
  reject_if (columns == 0)
  ok (rows, columns * mux_degree c * when_tag c.memory_type c.num_way, bits)

unfoldable pub geometry : MatConfig → Outcome (ℕ × ℕ × ℕ)
unfolding gating_bits dimensions
geometry c = do gating ← gating_bits c; dimensions c gating

-- The address bits of a group, over two blocks if they are more than three.
unfoldable pub split_bits : ℕ → Predecoders
split_bits n =
    if ltb 3 n
    then record { block1 = n - n / 2; block2 = n / 2 }
    else record { block1 = n; block2 = 0 }

abbrev output_bits : Predecoders → ℕ
output_bits p = 2 ^ p.block1 + 2 ^ p.block2

-- The predecoders of a mat whose subarrays take `bits` address bits.
unfoldable pub predecode : MatConfig → ℕ → SubArray → Outcome Mat
unfolding split_bits
predecode c bits subarray = do
  mux_bits ← defined (log2_int (mux_degree c))
  reject_if (ltb bits mux_bits)
  bitline_bits ← defined (log2_int c.mux_sense_amp)
  lev1_bits ← defined (log2_int c.mux_output_lev1)
  lev2_bits ← defined (log2_int c.mux_output_lev2)
  let row = split_bits (bits - mux_bits)
  let bitline = split_bits bitline_bits
  let lev1 = split_bits lev1_bits
  let lev2 = split_bits lev2_bits
  ok (record {
    config = c;
    subarray = subarray;
    row_predecoder = row;
    bitline_mux_predecoder = bitline;
    sense_amp_mux_lev1_predecoder = lev1;
    sense_amp_mux_lev2_predecoder = lev2;
    total_predecoder_output_bits =
        output_bits row + output_bits bitline + output_bits lev1 + output_bits lev2;
  })

abbrev subarray_of : MatConfig → ℕ → ℕ → SubArray
subarray_of c rows columns = record {
  num_row = rows;
  num_column = columns;
  multiple_row_per_set = ltb 1 c.num_row_per_set;
  internal_sense_amp = c.internal_sense_amp;
  mux_sense_amp = c.mux_sense_amp;
  mux_output_lev1 = c.mux_output_lev1;
  mux_output_lev2 = c.mux_output_lev2;
  area_optimization_level = c.area_optimization_level;
  num_3d_levels = c.monolithic_stack_count;
}

-- `Mat::Initialize`
unfoldable pub mat_initialize : Context → MatConfig → Outcome Mat
mat_initialize g config = do
  let c = clamped config
  (rows, columns, bits) ← geometry c
  subarray ← subarray_initialize g (subarray_of c rows columns)
  predecode c bits subarray
