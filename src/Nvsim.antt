-- ===== src/Nvsim.antt =====
-- main.cpp and macros.h: `nvsim` builds a bank for each point of the search and keeps, for each
-- optimization target, the best one.
pub mod Wires
pub mod Explore
pub mod Refine
pub mod Program
pub mod Setup
pub mod Rows
use destiny_3d_cache.Prelude.{ℕ, ◌+◌, ◌*◌, ◌/◌, Bool, true, false, List, map, ◌==◌, if◌then◌else◌}
use destiny_3d_cache.Prelude.Outcome.{Outcome, ok, invalid, undefined, ◌>>=◌}
use destiny_3d_cache.Prelude.Run.{Run, returns, exits, outside}
use destiny_3d_cache.Double.{Double}
use destiny_3d_cache.TypeDef.{
  MemCellType, MemoryType, RoutingMode, h_tree, non_h_tree, WireType, WireRepeaterType,
  repeated_none,
}
use destiny_3d_cache.FunctionUnit.{FunctionUnit}
use destiny_3d_cache.Wire.{Wire}
use destiny_3d_cache.Mat.{Context, SubArray, Mat}
use destiny_3d_cache.Bank.{Bank, Routing}
use destiny_3d_cache.BankConfig.{BankConfig}
use destiny_3d_cache.BankWithHtree.{HtreeBank, htree_initialize}
use destiny_3d_cache.BankWithoutHtree.{BankContext, FlatBank, flat_initialize}
use destiny_3d_cache.InputParameter.{InputParameter}
use destiny_3d_cache.Search.{Point}
use destiny_3d_cache.Result.{Result, worst_case, new_result, compare_and_update}

-- The global objects that the search writes: `tech` by its number of layers, and the two wires.
pub record Globals (D : Type 0) : Type 0 where
  pub layer_count : ℕ
  pub local_wire : Wire D
  pub global_wire : Wire D

-- The memory cell, and what the analog models compute from the global objects: a wire, whether a
-- subarray and a global sense amplifier are legal, and the area, the latencies, the energies and the
-- leakage of a bank. `fresh` is what `new` leaves in the members of a bank.
pub record Simulator (D : Type 0) : Type 0 where
  pub mem_cell_type : MemCellType
  pub wire_initialize : ℕ → WireType → WireRepeaterType → ℕ → Bool → Wire D
  pub electrical : Globals D → ℕ → ℕ → ℕ → ℕ → ℕ → Bool
  pub global_sense_amp : Globals D → ℕ → Mat → ℕ → Bool
  pub evaluate : Globals D → BankConfig → Mat → FunctionUnit D × Routing D
  pub fresh : Bank D

-- The arguments that `CALCULATE` passes to `Initialize`.
abbrev pub design_config :
    {D : Type 0}
    → InputParameter D
    → MemoryType
    → (capacity block_size associativity : ℕ) → Point
    → BankConfig
design_config p memory_type capacity block_size associativity x = record {
  num_row_mat = x.num_row_mat;
  num_column_mat = x.num_column_mat;
  capacity = capacity;
  block_size = block_size;
  associativity = associativity;
  num_row_per_set = x.num_row_per_set;
  num_active_mat_per_row = x.num_active_mat_per_row;
  num_active_mat_per_column = x.num_active_mat_per_column;
  mux_sense_amp = x.mux_sense_amp;
  internal_sense_amp = p.internal_sensing;
  mux_output_lev1 = x.mux_output_lev1;
  mux_output_lev2 = x.mux_output_lev2;
  num_row_subarray = x.num_row_subarray;
  num_column_subarray = x.num_column_subarray;
  num_active_subarray_per_row = x.num_active_subarray_per_row;
  num_active_subarray_per_column = x.num_active_subarray_per_column;
  area_optimization_level = x.area_optimization_level;
  memory_type = memory_type;
  stacked_die_count = x.stacked_die_count;
  partition_granularity = p.partition_granularity;
  monolithic_stack_count = p.monolithic_stack_count;
}

-- The arguments that `TRY_AND_UPDATE` passes: those of a kept bank, for new wires.
abbrev pub trial_config : {D : Type 0} → InputParameter D → MemoryType → Bank D → BankConfig
trial_config p memory_type b = record {
  num_row_mat = b.num_row_mat;
  num_column_mat = b.num_column_mat;
  capacity = b.capacity;
  block_size = b.block_size;
  associativity = b.associativity;
  num_row_per_set = b.num_row_per_set;
  num_active_mat_per_row = b.num_active_mat_per_row;
  num_active_mat_per_column = b.num_active_mat_per_column;
  mux_sense_amp = b.mux_sense_amp;
  internal_sense_amp = p.internal_sensing;
  mux_output_lev1 = b.mux_output_lev1;
  mux_output_lev2 = b.mux_output_lev2;
  num_row_subarray = b.num_row_subarray;
  num_column_subarray = b.num_column_subarray;
  num_active_subarray_per_row = b.num_active_subarray_per_row;
  num_active_subarray_per_column = b.num_active_subarray_per_column;
  area_optimization_level = b.area_optimization_level;
  memory_type = memory_type;
  stacked_die_count = b.stacked_die_count;
  partition_granularity = b.partition_granularity;
  monolithic_stack_count = p.monolithic_stack_count;
}

-- The bank as the results keep it.
abbrev pub filled_bank :
    {D : Type 0} → Bool → BankConfig → SubArray → FunctionUnit D → Routing D → Bank D
filled_bank failed c subarray unit routing = record {
  unit = unit;
  initialized = true;
  invalid = failed;
  internal_sense_amp = c.internal_sense_amp;
  num_row_mat = c.num_row_mat;
  num_column_mat = c.num_column_mat;
  capacity = c.capacity;
  block_size = c.block_size;
  associativity = c.associativity;
  num_row_per_set = c.num_row_per_set;
  num_active_mat_per_row = c.num_active_mat_per_row;
  num_active_mat_per_column = c.num_active_mat_per_column;
  mux_sense_amp = c.mux_sense_amp;
  mux_output_lev1 = c.mux_output_lev1;
  mux_output_lev2 = c.mux_output_lev2;
  num_row_subarray = c.num_row_subarray;
  num_column_subarray = c.num_column_subarray;
  num_active_subarray_per_row = c.num_active_subarray_per_row;
  num_active_subarray_per_column = c.num_active_subarray_per_column;
  area_optimization_level = c.area_optimization_level;
  memory_type = c.memory_type;
  stacked_die_count = c.stacked_die_count;
  partition_granularity = c.partition_granularity;
  routing = routing;
  subarray = subarray;
}

module _ {D : Type 0} ⦃d : Double D⦄ (sim : Simulator D) (p : InputParameter D) where
  abbrev pub mat_context : Globals D → Context
  mat_context g = record {
    design_target = p.design_target;
    cache_access_mode = p.cache_access_mode;
    associativity = p.associativity;
    page_size = p.page_size;
    flash_block_size = p.flash_block_size;
    mem_cell_type = sim.mem_cell_type;
    electrical = sim.electrical g;
  }

  abbrev pub bank_context : Globals D → BankContext
  bank_context g = record {
    mat = mat_context g;
    repeated_none = g.global_wire.wire_repeater_type == repeated_none;
    global_sense_amp = sim.global_sense_amp g;
  }

  -- `Initialize` of the bank that the routing mode asks for: what it has clamped, and its mat.
  abbrev pub initialize_bank : RoutingMode → Globals D → BankConfig → Outcome (BankConfig × Mat)
  initialize_bank h_tree g c = do b ← htree_initialize (mat_context g) c; ok (b.config, b.mat)
  initialize_bank non_h_tree g c = do b ← flat_initialize (bank_context g) c; ok (b.config, b.mat)

  -- `CALCULATE`
  unfoldable pub calculate : Globals D → BankConfig → Outcome (Bank D)
  calculate g config = do
    (c, mat) ← initialize_bank p.routing_mode g config
    let (unit, routing) = sim.evaluate g c mat
    ok (filled_bank false c mat.subarray unit routing)
