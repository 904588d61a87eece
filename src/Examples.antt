-- ===== src/Examples.antt =====
-- A small memory, on which the theorems are applied: 1 KiB in words of 64 bits, in a simulator whose
-- every figure is the number of rows of a subarray.
pub mod Banks
pub mod Search
pub mod Results
pub mod Parts
pub mod Files
pub mod Csv
pub mod Technology
use destiny_3d_cache.Prelude.{
  ℕ, ◌*◌, ◌≤◌, refl, Bool, true, false, Option, none, some, List, [], ◌∷◌, IsPowerOfTwo,
}
use destiny_3d_cache.Double.Whole.{Whole, whole_double}
use destiny_3d_cache.TypeDef.{
  sram, ram_chip, cache, normal_access_mode, h_tree, non_h_tree, read_latency_optimized, hp,
  data_array, tag, normal_write, RoutingMode, DesignTarget, MemoryType,
}
use destiny_3d_cache.FunctionUnit.{FunctionUnit}
use destiny_3d_cache.Wire.{Wire}
use destiny_3d_cache.Mat.{SubArray, Context}
use destiny_3d_cache.Bank.{Bank, Routing}
use destiny_3d_cache.BankConfig.{BankConfig}
use destiny_3d_cache.BankConfig.Powers.{IsPowers, HoldsWords}
use destiny_3d_cache.BankWithoutHtree.{BankContext}
use destiny_3d_cache.InputParameter.{InputParameter, ArraySpace, Range}
use destiny_3d_cache.Nvsim.{Simulator, Globals}
use destiny_3d_cache.Result.{Result, new_result}

abbrev unit_of : ℕ → FunctionUnit Whole
unit_of n = record {
  height = some n;
  width = some n;
  area = some n;
  read_latency = some n;
  write_latency = some n;
  read_dynamic_energy = some n;
  write_dynamic_energy = some n;
  leakage = some n;
  set_latency = some n;
  reset_latency = some n;
  refresh_latency = some n;
  set_dynamic_energy = some n;
  reset_dynamic_energy = some n;
  cell_read_energy = some n;
  cell_set_energy = some n;
  cell_reset_energy = some n;
  refresh_dynamic_energy = some n;
}

abbrev no_routing : Routing Whole
no_routing = record {
  routing_read_latency = none;
  routing_write_latency = none;
  routing_reset_latency = none;
  routing_set_latency = none;
  routing_refresh_latency = none;
  routing_read_dynamic_energy = none;
  routing_write_dynamic_energy = none;
  routing_reset_dynamic_energy = none;
  routing_set_dynamic_energy = none;
  routing_refresh_dynamic_energy = none;
  routing_leakage = none;
}

abbrev pub wire : ℕ → Wire Whole
wire repeaters = record {
  initialized = true;
  feature_size_in_nano = 32;
  feature_size = none;
  wire_type = 0;
  wire_repeater_type = repeaters;
  temperature = 300;
  is_low_swing = false;
  barrier_thickness = none;
  horizontal_dielectric = none;
  wire_pitch = none;
  aspect_ratio = none;
  ild_thickness = none;
  wire_width = none;
  wire_thickness = none;
  wire_spacing = none;
  repeater_size = none;
  repeater_spacing = none;
  repeater_height = none;
  repeater_width = none;
  repeated_wire_pitch = none;
  res_wire_per_unit = none;
  cap_wire_per_unit = none;
}

-- A bank of four mats with two subarrays each: 128 words of 64 bits.
abbrev pub four_mats : MemoryType → BankConfig
four_mats m = record {
  num_row_mat = 2;
  num_column_mat = 2;
  capacity = 8192;
  block_size = 64;
  associativity = 1;
  num_row_per_set = 1;
  num_active_mat_per_row = 2;
  num_active_mat_per_column = 1;
  mux_sense_amp = 2;
  internal_sense_amp = true;
  mux_output_lev1 = 1;
  mux_output_lev2 = 1;
  num_row_subarray = 1;
  num_column_subarray = 2;
  num_active_subarray_per_row = 2;
  num_active_subarray_per_column = 1;
  area_optimization_level = 0;
  memory_type = m;
  stacked_die_count = 1;
  partition_granularity = 0;
  monolithic_stack_count = 1;
}

-- A tag array of two ways: 64 sets of two tags of 32 bits.
abbrev pub tag_mats : BankConfig
tag_mats = record (four_mats tag) { capacity = 4096; block_size = 32; associativity = 2 }

abbrev pub context : Context
context = record {
  design_target = ram_chip;
  cache_access_mode = normal_access_mode;
  associativity = 1;
  page_size = 0;
  flash_block_size = 0;
  mem_cell_type = sram;
  electrical = λ rows columns amp lev1 lev2. true;
}

abbrev pub flat_context : BankContext
flat_context = record {
  mat = context;
  repeated_none = true;
  global_sense_amp = λ n m columns. true;
}

abbrev empty_subarray : SubArray
empty_subarray = record {
  num_row = 0;
  num_column = 0;
  multiple_row_per_set = false;
  internal_sense_amp = true;
  mux_sense_amp = 1;
  mux_output_lev1 = 1;
  mux_output_lev2 = 1;
  area_optimization_level = 0;
  num_3d_levels = 1;
}

abbrev pub bank_of_rows : ℕ → Bank Whole
bank_of_rows n = record {
  unit = unit_of n;
  initialized = false;
  invalid = false;
  internal_sense_amp = true;
  num_row_mat = 1;
  num_column_mat = 1;
  capacity = 8192;
  block_size = 64;
  associativity = 1;
  num_row_per_set = 1;
  num_active_mat_per_row = 1;
  num_active_mat_per_column = 1;
  mux_sense_amp = 1;
  mux_output_lev1 = 1;
  mux_output_lev2 = 1;
  num_row_subarray = 1;
  num_column_subarray = 1;
  num_active_subarray_per_row = 1;
  num_active_subarray_per_column = 1;
  area_optimization_level = 0;
  memory_type = data_array;
  stacked_die_count = 1;
  partition_granularity = 0;
  routing = no_routing;
  subarray = empty_subarray;
}

abbrev pub simulator : Simulator Whole
simulator = record {
  mem_cell_type = sram;
  wire_initialize = λ node type repeaters temperature swing. wire repeaters;
  electrical = λ g rows columns amp lev1 lev2. true;
  global_sense_amp = λ g n m columns. true;
  evaluate = λ g c m. (unit_of m.subarray.num_row, no_routing);
  fresh = bank_of_rows 0;
}

abbrev pub range : ℕ → ℕ → Range
range lo hi = record { lo = lo; hi = hi }

-- One or two columns of mats, and all else fixed.
abbrev pub space : ArraySpace
space = record {
  num_row_mat = range 1 1;
  num_column_mat = range 1 2;
  num_active_mat_per_row = range 1 1;
  num_active_mat_per_column = range 1 1;
  num_row_subarray = range 1 1;
  num_column_subarray = range 1 1;
  num_active_subarray_per_row = range 1 1;
  num_active_subarray_per_column = range 1 1;
  mux_sense_amp = range 1 1;
  mux_output_lev1 = range 1 1;
  mux_output_lev2 = range 1 1;
  area_optimization_level = range 0 0;
  local_wire_type = range 0 0;
  global_wire_type = range 4 4;
  local_wire_repeater_type = range 0 1;
  global_wire_repeater_type = range 0 0;
  is_local_wire_low_swing = range 0 1;
  is_global_wire_low_swing = range 0 0;
}

abbrev pub parameter : InputParameter Whole
parameter = record {
  design_target = ram_chip;
  optimization_target = read_latency_optimized;
  process_node = 32;
  capacity = 1024;
  word_width = 64;
  device_roadmap = hp;
  file_mem_cell = [];
  temperature = 300;
  max_driver_current = some 0;
  write_scheme = normal_write;
  read_latency_constraint = some 0;
  write_latency_constraint = some 0;
  read_dynamic_energy_constraint = some 0;
  write_dynamic_energy_constraint = some 0;
  leakage_constraint = some 0;
  area_constraint = some 0;
  read_edp_constraint = some 0;
  write_edp_constraint = some 0;
  is_constraint_applied = true;
  is_pruning_enabled = false;
  use_cacti_assumption = false;
  associativity = 1;
  cache_access_mode = normal_access_mode;
  page_size = 0;
  flash_block_size = 0;
  routing_mode = h_tree;
  internal_sensing = true;
  max_nmos_size = some 0;
  output_file_prefix = [];
  data_space = space;
  tag_space = space;
  num_row_per_set = range 1 1;
  partition_granularity = 0;
  local_tsv_projection = 1;
  global_tsv_projection = 1;
  tsv_redundancy = some 1;
  monolithic_stack_count = 1;
  stack_layer = range 1 1;
  forced_stack_layers = false;
  double_prune = false;
  print_all_optimals = false;
  allow_different_tag_tech = false;
  print_level = 1;
}

abbrev pub globals : Globals Whole
globals = record { layer_count = 1; local_wire = wire 0; global_wire = wire 0 }

abbrev pub start_result : Result Whole
start_result = new_result (bank_of_rows 0) (wire 0) (wire 0)
