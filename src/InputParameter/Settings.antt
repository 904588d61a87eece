-- ===== src/InputParameter/Settings.antt =====
-- What a line of a configuration may set: how it is written, and what it means. Numbers of type
-- `double` are left to `strtod` and do not stand here.
pub mod Words
pub mod Reads
pub mod Numbers
pub mod Banks
pub mod Printed
pub mod Files
use destiny_3d_cache.Prelude.{
  ℕ, ◌*◌, ◌≤◌, ◌<◌, Bool, true, false, List, [], ◌∷◌, ◌++◌, if◌then◌else◌,
}
use destiny_3d_cache.Text.{Text, codes}
use destiny_3d_cache.Text.Scan.{int_bound, long_bound}
use destiny_3d_cache.Text.Decimal.{decimal_then}
use destiny_3d_cache.Text.Words.{IsWord}
use destiny_3d_cache.TypeDef.{
  DesignTarget, OptimizationTarget, DeviceRoadmap, WriteScheme, CacheAccessMode, RoutingMode,
  WireType, WireRepeaterType, BufferDesignTarget,
}
use destiny_3d_cache.InputParameter.{InputParameter, ArraySpace, fixed}
use destiny_3d_cache.InputParameter.Read.Design.{with_design_target}
use destiny_3d_cache.InputParameter.Read.Wires.{in_data_space, in_tag_space}
use destiny_3d_cache.InputParameter.Read.Spaces.{force_stack, with_cacti_assumption}
use Words.{
  design_target_word, optimization_target_word, device_roadmap_word, IsConfigured,
  write_scheme_word, cache_access_mode_word, routing_mode_word, true_word, yes_word, wire_type_word,
  repeater_type_word, area_optimization_word, swing_of,
}

-- Most bounds exist for the data array and for the tag array.
pub data ArrayKind : Type 0 where
  of_data of_tag : ArrayKind

pub data Setting : Type 0 where
  design_target : DesignTarget → Setting
  optimization_target : OptimizationTarget → Setting
  output_file_prefix : Text → Setting
  device_roadmap : DeviceRoadmap → Setting
  write_scheme : WriteScheme → Setting
  cache_access_mode : CacheAccessMode → Setting
  routing : RoutingMode → Setting
  internal_sensing : Bool → Setting
  memory_cell_input_file : Text → Setting
  cacti_assumption : Bool → Setting
  pruning : Bool → Setting
  print_all_optimals : Bool → Setting
  allow_different_tag_tech : Bool → Setting
  local_wire_type : ArrayKind → WireType → Setting
  global_wire_type : ArrayKind → WireType → Setting
  local_wire_repeater_type : ArrayKind → WireRepeaterType → Setting
  global_wire_repeater_type : ArrayKind → WireRepeaterType → Setting
  local_wire_low_swing : ArrayKind → Bool → Setting
  global_wire_low_swing : ArrayKind → Bool → Setting
  buffer_design_optimization : ArrayKind → BufferDesignTarget → Setting
  process_node associativity temperature partition_granularity local_tsv_projection
        global_tsv_projection stacked_die_count monolithic_stack_count print_level :
      ℕ → Setting
  word_width capacity_b capacity_kb capacity_mb flash_page_size flash_block_size : ℕ → Setting
  force_mux_sense_amp force_mux_output_lev1 force_mux_output_lev2 : ArrayKind → ℕ → Setting
  -- rows, columns, and the layers behind them
  force_bank_3da : ℕ → ℕ → ℕ → Setting
  -- and at last the active ones in a column and in a row
  force_bank_3d : ℕ → ℕ → ℕ → ℕ → ℕ → Setting
  force_bank_a force_mat_a : ℕ → ℕ → Setting
  force_bank force_mat : ArrayKind → ℕ → ℕ → ℕ → ℕ → Setting

-- The option of an array, and the option that forces a bound of it.
abbrev option : ArrayKind → Text → Text
option of_data rest = b'-' ∷ rest
option of_tag rest = codes "-Tag" ++ rest

abbrev force : ArrayKind → Text → Text
force of_data rest = codes "-Force" ++ rest
force of_tag rest = codes "-ForceTag" ++ rest

abbrev pub total : ℕ → ℕ → Text → Text
total a b rest = decimal_then a (b'x' ∷ decimal_then b rest)

abbrev pub print_setting : Setting → Text
print_setting (design_target x) = codes "-DesignTarget: " ++ design_target_word x
print_setting (optimization_target x) = codes "-OptimizationTarget: " ++ optimization_target_word x
print_setting (output_file_prefix x) = codes "-OutputFilePrefix: " ++ x
print_setting (device_roadmap x) = codes "-DeviceRoadmap: " ++ device_roadmap_word x
print_setting (write_scheme x) = codes "-WriteScheme: " ++ write_scheme_word x
print_setting (cache_access_mode x) = codes "-CacheAccessMode: " ++ cache_access_mode_word x
print_setting (routing x) = codes "-Routing: " ++ routing_mode_word x
print_setting (internal_sensing x) = codes "-InternalSensing: " ++ true_word x
print_setting (memory_cell_input_file x) = codes "-MemoryCellInputFile: " ++ x
print_setting (cacti_assumption x) = codes "-UseCactiAssumption: " ++ yes_word x
print_setting (pruning x) = codes "-EnablePruning: " ++ yes_word x
print_setting (print_all_optimals x) = codes "-PrintAllOptimals: " ++ true_word x
print_setting (allow_different_tag_tech x) = codes "-AllowDifferentTagTech: " ++ true_word x
print_setting (local_wire_type a x) = option a (codes "LocalWireType: " ++ wire_type_word x)
print_setting (global_wire_type a x) = option a (codes "GlobalWireType: " ++ wire_type_word x)
print_setting (local_wire_repeater_type a x) =
    option a (codes "LocalWireRepeaterType: " ++ repeater_type_word x)
print_setting (global_wire_repeater_type a x) =
    option a (codes "GlobalWireRepeaterType: " ++ repeater_type_word x)
print_setting (local_wire_low_swing a x) = option a (codes "LocalWireUseLowSwing: " ++ yes_word x)
print_setting (global_wire_low_swing a x) = option a (codes "GlobalWireUseLowSwing: " ++ yes_word x)
print_setting (buffer_design_optimization a x) =
    option a (codes "BufferDesignOptimization: " ++ area_optimization_word x)
print_setting (process_node n) = codes "-ProcessNode: " ++ decimal_then n []
print_setting (associativity n) = codes "-Associativity (for cache only): " ++ decimal_then n []
print_setting (temperature n) = codes "-Temperature (K): " ++ decimal_then n []
print_setting (partition_granularity n) = codes "-PartitionGranularity: " ++ decimal_then n []
print_setting (local_tsv_projection n) = codes "-LocalTSVProjection: " ++ decimal_then n []
print_setting (global_tsv_projection n) = codes "-GlobalTSVProjection: " ++ decimal_then n []
print_setting (stacked_die_count n) = codes "-StackedDieCount: " ++ decimal_then n []
print_setting (monolithic_stack_count n) = codes "-MonolithicStackCount: " ++ decimal_then n []
print_setting (print_level n) = codes "-PrintLevel: " ++ decimal_then n []
print_setting (word_width n) = codes "-WordWidth (bit): " ++ decimal_then n []
print_setting (capacity_b n) = codes "-Capacity (B): " ++ decimal_then n []
print_setting (capacity_kb n) = codes "-Capacity (KB): " ++ decimal_then n []
print_setting (capacity_mb n) = codes "-Capacity (MB): " ++ decimal_then n []
print_setting (flash_page_size n) = codes "-FlashPageSize (Byte): " ++ decimal_then n []
print_setting (flash_block_size n) = codes "-FlashBlockSize (KB): " ++ decimal_then n []
print_setting (force_mux_sense_amp a n) = force a (codes "MuxSenseAmp: " ++ decimal_then n [])
print_setting (force_mux_output_lev1 a n) = force a (codes "MuxOutputLev1: " ++ decimal_then n [])
print_setting (force_mux_output_lev2 a n) = force a (codes "MuxOutputLev2: " ++ decimal_then n [])
print_setting (force_bank_3da r c l) =
    codes "-ForceBank3DA (Total AxBxC): " ++ total r c (b'x' ∷ decimal_then l [])
print_setting (force_bank_3d r c l y x) =
    codes "-ForceBank3D (Total AxBxC, Active DxE): "
    ++ total r c (b'x' ∷ decimal_then l (codes ", " ++ total y x []))
print_setting (force_bank_a r c) = codes "-ForceBankA (Total AxB): " ++ total r c []
print_setting (force_mat_a r c) = codes "-ForceMatA (Total AxB): " ++ total r c []
print_setting (force_bank a r c y x) =
    force a (codes "Bank (Total AxB, Active CxD): " ++ total r c (codes ", " ++ total y x []))
print_setting (force_mat a r c y x) =
    force a (codes "Mat (Total AxB, Active CxD): " ++ total r c (codes ", " ++ total y x []))

-- What can be written at all: words that some line reads as this value, and numbers that fit.
abbrev pub IsWritable : Setting → Type 0
IsWritable (output_file_prefix x) = IsWord x
IsWritable (device_roadmap x) = IsConfigured x
IsWritable (memory_cell_input_file x) = IsWord x
IsWritable (local_wire_type a x) = x ≤ 6
IsWritable (global_wire_type a x) = x ≤ 6
IsWritable (local_wire_repeater_type a x) = x ≤ 7
IsWritable (global_wire_repeater_type a x) = x ≤ 7
IsWritable (buffer_design_optimization a x) = x ≤ 2
IsWritable (process_node n) = n < int_bound
IsWritable (associativity n) = n < int_bound
IsWritable (temperature n) = n < int_bound
IsWritable (partition_granularity n) = n < int_bound
IsWritable (local_tsv_projection n) = n < int_bound
IsWritable (global_tsv_projection n) = n < int_bound
IsWritable (stacked_die_count n) = n < int_bound
IsWritable (monolithic_stack_count n) = n < int_bound
IsWritable (print_level n) = n < int_bound
IsWritable (word_width n) = n < long_bound
IsWritable (capacity_b n) = n < long_bound
IsWritable (capacity_kb n) = n * 1024 < long_bound
IsWritable (capacity_mb n) = n * (1024 * 1024) < long_bound
IsWritable (flash_page_size n) = n * 8 < long_bound
IsWritable (flash_block_size n) = n * (8 * 1024) < long_bound
IsWritable (force_mux_sense_amp a n) = n < int_bound
IsWritable (force_mux_output_lev1 a n) = n < int_bound
IsWritable (force_mux_output_lev2 a n) = n < int_bound
IsWritable (force_bank_3da r c l) = (r < int_bound) × (c < int_bound) × (l < int_bound)
IsWritable (force_bank_3d r c l y x) =
    (r < int_bound) × (c < int_bound) × (l < int_bound) × (y < int_bound) × (x < int_bound)
IsWritable (force_bank_a r c) = (r < int_bound) × (c < int_bound)
IsWritable (force_mat_a r c) = (r < int_bound) × (c < int_bound)
IsWritable (force_bank a r c y x) =
    (r < int_bound) × (c < int_bound) × (y < int_bound) × (x < int_bound)
IsWritable (force_mat a r c y x) =
    (r < int_bound) × (c < int_bound) × (y < int_bound) × (x < int_bound)
IsWritable _ = Unit

abbrev pub bank_of : ℕ → ℕ → ArraySpace → ArraySpace
bank_of r c s = record s { num_row_mat = fixed r; num_column_mat = fixed c }

abbrev pub active_bank_of : ℕ → ℕ → ℕ → ℕ → ArraySpace → ArraySpace
active_bank_of r c y x s = record s {
  num_row_mat = fixed r;
  num_column_mat = fixed c;
  num_active_mat_per_column = fixed y;
  num_active_mat_per_row = fixed x;
}

abbrev pub mat_of : ℕ → ℕ → ArraySpace → ArraySpace
mat_of r c s = record s { num_row_subarray = fixed r; num_column_subarray = fixed c }

abbrev pub active_mat_of : ℕ → ℕ → ℕ → ℕ → ArraySpace → ArraySpace
active_mat_of r c y x s = record s {
  num_row_subarray = fixed r;
  num_column_subarray = fixed c;
  num_active_subarray_per_column = fixed y;
  num_active_subarray_per_row = fixed x;
}

module _ {D : Type 0} where
  abbrev pub in_space : ArrayKind → (ArraySpace → ArraySpace) → InputParameter D → InputParameter D
  in_space of_data = in_data_space
  in_space of_tag = in_tag_space

  -- What a setting means.
  abbrev pub apply_setting : Setting → InputParameter D → InputParameter D
  apply_setting (design_target x) p = with_design_target x p
  apply_setting (optimization_target x) p = record p { optimization_target = x }
  apply_setting (output_file_prefix x) p = record p { output_file_prefix = x }
  apply_setting (device_roadmap x) p = record p { device_roadmap = x }
  apply_setting (write_scheme x) p = record p { write_scheme = x }
  apply_setting (cache_access_mode x) p = record p { cache_access_mode = x }
  apply_setting (routing x) p = record p { routing_mode = x }
  apply_setting (internal_sensing x) p = record p { internal_sensing = x }
  apply_setting (memory_cell_input_file x) p = record p {
    file_mem_cell = p.file_mem_cell ++ x ∷ [];
  }
  apply_setting (cacti_assumption x) p = with_cacti_assumption x p
  apply_setting (pruning x) p = record p { is_pruning_enabled = x }
  apply_setting (print_all_optimals x) p = record p { print_all_optimals = x }
  apply_setting (allow_different_tag_tech x) p = record p { allow_different_tag_tech = x }
  apply_setting (local_wire_type a x) p = in_space a (λ s. record s { local_wire_type = fixed x }) p
  apply_setting (global_wire_type a x) p =
      in_space a (λ s. record s { global_wire_type = fixed x }) p
  apply_setting (local_wire_repeater_type a x) p =
      in_space a (λ s. record s { local_wire_repeater_type = fixed x }) p
  apply_setting (global_wire_repeater_type a x) p =
      in_space a (λ s. record s { global_wire_repeater_type = fixed x }) p
  apply_setting (local_wire_low_swing a x) p =
      in_space a (λ s. record s { is_local_wire_low_swing = fixed (swing_of x) }) p
  apply_setting (global_wire_low_swing a x) p =
      in_space a (λ s. record s { is_global_wire_low_swing = fixed (swing_of x) }) p
  apply_setting (buffer_design_optimization a x) p =
      in_space a (λ s. record s { area_optimization_level = fixed x }) p
  apply_setting (process_node n) p = record p { process_node = n }
  apply_setting (associativity n) p = record p { associativity = n }
  apply_setting (temperature n) p = record p { temperature = n }
  apply_setting (partition_granularity n) p = record p { partition_granularity = n }
  apply_setting (local_tsv_projection n) p = record p { local_tsv_projection = n }
  apply_setting (global_tsv_projection n) p = record p { global_tsv_projection = n }
  apply_setting (stacked_die_count n) p = force_stack n p
  apply_setting (monolithic_stack_count n) p = record p { monolithic_stack_count = n }
  apply_setting (print_level n) p = record p { print_level = n }
  apply_setting (word_width n) p = record p { word_width = n }
  apply_setting (capacity_b n) p = record p { capacity = n }
  apply_setting (capacity_kb n) p = record p { capacity = n * 1024 }
  apply_setting (capacity_mb n) p = record p { capacity = n * (1024 * 1024) }
  apply_setting (flash_page_size n) p = record p { page_size = n * 8 }
  apply_setting (flash_block_size n) p = record p { flash_block_size = n * (8 * 1024) }
  apply_setting (force_mux_sense_amp a n) p =
      in_space a (λ s. record s { mux_sense_amp = fixed n }) p
  apply_setting (force_mux_output_lev1 a n) p =
      in_space a (λ s. record s { mux_output_lev1 = fixed n }) p
  apply_setting (force_mux_output_lev2 a n) p =
      in_space a (λ s. record s { mux_output_lev2 = fixed n }) p
  apply_setting (force_bank_3da r c l) p = in_data_space (bank_of r c) (force_stack l p)
  apply_setting (force_bank_3d r c l y x) p =
      in_data_space (active_bank_of r c y x) (force_stack l p)
  apply_setting (force_bank_a r c) p = in_data_space (bank_of r c) p
  apply_setting (force_mat_a r c) p = in_data_space (mat_of r c) p
  apply_setting (force_bank a r c y x) p = in_space a (active_bank_of r c y x) p
  apply_setting (force_mat a r c y x) p = in_space a (active_mat_of r c y x) p
