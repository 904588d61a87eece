-- ===== src/InputParameter/New.antt =====
-- InputParameter.cpp: the constructor.
use destiny_3d_cache.Prelude.{true, false, []}
use destiny_3d_cache.Double.{Double, of_int, invalid_value}
use destiny_3d_cache.Text.{codes}
use destiny_3d_cache.TypeDef.{
  cache, read_latency_optimized, h_tree, normal_write, normal_access_mode, latency_first,
  area_first, local_aggressive, local_conservative, global_aggressive, global_conservative,
  repeated_none, repeated_50,
}
use destiny_3d_cache.InputParameter.{InputParameter, ArraySpace}

-- The bounds of both arrays, but for the wires of the tag array, which keep what was in memory.
abbrev pub new_space : ArraySpace → ArraySpace
new_space memory = record memory {
  num_row_mat = record { lo = 1; hi = 512 };
  num_column_mat = record { lo = 1; hi = 512 };
  num_active_mat_per_row = record { lo = 1; hi = 512 };
  num_active_mat_per_column = record { lo = 1; hi = 512 };
  num_row_subarray = record { lo = 1; hi = 2 };
  num_column_subarray = record { lo = 1; hi = 2 };
  num_active_subarray_per_row = record { lo = 1; hi = 2 };
  num_active_subarray_per_column = record { lo = 1; hi = 2 };
  mux_sense_amp = record { lo = 1; hi = 256 };
  mux_output_lev1 = record { lo = 1; hi = 256 };
  mux_output_lev2 = record { lo = 1; hi = 256 };
  area_optimization_level = record { lo = latency_first; hi = area_first };
}

abbrev pub new_wires : ArraySpace → ArraySpace
new_wires s = record s {
  local_wire_type = record { lo = local_aggressive; hi = local_conservative };
  global_wire_type = record { lo = global_aggressive; hi = global_conservative };
  local_wire_repeater_type = record { lo = repeated_none; hi = repeated_50 };
  global_wire_repeater_type = record { lo = repeated_none; hi = repeated_50 };
  is_local_wire_low_swing = record { lo = 0; hi = 1 };
  is_global_wire_low_swing = record { lo = 0; hi = 1 };
}

module _ {D : Type 0} ⦃d : Double D⦄ where
  -- The constructor does not set every member: the others keep what was in memory.
  unfoldable pub new_parameter : InputParameter D → InputParameter D
  new_parameter memory = record memory {
    design_target = cache;
    optimization_target = read_latency_optimized;
    process_node = 90;
    max_driver_current = of_int 0;
    max_nmos_size = of_int 100;
    data_space = new_wires (new_space memory.data_space);
    tag_space = new_space memory.tag_space;
    stack_layer = record { lo = 1; hi = 16 };
    num_row_per_set = record { lo = 1; hi = 256 };
    associativity = 1;
    routing_mode = h_tree;
    internal_sensing = true;
    use_cacti_assumption = false;
    write_scheme = normal_write;
    cache_access_mode = normal_access_mode;
    read_latency_constraint = invalid_value;
    write_latency_constraint = invalid_value;
    read_dynamic_energy_constraint = invalid_value;
    write_dynamic_energy_constraint = invalid_value;
    leakage_constraint = invalid_value;
    area_constraint = invalid_value;
    read_edp_constraint = invalid_value;
    write_edp_constraint = invalid_value;
    is_constraint_applied = false;
    is_pruning_enabled = false;
    page_size = 0;
    flash_block_size = 0;
    output_file_prefix = codes "output";
    partition_granularity = 0;
    local_tsv_projection = 1;
    global_tsv_projection = 1;
    tsv_redundancy = d.lit 15 1;
    monolithic_stack_count = 1;
    file_mem_cell = [];
    double_prune = false;
    print_all_optimals = false;
    allow_different_tag_tech = false;
    print_level = 1;
  }
