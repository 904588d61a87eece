-- ===== src/Search/Size.antt =====
-- macros.h: the macros that set the bounds of the search. `true` and `false` are 1 and 0.
use destiny_3d_cache.Prelude.{◌==◌, if◌then◌else◌}
use destiny_3d_cache.TypeDef.{
  latency_first, area_first, local_aggressive, local_conservative, semi_aggressive,
  semi_conservative, global_aggressive, global_conservative, repeated_none, repeated_opt,
  repeated_50,
}
use destiny_3d_cache.InputParameter.{InputParameter, ArraySpace, Range}
use destiny_3d_cache.Search.{Point, bigfor}
use destiny_3d_cache.Search.Loops.{Loop}

-- the values that `REDUCE_SEARCH_SIZE` writes
abbrev reduced_space : ArraySpace
reduced_space = record {
  num_row_mat = record { lo = 1; hi = 64 };
  num_column_mat = record { lo = 1; hi = 64 };
  num_active_mat_per_row = record { lo = 1; hi = 64 };
  num_active_mat_per_column = record { lo = 1; hi = 64 };
  num_row_subarray = record { lo = 1; hi = 2 };
  num_column_subarray = record { lo = 1; hi = 2 };
  num_active_subarray_per_row = record { lo = 1; hi = 2 };
  num_active_subarray_per_column = record { lo = 1; hi = 2 };
  mux_sense_amp = record { lo = 1; hi = 64 };
  mux_output_lev1 = record { lo = 1; hi = 64 };
  mux_output_lev2 = record { lo = 1; hi = 64 };
  area_optimization_level = record { lo = latency_first; hi = area_first };
  local_wire_type = record { lo = local_aggressive; hi = local_conservative };
  global_wire_type = record { lo = global_aggressive; hi = global_conservative };
  local_wire_repeater_type = record { lo = repeated_none; hi = repeated_opt };
  global_wire_repeater_type = record { lo = repeated_none; hi = repeated_opt };
  is_local_wire_low_swing = record { lo = 0; hi = 1 };
  is_global_wire_low_swing = record { lo = 0; hi = 1 };
}

-- the values that `RESTORE_SEARCH_SIZE` writes for the data array
abbrev full_space : ArraySpace
full_space = record {
  num_row_mat = record { lo = 1; hi = 512 };
  num_column_mat = record { lo = 1; hi = 512 };
  num_active_mat_per_row = record { lo = 1; hi = 512 };
  num_active_mat_per_column = record { lo = 1; hi = 512 };
  num_row_subarray = record { lo = 1; hi = 2 };
  num_column_subarray = record { lo = 1; hi = 2 };
  num_active_subarray_per_row = record { lo = 1; hi = 2 };
  num_active_subarray_per_column = record { lo = 1; hi = 2 };
  mux_sense_amp = record { lo = 1; hi = 256 };
  mux_output_lev1 = record { lo = 1; hi = 256 };
  mux_output_lev2 = record { lo = 1; hi = 256 };
  area_optimization_level = record { lo = latency_first; hi = area_first };
  local_wire_type = record { lo = local_aggressive; hi = semi_conservative };
  global_wire_type = record { lo = semi_aggressive; hi = global_conservative };
  local_wire_repeater_type = record { lo = repeated_none; hi = repeated_50 };
  global_wire_repeater_type = record { lo = repeated_none; hi = repeated_50 };
  is_local_wire_low_swing = record { lo = 0; hi = 1 };
  is_global_wire_low_swing = record { lo = 0; hi = 1 };
}

-- and for the tag array
abbrev full_tag_space : ArraySpace
full_tag_space = record {
  num_row_mat = record { lo = 1; hi = 64 };
  num_column_mat = record { lo = 1; hi = 64 };
  num_active_mat_per_row = record { lo = 1; hi = 64 };
  num_active_mat_per_column = record { lo = 1; hi = 64 };
  num_row_subarray = record { lo = 1; hi = 2 };
  num_column_subarray = record { lo = 1; hi = 2 };
  num_active_subarray_per_row = record { lo = 1; hi = 2 };
  num_active_subarray_per_column = record { lo = 1; hi = 2 };
  mux_sense_amp = record { lo = 1; hi = 64 };
  mux_output_lev1 = record { lo = 1; hi = 64 };
  mux_output_lev2 = record { lo = 1; hi = 64 };
  area_optimization_level = record { lo = latency_first; hi = area_first };
  local_wire_type = record { lo = local_aggressive; hi = semi_conservative };
  global_wire_type = record { lo = semi_aggressive; hi = global_conservative };
  local_wire_repeater_type = record { lo = repeated_none; hi = repeated_50 };
  global_wire_repeater_type = record { lo = repeated_none; hi = repeated_50 };
  is_local_wire_low_swing = record { lo = 0; hi = 1 };
  is_global_wire_low_swing = record { lo = 0; hi = 1 };
}

-- A range that the user has fixed to one value is kept.
abbrev unless_fixed : Range → Range → Range
unless_fixed old new = if old.hi == old.lo then old else new

module _ {D : Type 0} where
  unfoldable pub reduce_search_size : InputParameter D → InputParameter D
  reduce_search_size p = record p {
    data_space = reduced_space;
    num_row_per_set = record { lo = 1; hi = 1 };
  }

  unfoldable pub restore_search_size : InputParameter D → InputParameter D
  restore_search_size p = record p {
    data_space = full_space;
    tag_space = full_tag_space;
    num_row_per_set = record { lo = 1; hi = p.associativity };
  }

  -- `REDUCE_SEARCH_SIZE_CONSTRAINED`; the bounds of the active mats and subarrays follow the bounds
  -- that were just written.
  unfoldable pub reduce_search_size_constrained : InputParameter D → InputParameter D
  reduce_search_size_constrained p =
      let s = p.data_space in
      let row_mat = unless_fixed s.num_row_mat (record { lo = 1; hi = 64 }) in
      let column_mat = unless_fixed s.num_column_mat (record { lo = 1; hi = 64 }) in
      let row_subarray = unless_fixed s.num_row_subarray (record { lo = 1; hi = 2 }) in
      let column_subarray = unless_fixed s.num_column_subarray (record { lo = 1; hi = 2 }) in
      record p {
        data_space = record reduced_space {
          num_row_mat = row_mat;
          num_column_mat = column_mat;
          num_active_mat_per_row =
              unless_fixed s.num_active_mat_per_row (record { lo = 1; hi = column_mat.hi });
          num_active_mat_per_column =
              unless_fixed s.num_active_mat_per_column (record { lo = 1; hi = row_mat.hi });
          num_row_subarray = row_subarray;
          num_column_subarray = column_subarray;
          num_active_subarray_per_row =
              unless_fixed s.num_active_subarray_per_row
                (record { lo = 1; hi = column_subarray.hi });
          num_active_subarray_per_column =
              unless_fixed s.num_active_subarray_per_column
                (record { lo = 1; hi = row_subarray.hi });
          mux_sense_amp = unless_fixed s.mux_sense_amp (record { lo = 1; hi = 64 });
          mux_output_lev1 = unless_fixed s.mux_output_lev1 (record { lo = 1; hi = 64 });
          mux_output_lev2 = unless_fixed s.mux_output_lev2 (record { lo = 1; hi = 64 });
        };
        num_row_per_set = record { lo = 1; hi = 1 };
      }

  -- The loop over the data array and the loop over the tag array of a configuration.
  abbrev pub data_points : InputParameter D → Loop Point
  data_points p = bigfor p.data_space p.num_row_per_set p.stack_layer p.associativity

  abbrev pub tag_points : InputParameter D → Loop Point
  tag_points p = bigfor p.tag_space p.num_row_per_set p.stack_layer p.associativity
