-- ===== src/Result/Csv/Headers.antt =====
-- Result.cpp: the first line of the CSV file.
use destiny_3d_cache.Prelude.{List, [], ◌∷◌, ◌++◌, map}
use destiny_3d_cache.TypeDef.{DesignTarget, cache}
use destiny_3d_cache.Text.{Text, codes}
use destiny_3d_cache.Text.Columns.{write_columns}

abbrev pub array_headers : List Text
array_headers =
    codes "num_row_mat"
    ∷ codes "num_col_mat"
    ∷ codes "stacked_die_count"
    ∷ codes "total_banks"
    ∷ codes "total_mats"
    ∷ codes "num_active_mat_per_col"
    ∷ codes "num_active_mat_per_row"
    ∷ codes "num_row_subarray"
    ∷ codes "num_col_subarray"
    ∷ codes "num_active_subarray_per_col"
    ∷ codes "num_active_subarray_per_row"
    ∷ codes "subarray_num_row"
    ∷ codes "subarray_num_col"
    ∷ codes "mux_sense_amp"
    ∷ codes "mux_output_lev1"
    ∷ codes "mux_output_lev2"
    ∷ codes "num_row_per_set"
    ∷ codes "local_wire_type"
    ∷ codes "local_wire_repeater_type"
    ∷ codes "local_wire_low_swing"
    ∷ codes "global_wire_type"
    ∷ codes "global_wire_repeater_type"
    ∷ codes "global_wire_low_swing"
    ∷ codes "area_optimization_level"
    ∷ codes "bank_height_um"
    ∷ codes "bank_width_um"
    ∷ codes "bank_area_mm2"
    ∷ codes "mat_height_um"
    ∷ codes "mat_width_um"
    ∷ codes "mat_area_mm2"
    ∷ codes "subarray_height_um"
    ∷ codes "subarray_width_um"
    ∷ codes "subarray_area_mm2"
    ∷ codes "area_efficiency_pct"
    ∷ codes "read_latency_ns"
    ∷ codes "write_latency_ns"
    ∷ codes "refresh_latency_ns"
    ∷ codes "read_energy_pJ"
    ∷ codes "write_energy_pJ"
    ∷ codes "refresh_energy_pJ"
    ∷ codes "leakage_mW"
    ∷ codes "refresh_power_W"
    ∷ []

-- `writeArrayColumnHeaders`
abbrev pub array_column_headers : Text → List Text
array_column_headers prefix = map (◌++◌ prefix) array_headers

abbrev pub swept_headers : List Text
swept_headers =
    codes "opt_target"
    ∷ codes "capacity_kb"
    ∷ codes "word_width_bits"
    ∷ codes "associativity"
    ∷ codes "temperature_K"
    ∷ codes "process_node_nm"
    ∷ codes "device_roadmap"
    ∷ codes "internal_sensing"
    ∷ codes "mem_cell_type"
    ∷ []

abbrev pub cache_headers : List Text
cache_headers =
    codes "cache_access_mode"
    ∷ codes "cache_area_mm2"
    ∷ codes "cache_hit_latency_ns"
    ∷ codes "cache_miss_latency_ns"
    ∷ codes "cache_write_latency_ns"
    ∷ codes "cache_refresh_latency_ns"
    ∷ codes "cache_hit_energy_nJ"
    ∷ codes "cache_miss_energy_nJ"
    ∷ codes "cache_write_energy_nJ"
    ∷ codes "cache_refresh_energy_nJ"
    ∷ codes "cache_leakage_mW"
    ∷ codes "cache_refresh_power_W"
    ∷ []

unfoldable pub csv_header : DesignTarget → Text
csv_header cache =
    write_columns (
      swept_headers
      ++ (cache_headers
          ++ (array_column_headers (codes "data_") ++ array_column_headers (codes "tag_"))))
    ++ codes "combined_subarray_leakage_W,combined_subarray_area_mm2"
csv_header _ = write_columns (swept_headers ++ array_column_headers []) ++ codes "_sentinel_"
