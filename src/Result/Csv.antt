-- ===== src/Result/Csv.antt =====
-- Result.cpp and macros.h: the lines of the CSV file. A line is the text that is written up to `endl`.
pub mod Words
pub mod Headers
pub mod Figures
pub mod Columns
pub mod Lines
use destiny_3d_cache.Prelude.{
  ℕ, ◌*◌, ◌/◌, ◌^◌, Bool, true, false, List, [], ◌∷◌, ◌++◌, map, ◌==◌, if◌then◌else◌,
}
use destiny_3d_cache.Double.{Double, ◌⊕◌, ◌⊖◌, ◌⊗◌, ◌⊘◌, ◌<?◌, of_int}
use destiny_3d_cache.TypeDef.{
  MemCellType, sram, dram, edram, memristor, mram, pcram, fbram, slc_nand, mlc_nand, DeviceRoadmap,
  hp, lstp, lop, edram_roadmap, OptimizationTarget, read_latency_optimized, write_latency_optimized,
  read_energy_optimized, write_energy_optimized, read_edp_optimized, write_edp_optimized,
  leakage_optimized, area_optimized, full_exploration, WireType, local_aggressive,
  local_conservative, semi_aggressive, semi_conservative, global_aggressive, global_conservative,
  WireRepeaterType, repeated_none, repeated_opt, repeated_5, repeated_10, repeated_20, repeated_30,
  repeated_40, repeated_50, BufferDesignTarget, latency_first, area_first, DesignTarget, cache,
  CacheAccessMode, normal_access_mode, fast_access_mode, sequential_access_mode, MemoryType,
  data_array, tag,
}
use destiny_3d_cache.Text.{Text, codes}
use destiny_3d_cache.Text.Decimal.{decimal_then}
use destiny_3d_cache.Text.Columns.{write_columns}
use destiny_3d_cache.FunctionUnit.{FunctionUnit}
use destiny_3d_cache.Wire.{Wire}
use destiny_3d_cache.Mat.{SubArray}
use destiny_3d_cache.Bank.{Bank}
use destiny_3d_cache.MemCell.{MemCell}
use destiny_3d_cache.InputParameter.{InputParameter}
use destiny_3d_cache.Result.{Result}
use Words.{
  roadmap_to_str, cell_type_to_str, print_optimization_target, wire_type_words, repeater_words,
  buffer_words, access_mode_words,
}
use Figures.{MatUnits, CacheFigures, maximum, cache_figures}

abbrev pub is_cache_line : MemoryType → MemoryType → Bool
is_cache_line data_array tag = true
is_cache_line _ _ = false

abbrev if_edram : MemCellType → Text → Text
if_edram edram value = value
if_edram _ value = codes "0"

module _ {D : Type 0} ⦃d : Double D⦄ where
  -- the two parts of the macro `TO_WATT`
  abbrev watt_value : D → D
  watt_value x =
      if x <? d.lit 1 9
      then x ⊗ of_int (10 ^ 12)
      else if x <? d.lit 1 6
      then x ⊗ of_int (10 ^ 9)
      else if x <? d.lit 1 3
      then x ⊗ of_int (10 ^ 6)
      else if x <? of_int 1
      then x ⊗ of_int (10 ^ 3)
      else x

  abbrev watt_unit : D → Text
  watt_unit x =
      if x <? d.lit 1 9
      then codes "pW"
      else if x <? d.lit 1 6
      then codes "nW"
      else if x <? d.lit 1 3
      then codes "uW"
      else if x <? of_int 1
      then codes "mW"
      else codes "W"

-- What the lines are made of: `<<` of a `double`, the units in the mat of a bank, and the global objects.
pub record Report (D : Type 0) : Type 0 where
  pub print_double : D → Text
  pub units : Bank D → MatUnits D
  pub feature_size : D
  pub input_parameter : InputParameter D
  pub cell : MemCell D

module _ {D : Type 0} ⦃d : Double D⦄ (g : Report D) where
  abbrev print_int : ℕ → Text
  print_int n = decimal_then n []

  -- A value times a power of ten.
  abbrev print_scaled : D → ℕ → Text
  print_scaled x e = g.print_double (x ⊗ of_int (10 ^ e))

  -- the macro `TO_WATT`
  abbrev print_watt : D → Text
  print_watt x = g.print_double (watt_value x) ++ watt_unit x

  -- `writeSweptParamsCols`
  abbrev swept_columns : Text → List Text
  swept_columns target =
      target
      ∷ print_int (g.input_parameter.capacity / 1024)
      ∷ print_int g.input_parameter.word_width
      ∷ print_int g.input_parameter.associativity
      ∷ print_int g.input_parameter.temperature
      ∷ print_int g.input_parameter.process_node
      ∷ roadmap_to_str g.input_parameter.device_roadmap
      ∷ (if g.input_parameter.internal_sensing then codes "true" else codes "false")
      ∷ cell_type_to_str g.cell.mem_cell_type
      ∷ []

  abbrev row_per_set_column : DesignTarget → ℕ → Text
  row_per_set_column cache n = print_int n
  row_per_set_column _ n = codes "N/A"

  abbrev wire_columns : Wire D → List Text
  wire_columns w =
      wire_type_words w.wire_type
      ∷ repeater_words w.wire_repeater_type
      ∷ (if w.is_low_swing then codes "Yes" else codes "No")
      ∷ []

  abbrev organisation_columns : Bank D → List Text
  organisation_columns b =
      print_int b.num_row_mat
      ∷ print_int b.num_column_mat
      ∷ print_int b.stacked_die_count
      ∷ print_int (b.num_row_mat * b.num_column_mat * b.stacked_die_count)
      ∷ print_int (b.num_row_subarray * b.num_column_subarray)
      ∷ print_int b.num_active_mat_per_column
      ∷ print_int b.num_active_mat_per_row
      ∷ print_int b.num_row_subarray
      ∷ print_int b.num_column_subarray
      ∷ print_int b.num_active_subarray_per_column
      ∷ print_int b.num_active_subarray_per_row
      ∷ print_int b.subarray.num_row
      ∷ print_int b.subarray.num_column
      ∷ print_int b.mux_sense_amp
      ∷ print_int b.mux_output_lev1
      ∷ print_int b.mux_output_lev2
      ∷ row_per_set_column g.input_parameter.design_target b.num_row_per_set
      ∷ []

  abbrev size_columns : FunctionUnit D → List Text
  size_columns u = print_scaled u.height 6 ∷ print_scaled u.width 6 ∷ print_scaled u.area 6 ∷ []

  abbrev figure_columns : Bank D → List Text
  figure_columns b =
      g.print_double
        (g.cell.area ⊗ g.feature_size ⊗ g.feature_size ⊗ of_int b.capacity ⊘ b.area ⊗ of_int 100)
      ∷ print_scaled b.read_latency 9
      ∷ print_scaled b.write_latency 9
      ∷ if_edram g.cell.mem_cell_type (print_scaled b.refresh_latency 9)
      ∷ print_scaled b.read_dynamic_energy 12
      ∷ print_scaled b.write_dynamic_energy 12
      ∷ if_edram g.cell.mem_cell_type (print_scaled b.refresh_dynamic_energy 12)
      ∷ print_scaled b.leakage 3
      ∷ if_edram g.cell.mem_cell_type
          (print_watt (b.refresh_dynamic_energy ⊘ g.cell.retention_time))
      ∷ []

  abbrev array_columns : Result D → List Text
  array_columns r =
      organisation_columns r.bank
      ++ (wire_columns r.local_wire
          ++ (wire_columns r.global_wire
              ++ (buffer_words r.bank.area_optimization_level
                  ∷ (size_columns r.bank.unit
                      ++ (size_columns (g.units r.bank).mat
                          ++ (size_columns (g.units r.bank).subarray ++ figure_columns r.bank))))))

  -- `printToCsvFile` does not end its line.
  unfoldable pub print_to_csv_file : Bool → Result D → Text
  print_to_csv_file write_prefix r =
      if write_prefix
      then write_columns
          (swept_columns (print_optimization_target r.optimization_target) ++ array_columns r)
      else write_columns (array_columns r)

  abbrev cache_columns : CacheAccessMode → Result D → Result D → List Text
  cache_columns mode r t =
      let f = cache_figures mode (g.units r.bank) r.bank t.bank in
      access_mode_words mode
      ∷ print_scaled (t.bank.area ⊕ r.bank.area) 6
      ∷ print_scaled f.hit_latency 9
      ∷ print_scaled f.miss_latency 9
      ∷ print_scaled f.write_latency 9
      ∷ if_edram g.cell.mem_cell_type
          (print_scaled (maximum t.bank.refresh_latency r.bank.refresh_latency) 9)
      ∷ print_scaled f.hit_dynamic_energy 9
      ∷ print_scaled f.miss_dynamic_energy 9
      ∷ print_scaled f.write_dynamic_energy 9
      ∷ if_edram g.cell.mem_cell_type
          (print_scaled (t.bank.refresh_dynamic_energy ⊕ r.bank.refresh_dynamic_energy) 9)
      ∷ print_scaled (t.bank.leakage ⊕ r.bank.leakage) 3
      ∷ if_edram g.cell.mem_cell_type
          (print_watt (r.bank.refresh_dynamic_energy ⊘ g.cell.retention_time))
      ∷ []

  -- the last two columns of a cache
  abbrev combined_columns : Result D → Result D → Text
  combined_columns r t =
      g.print_double ((g.units r.bank).subarray.leakage ⊕ (g.units t.bank).subarray.leakage)
      ++ (b',' ∷ print_scaled ((g.units r.bank).subarray.area ⊕ (g.units t.bank).subarray.area) 6)

  -- `printAsCacheToCsvFile` writes no line for banks that are no cache.
  unfoldable pub print_as_cache_to_csv_file : Result D → CacheAccessMode → Result D → List Text
  unfolding print_to_csv_file
  print_as_cache_to_csv_file t mode r =
      if is_cache_line r.bank.memory_type t.bank.memory_type
      then (write_columns (
            swept_columns (print_optimization_target r.optimization_target)
            ++ cache_columns mode r t)
          ++ (print_to_csv_file false r ++ (print_to_csv_file false t ++ combined_columns r t)))
        ∷ []
      else []

  abbrev pub cache_lines : List (Result D) → Result D → List Text
  cache_lines [] r = []
  cache_lines (t ∷ ts) r =
      print_as_cache_to_csv_file t g.input_parameter.cache_access_mode r ++ cache_lines ts r

  abbrev pub lines_of : DesignTarget → List (Result D) → Result D → List Text
  lines_of cache tags r = cache_lines tags r
  lines_of _ tags r = print_to_csv_file true r ∷ []

  -- `OUTPUT_TO_FILE`, with `bestTagResults`
  unfoldable pub output_to_file : List (Result D) → Result D → List Text
  unfolding print_to_csv_file print_as_cache_to_csv_file
  output_to_file tags r = lines_of g.input_parameter.design_target tags r
