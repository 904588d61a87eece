-- ===== src/Result/Csv/Columns.antt =====
-- Every line of the CSV file has the columns of its first line.
use destiny_3d_cache.Prelude.{ℕ, List, ◌∷◌, ◌++◌, refl, arith, All, All-append}
use destiny_3d_cache.Double.{Double}
use destiny_3d_cache.TypeDef.{
  MemCellType, sram, dram, edram, memristor, mram, pcram, fbram, slc_nand, mlc_nand, DeviceRoadmap,
  hp, lstp, lop, edram_roadmap, OptimizationTarget, read_latency_optimized, write_latency_optimized,
  read_energy_optimized, write_energy_optimized, read_edp_optimized, write_edp_optimized,
  leakage_optimized, area_optimized, full_exploration, WireType, WireRepeaterType,
  BufferDesignTarget, DesignTarget, cache, ram_chip, cam_chip, CacheAccessMode, normal_access_mode,
  fast_access_mode, sequential_access_mode,
}
use destiny_3d_cache.Text.{Text}
use destiny_3d_cache.Text.Columns.{
  ◌▹◌, IsColumn, append-IsColumn, decimal_then-IsColumn, plain-IsColumn,
}
use destiny_3d_cache.FunctionUnit.{FunctionUnit}
use destiny_3d_cache.Wire.{Wire}
use destiny_3d_cache.Bank.{Bank}
use destiny_3d_cache.Result.{Result}
use destiny_3d_cache.Result.Csv.{
  Report, watt_value, watt_unit, if_edram, print_watt, swept_columns, row_per_set_column,
  wire_columns, organisation_columns, size_columns, figure_columns, array_columns, cache_columns,
}
use destiny_3d_cache.Result.Csv.Words.{
  roadmap_to_str, cell_type_to_str, print_optimization_target, wire_type_words, repeater_words,
  buffer_words, access_mode_words,
}

roadmap-IsColumn : (r : DeviceRoadmap) → IsColumn (roadmap_to_str r)
roadmap-IsColumn hp = plain-IsColumn refl
roadmap-IsColumn lstp = plain-IsColumn refl
roadmap-IsColumn lop = plain-IsColumn refl
roadmap-IsColumn edram_roadmap = plain-IsColumn refl

cell_type-IsColumn : (t : MemCellType) → IsColumn (cell_type_to_str t)
cell_type-IsColumn sram = plain-IsColumn refl
cell_type-IsColumn dram = plain-IsColumn refl
cell_type-IsColumn edram = plain-IsColumn refl
cell_type-IsColumn mram = plain-IsColumn refl
cell_type-IsColumn pcram = plain-IsColumn refl
cell_type-IsColumn memristor = plain-IsColumn refl
cell_type-IsColumn fbram = plain-IsColumn refl
cell_type-IsColumn slc_nand = plain-IsColumn refl
cell_type-IsColumn mlc_nand = plain-IsColumn refl

target-IsColumn : (t : OptimizationTarget) → IsColumn (print_optimization_target t)
target-IsColumn read_latency_optimized = plain-IsColumn refl
target-IsColumn write_latency_optimized = plain-IsColumn refl
target-IsColumn read_energy_optimized = plain-IsColumn refl
target-IsColumn write_energy_optimized = plain-IsColumn refl
target-IsColumn read_edp_optimized = plain-IsColumn refl
target-IsColumn write_edp_optimized = plain-IsColumn refl
target-IsColumn leakage_optimized = plain-IsColumn refl
target-IsColumn area_optimized = plain-IsColumn refl
target-IsColumn full_exploration = plain-IsColumn refl

access_mode-IsColumn : (m : CacheAccessMode) → IsColumn (access_mode_words m)
access_mode-IsColumn normal_access_mode = plain-IsColumn refl
access_mode-IsColumn fast_access_mode = plain-IsColumn refl
access_mode-IsColumn sequential_access_mode = plain-IsColumn refl

wire_type-IsColumn : (w : WireType) → IsColumn (wire_type_words w)
wire_type-IsColumn w = record { has_no_comma = ground arith }

repeater-IsColumn : (w : WireRepeaterType) → IsColumn (repeater_words w)
repeater-IsColumn w = record { has_no_comma = ground arith }

buffer-IsColumn : (level : BufferDesignTarget) → IsColumn (buffer_words level)
buffer-IsColumn level = record { has_no_comma = ground arith }

if_edram-IsColumn : (t : MemCellType) (value : Text) → IsColumn value → IsColumn (if_edram t value)
if_edram-IsColumn edram value h = h
if_edram-IsColumn sram value h = plain-IsColumn refl
if_edram-IsColumn dram value h = plain-IsColumn refl
if_edram-IsColumn mram value h = plain-IsColumn refl
if_edram-IsColumn pcram value h = plain-IsColumn refl
if_edram-IsColumn memristor value h = plain-IsColumn refl
if_edram-IsColumn fbram value h = plain-IsColumn refl
if_edram-IsColumn slc_nand value h = plain-IsColumn refl
if_edram-IsColumn mlc_nand value h = plain-IsColumn refl

unit-IsColumn : {D : Type 0} ⦃d : Double D⦄ → (x : D) → IsColumn (watt_unit x)
unit-IsColumn x = record { has_no_comma = ground arith }

module _ {D : Type 0} ⦃d : Double D⦄ (g : Report D)
    (dbl : (x : D) → IsColumn (g.print_double x)) where
  watt-IsColumn : (x : D) → IsColumn (print_watt g x)
  watt-IsColumn x =
      append-IsColumn (g.print_double (watt_value x)) (watt_unit x) (dbl _) (unit-IsColumn x)

  row_per_set-IsColumn : (t : DesignTarget) (n : ℕ) → IsColumn (row_per_set_column g t n)
  row_per_set-IsColumn cache n = decimal_then-IsColumn n
  row_per_set-IsColumn ram_chip n = plain-IsColumn refl
  row_per_set-IsColumn cam_chip n = plain-IsColumn refl

  organisation-AllColumns : (b : Bank D) → All IsColumn (organisation_columns g b)
  organisation-AllColumns b =
      decimal_then-IsColumn _
      ▹ decimal_then-IsColumn _
      ▹ decimal_then-IsColumn _
      ▹ decimal_then-IsColumn _
      ▹ decimal_then-IsColumn _
      ▹ decimal_then-IsColumn _
      ▹ decimal_then-IsColumn _
      ▹ decimal_then-IsColumn _
      ▹ decimal_then-IsColumn _
      ▹ decimal_then-IsColumn _
      ▹ decimal_then-IsColumn _
      ▹ decimal_then-IsColumn _
      ▹ decimal_then-IsColumn _
      ▹ decimal_then-IsColumn _
      ▹ decimal_then-IsColumn _
      ▹ decimal_then-IsColumn _
      ▹ row_per_set-IsColumn g.input_parameter.design_target b.num_row_per_set
      ▹ tt

  wire-AllColumns : (w : Wire D) → All IsColumn (wire_columns g w)
  wire-AllColumns w = (
    wire_type-IsColumn w.wire_type,
    (repeater-IsColumn w.wire_repeater_type, (record { has_no_comma = ground arith }, tt)),
  )

  figure-AllColumns : (b : Bank D) → All IsColumn (figure_columns g b)
  figure-AllColumns b =
      dbl _
      ▹ dbl _
      ▹ dbl _
      ▹ if_edram-IsColumn g.cell.mem_cell_type _ (dbl _)
      ▹ dbl _
      ▹ dbl _
      ▹ if_edram-IsColumn g.cell.mem_cell_type _ (dbl _)
      ▹ dbl _
      ▹ if_edram-IsColumn g.cell.mem_cell_type _ (watt-IsColumn _)
      ▹ tt

  size-AllColumns : (u : FunctionUnit D) → All IsColumn (size_columns g u)
  size-AllColumns u = (dbl _, (dbl _, (dbl _, tt)))

  -- the columns behind the organisation
  abbrev late_columns : Result D → List Text
  late_columns r =
      size_columns g r.bank.unit
      ++ (size_columns g (g.units r.bank).mat
          ++ (size_columns g (g.units r.bank).subarray ++ figure_columns g r.bank))

  late-AllColumns : (r : Result D) → All IsColumn (late_columns r)
  late-AllColumns r =
      let m = (g.units r.bank).mat in
      let s = (g.units r.bank).subarray in
      All-append IsColumn (size_columns g r.bank.unit)
        (size_columns g m ++ (size_columns g s ++ figure_columns g r.bank))
        (size-AllColumns r.bank.unit)
        (All-append IsColumn (size_columns g m) (size_columns g s ++ figure_columns g r.bank)
          (size-AllColumns m)
          (All-append IsColumn (size_columns g s) (figure_columns g r.bank) (size-AllColumns s)
            (figure-AllColumns r.bank)))

  pub array-AllColumns : (r : Result D) → All IsColumn (array_columns g r)
  array-AllColumns r =
      let middle = buffer_words r.bank.area_optimization_level ∷ late_columns r in
      let wires = wire_columns g r.global_wire ++ middle in
      All-append IsColumn (organisation_columns g r.bank) (wire_columns g r.local_wire ++ wires)
        (organisation-AllColumns r.bank)
        (All-append IsColumn (wire_columns g r.local_wire) wires (wire-AllColumns r.local_wire) (
          All-append IsColumn (wire_columns g r.global_wire) middle (wire-AllColumns r.global_wire)
            (buffer-IsColumn r.bank.area_optimization_level, late-AllColumns r)))

  pub swept-AllColumns :
      (t : OptimizationTarget) → All IsColumn (swept_columns g (print_optimization_target t))
  swept-AllColumns t =
      target-IsColumn t
      ▹ decimal_then-IsColumn _
      ▹ decimal_then-IsColumn _
      ▹ decimal_then-IsColumn _
      ▹ decimal_then-IsColumn _
      ▹ decimal_then-IsColumn _
      ▹ roadmap-IsColumn g.input_parameter.device_roadmap
      ▹ record { has_no_comma = ground arith }
      ▹ cell_type-IsColumn g.cell.mem_cell_type
      ▹ tt

  pub cache-AllColumns :
      (m : CacheAccessMode) (r t : Result D) → All IsColumn (cache_columns g m r t)
  cache-AllColumns m r t =
      access_mode-IsColumn m
      ▹ dbl _
      ▹ dbl _
      ▹ dbl _
      ▹ dbl _
      ▹ if_edram-IsColumn g.cell.mem_cell_type _ (dbl _)
      ▹ dbl _
      ▹ dbl _
      ▹ dbl _
      ▹ if_edram-IsColumn g.cell.mem_cell_type _ (dbl _)
      ▹ dbl _
      ▹ if_edram-IsColumn g.cell.mem_cell_type _ (watt-IsColumn _)
      ▹ tt
