-- ===== src/Result/Csv/Words.antt =====
-- Result.cpp: what the columns of the CSV file call the values of enums.
use destiny_3d_cache.Prelude.{[], ◌==◌, if◌then◌else◌}
use destiny_3d_cache.TypeDef.{
  MemCellType, sram, edram, memristor, mram, pcram, fbram, slc_nand, DeviceRoadmap, hp, lstp, lop,
  edram_roadmap, OptimizationTarget, read_latency_optimized, write_latency_optimized,
  read_energy_optimized, write_energy_optimized, read_edp_optimized, write_edp_optimized,
  leakage_optimized, area_optimized, full_exploration, WireType, local_aggressive,
  local_conservative, semi_aggressive, semi_conservative, global_aggressive, global_conservative,
  WireRepeaterType, repeated_none, repeated_opt, repeated_5, repeated_10, repeated_20, repeated_30,
  repeated_40, repeated_50, BufferDesignTarget, latency_first, area_first, CacheAccessMode,
  normal_access_mode, fast_access_mode, sequential_access_mode,
}
use destiny_3d_cache.Text.{Text, codes}

abbrev pub roadmap_to_str : DeviceRoadmap → Text
roadmap_to_str hp = codes "HP"
roadmap_to_str lstp = codes "LSTP"
roadmap_to_str lop = codes "LOP"
roadmap_to_str edram_roadmap = codes "EDRAM"

abbrev pub cell_type_to_str : MemCellType → Text
cell_type_to_str sram = codes "SRAM"
cell_type_to_str edram = codes "eDRAM"
cell_type_to_str memristor = codes "RRAM"
cell_type_to_str mram = codes "MRAM"
cell_type_to_str pcram = codes "PCRAM"
cell_type_to_str fbram = codes "FBRAM"
cell_type_to_str slc_nand = codes "SLCNAND"
cell_type_to_str _ = codes "Other"

abbrev pub print_optimization_target : OptimizationTarget → Text
print_optimization_target read_latency_optimized = codes "Read Latency"
print_optimization_target write_latency_optimized = codes "Write Latency"
print_optimization_target read_energy_optimized = codes "Read Energy"
print_optimization_target write_energy_optimized = codes "Write Energy"
print_optimization_target read_edp_optimized = codes "Read Energy-Delay-Product"
print_optimization_target write_edp_optimized = codes "Write Energy-Delay-Product"
print_optimization_target area_optimized = codes "Area"
print_optimization_target leakage_optimized = codes "Leakage"
print_optimization_target full_exploration = []

abbrev pub wire_type_words : WireType → Text
wire_type_words w =
    if w == local_aggressive
    then codes "Local Aggressive"
    else if w == local_conservative
    then codes "Local Conservative"
    else if w == semi_aggressive
    then codes "Semi-Global Aggressive"
    else if w == semi_conservative
    then codes "Semi-Global Conservative"
    else if w == global_aggressive
    then codes "Global Aggressive"
    else if w == global_conservative
    then codes "Global Conservative"
    else codes "DRAM Wire"

abbrev pub repeater_words : WireRepeaterType → Text
repeater_words w =
    if w == repeated_none
    then codes "No Repeaters"
    else if w == repeated_opt
    then codes "Fully-Optimized Repeaters"
    else if w == repeated_5
    then codes "Repeaters with 5% Overhead"
    else if w == repeated_10
    then codes "Repeaters with 10% Overhead"
    else if w == repeated_20
    then codes "Repeaters with 20% Overhead"
    else if w == repeated_30
    then codes "Repeaters with 30% Overhead"
    else if w == repeated_40
    then codes "Repeaters with 40% Overhead"
    else if w == repeated_50
    then codes "Repeaters with 50% Overhead"
    else codes "N/A"

abbrev pub buffer_words : BufferDesignTarget → Text
buffer_words level =
    if level == latency_first
    then codes "Latency-Optimized"
    else if level == area_first
    then codes "Area-Optimized"
    else codes "Balanced"

abbrev pub access_mode_words : CacheAccessMode → Text
access_mode_words normal_access_mode = codes "Normal"
access_mode_words fast_access_mode = codes "Fast"
access_mode_words sequential_access_mode = codes "Sequential"
