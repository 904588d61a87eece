-- ===== src/InputParameter/Words.antt =====
-- InputParameter.cpp: what the words of a configuration stand for.
use destiny_3d_cache.Prelude.{ℕ, if◌then◌else◌}
use destiny_3d_cache.TypeDef.{
  DesignTarget, cache, ram_chip, cam_chip, OptimizationTarget, read_latency_optimized,
  write_latency_optimized, read_energy_optimized, write_energy_optimized, read_edp_optimized,
  write_edp_optimized, leakage_optimized, area_optimized, full_exploration, DeviceRoadmap, hp, lstp,
  lop, WriteScheme, set_before_reset, reset_before_set, erase_before_set, erase_before_reset,
  write_and_verify, normal_write, CacheAccessMode, sequential_access_mode, fast_access_mode,
  normal_access_mode, WireType, local_aggressive, local_conservative, semi_aggressive,
  semi_conservative, global_aggressive, global_conservative, dram_wordline, WireRepeaterType,
  repeated_none, repeated_opt, repeated_5, repeated_10, repeated_20, repeated_30, repeated_40,
  repeated_50, RoutingMode, h_tree, non_h_tree, BufferDesignTarget, latency_first,
  latency_area_trade_off, area_first,
}
use destiny_3d_cache.Text.{Text, codes, same_text}

abbrev pub design_target_of : Text → DesignTarget
design_target_of w =
    if same_text w (codes "cache")
    then cache
    else if same_text w (codes "RAM")
    then ram_chip
    else cam_chip

abbrev pub optimization_target_of : Text → OptimizationTarget
optimization_target_of w =
    if same_text w (codes "ReadLatency")
    then read_latency_optimized
    else if same_text w (codes "WriteLatency")
    then write_latency_optimized
    else if same_text w (codes "ReadDynamicEnergy")
    then read_energy_optimized
    else if same_text w (codes "WriteDynamicEnergy")
    then write_energy_optimized
    else if same_text w (codes "ReadEDP")
    then read_edp_optimized
    else if same_text w (codes "WriteEDP")
    then write_edp_optimized
    else if same_text w (codes "LeakagePower")
    then leakage_optimized
    else if same_text w (codes "Area")
    then area_optimized
    else full_exploration

abbrev pub device_roadmap_of : Text → DeviceRoadmap
device_roadmap_of w =
    if same_text w (codes "HP") then hp else if same_text w (codes "LSTP") then lstp else lop

abbrev pub write_scheme_of : Text → WriteScheme
write_scheme_of w =
    if same_text w (codes "SetBeforeReset")
    then set_before_reset
    else if same_text w (codes "ResetBeforeSet")
    then reset_before_set
    else if same_text w (codes "EraseBeforeSet")
    then erase_before_set
    else if same_text w (codes "EraseBeforeReset")
    then erase_before_reset
    else if same_text w (codes "WriteAndVerify")
    then write_and_verify
    else normal_write

abbrev pub cache_access_mode_of : Text → CacheAccessMode
cache_access_mode_of w =
    if same_text w (codes "Sequential")
    then sequential_access_mode
    else if same_text w (codes "Fast")
    then fast_access_mode
    else normal_access_mode

abbrev pub wire_type_of : Text → WireType
wire_type_of w =
    if same_text w (codes "LocalAggressive")
    then local_aggressive
    else if same_text w (codes "LocalConservative")
    then local_conservative
    else if same_text w (codes "SemiAggressive")
    then semi_aggressive
    else if same_text w (codes "SemiConservative")
    then semi_conservative
    else if same_text w (codes "GlobalAggressive")
    then global_aggressive
    else if same_text w (codes "GlobalConservative")
    then global_conservative
    else dram_wordline

abbrev pub repeater_type_of : Text → WireRepeaterType
repeater_type_of w =
    if same_text w (codes "RepeatedOpt")
    then repeated_opt
    else if same_text w (codes "Repeated5%Penalty")
    then repeated_5
    else if same_text w (codes "Repeated10%Penalty")
    then repeated_10
    else if same_text w (codes "Repeated20%Penalty")
    then repeated_20
    else if same_text w (codes "Repeated30%Penalty")
    then repeated_30
    else if same_text w (codes "Repeated40%Penalty")
    then repeated_40
    else if same_text w (codes "Repeated50%Penalty")
    then repeated_50
    else repeated_none

abbrev pub low_swing_of : Text → ℕ
low_swing_of w = if same_text w (codes "Yes") then 1 else 0

abbrev pub routing_mode_of : Text → RoutingMode
routing_mode_of w = if same_text w (codes "H-tree") then h_tree else non_h_tree

abbrev pub area_optimization_level_of : Text → BufferDesignTarget
area_optimization_level_of w =
    if same_text w (codes "latency")
    then latency_first
    else if same_text w (codes "area")
    then area_first
    else latency_area_trade_off
