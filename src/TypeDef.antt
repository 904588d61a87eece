-- ===== src/TypeDef.antt =====
-- typedef.h and constant.h. An enum that the code only passes on or switches over is a data type;
-- one that it counts through and casts from `int` is the number that C++ gives it.
use destiny_3d_cache.Prelude.{ℕ, List, [], ◌∷◌}

pub data MemCellType : Type 0 where
  sram dram edram mram pcram memristor fbram slc_nand mlc_nand : MemCellType

pub data DeviceRoadmap : Type 0 where
  hp lstp lop edram_roadmap : DeviceRoadmap

pub data MemoryType : Type 0 where
  data_array tag cam : MemoryType

pub data RoutingMode : Type 0 where
  h_tree non_h_tree : RoutingMode

pub data DesignTarget : Type 0 where
  cache ram_chip cam_chip : DesignTarget

pub data CacheAccessMode : Type 0 where
  normal_access_mode sequential_access_mode fast_access_mode : CacheAccessMode

pub data WriteScheme : Type 0 where
  set_before_reset reset_before_set erase_before_set erase_before_reset : WriteScheme
  write_and_verify normal_write : WriteScheme

pub data CellAccessType : Type 0 where
  cmos_access bjt_access diode_access none_access : CellAccessType

pub data TsvType : Type 0 where
  fine coarse : TsvType

pub data OptimizationTarget : Type 0 where
  read_latency_optimized write_latency_optimized : OptimizationTarget
  read_energy_optimized write_energy_optimized : OptimizationTarget
  read_edp_optimized write_edp_optimized : OptimizationTarget
  leakage_optimized area_optimized : OptimizationTarget
  full_exploration : OptimizationTarget

-- the loop `for (int i = 0; i < (int)full_exploration; i++)` with `(OptimizationTarget)i`
abbrev pub optimization_targets : List OptimizationTarget
optimization_targets =
    read_latency_optimized ∷ write_latency_optimized ∷ read_energy_optimized
    ∷ write_energy_optimized ∷ read_edp_optimized ∷ write_edp_optimized ∷ leakage_optimized
    ∷ area_optimized ∷ []

abbrev pub WireType : Type 0
WireType = ℕ

abbrev pub local_aggressive : WireType
local_aggressive = 0

abbrev pub local_conservative : WireType
local_conservative = 1

abbrev pub semi_aggressive : WireType
semi_aggressive = 2

abbrev pub semi_conservative : WireType
semi_conservative = 3

abbrev pub global_aggressive : WireType
global_aggressive = 4

abbrev pub global_conservative : WireType
global_conservative = 5

abbrev pub dram_wordline : WireType
dram_wordline = 6

abbrev pub WireRepeaterType : Type 0
WireRepeaterType = ℕ

abbrev pub repeated_none : WireRepeaterType
repeated_none = 0

abbrev pub repeated_opt : WireRepeaterType
repeated_opt = 1

abbrev pub repeated_5 : WireRepeaterType
repeated_5 = 2

abbrev pub repeated_10 : WireRepeaterType
repeated_10 = 3

abbrev pub repeated_20 : WireRepeaterType
repeated_20 = 4

abbrev pub repeated_30 : WireRepeaterType
repeated_30 = 5

abbrev pub repeated_40 : WireRepeaterType
repeated_40 = 6

abbrev pub repeated_50 : WireRepeaterType
repeated_50 = 7

abbrev pub BufferDesignTarget : Type 0
BufferDesignTarget = ℕ

abbrev pub latency_first : BufferDesignTarget
latency_first = 0

abbrev pub latency_area_trade_off : BufferDesignTarget
latency_area_trade_off = 1

abbrev pub area_first : BufferDesignTarget
area_first = 2

abbrev pub total_address_bit : ℕ
total_address_bit = 48
