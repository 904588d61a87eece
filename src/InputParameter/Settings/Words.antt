-- ===== src/InputParameter/Settings/Words.antt =====
-- The words of a configuration, and that they are read as what they stand for.
use destiny_3d_cache.Prelude.{ℕ, zero, suc, ◌≤◌, Bool, true, false, ◌≡◌, refl, arith}
use destiny_3d_cache.Text.{Text, codes, same_text}
use destiny_3d_cache.Text.Words.{IsWord}
use destiny_3d_cache.TypeDef.{
  DesignTarget, cache, ram_chip, cam_chip, OptimizationTarget, read_latency_optimized,
  write_latency_optimized, read_energy_optimized, write_energy_optimized, read_edp_optimized,
  write_edp_optimized, leakage_optimized, area_optimized, full_exploration, DeviceRoadmap, hp, lstp,
  lop, edram_roadmap, WriteScheme, set_before_reset, reset_before_set, erase_before_set,
  erase_before_reset, write_and_verify, normal_write, CacheAccessMode, sequential_access_mode,
  fast_access_mode, normal_access_mode, WireType, WireRepeaterType, RoutingMode, h_tree, non_h_tree,
  BufferDesignTarget,
}
use destiny_3d_cache.InputParameter.Words.{
  design_target_of, optimization_target_of, device_roadmap_of, write_scheme_of,
  cache_access_mode_of, wire_type_of, repeater_type_of, low_swing_of, routing_mode_of,
  area_optimization_level_of,
}

abbrev pub design_target_word : DesignTarget → Text
design_target_word cache = codes "cache"
design_target_word ram_chip = codes "RAM"
design_target_word cam_chip = codes "CAM"

pub design_target_word-IsWord : (x : DesignTarget) → IsWord (design_target_word x)
design_target_word-IsWord cache = refl
design_target_word-IsWord ram_chip = refl
design_target_word-IsWord cam_chip = refl

pub design_target_of-design_target_word :
    (x : DesignTarget) → design_target_of (design_target_word x) ≡ x
design_target_of-design_target_word cache = refl
design_target_of-design_target_word ram_chip = refl
design_target_of-design_target_word cam_chip = refl

abbrev pub optimization_target_word : OptimizationTarget → Text
optimization_target_word read_latency_optimized = codes "ReadLatency"
optimization_target_word write_latency_optimized = codes "WriteLatency"
optimization_target_word read_energy_optimized = codes "ReadDynamicEnergy"
optimization_target_word write_energy_optimized = codes "WriteDynamicEnergy"
optimization_target_word read_edp_optimized = codes "ReadEDP"
optimization_target_word write_edp_optimized = codes "WriteEDP"
optimization_target_word leakage_optimized = codes "LeakagePower"
optimization_target_word area_optimized = codes "Area"
optimization_target_word full_exploration = codes "Full"

pub optimization_target_word-IsWord : (x : OptimizationTarget) → IsWord (optimization_target_word x)
optimization_target_word-IsWord read_latency_optimized = refl
optimization_target_word-IsWord write_latency_optimized = refl
optimization_target_word-IsWord read_energy_optimized = refl
optimization_target_word-IsWord write_energy_optimized = refl
optimization_target_word-IsWord read_edp_optimized = refl
optimization_target_word-IsWord write_edp_optimized = refl
optimization_target_word-IsWord leakage_optimized = refl
optimization_target_word-IsWord area_optimized = refl
optimization_target_word-IsWord full_exploration = refl

pub optimization_target_of-optimization_target_word :
    (x : OptimizationTarget) → optimization_target_of (optimization_target_word x) ≡ x
optimization_target_of-optimization_target_word read_latency_optimized = refl
optimization_target_of-optimization_target_word write_latency_optimized = refl
optimization_target_of-optimization_target_word read_energy_optimized = refl
optimization_target_of-optimization_target_word write_energy_optimized = refl
optimization_target_of-optimization_target_word read_edp_optimized = refl
optimization_target_of-optimization_target_word write_edp_optimized = refl
optimization_target_of-optimization_target_word leakage_optimized = refl
optimization_target_of-optimization_target_word area_optimized = refl
optimization_target_of-optimization_target_word full_exploration = refl

-- No word stands for the roadmap of eDRAM.
abbrev pub device_roadmap_word : DeviceRoadmap → Text
device_roadmap_word hp = codes "HP"
device_roadmap_word lstp = codes "LSTP"
device_roadmap_word lop = codes "LOP"
device_roadmap_word edram_roadmap = codes "EDRAM"

abbrev pub IsConfigured : DeviceRoadmap → Type 0
IsConfigured edram_roadmap = ⊥
IsConfigured _ = Unit

pub device_roadmap_word-IsWord : (x : DeviceRoadmap) → IsWord (device_roadmap_word x)
device_roadmap_word-IsWord hp = refl
device_roadmap_word-IsWord lstp = refl
device_roadmap_word-IsWord lop = refl
device_roadmap_word-IsWord edram_roadmap = refl

pub device_roadmap_of-device_roadmap_word :
    (x : DeviceRoadmap) → IsConfigured x → device_roadmap_of (device_roadmap_word x) ≡ x
device_roadmap_of-device_roadmap_word hp h = refl
device_roadmap_of-device_roadmap_word lstp h = refl
device_roadmap_of-device_roadmap_word lop h = refl
device_roadmap_of-device_roadmap_word edram_roadmap h = absurd h

abbrev pub write_scheme_word : WriteScheme → Text
write_scheme_word set_before_reset = codes "SetBeforeReset"
write_scheme_word reset_before_set = codes "ResetBeforeSet"
write_scheme_word erase_before_set = codes "EraseBeforeSet"
write_scheme_word erase_before_reset = codes "EraseBeforeReset"
write_scheme_word write_and_verify = codes "WriteAndVerify"
write_scheme_word normal_write = codes "Normal"

pub write_scheme_word-IsWord : (x : WriteScheme) → IsWord (write_scheme_word x)
write_scheme_word-IsWord set_before_reset = refl
write_scheme_word-IsWord reset_before_set = refl
write_scheme_word-IsWord erase_before_set = refl
write_scheme_word-IsWord erase_before_reset = refl
write_scheme_word-IsWord write_and_verify = refl
write_scheme_word-IsWord normal_write = refl

pub write_scheme_of-write_scheme_word :
    (x : WriteScheme) → write_scheme_of (write_scheme_word x) ≡ x
write_scheme_of-write_scheme_word set_before_reset = refl
write_scheme_of-write_scheme_word reset_before_set = refl
write_scheme_of-write_scheme_word erase_before_set = refl
write_scheme_of-write_scheme_word erase_before_reset = refl
write_scheme_of-write_scheme_word write_and_verify = refl
write_scheme_of-write_scheme_word normal_write = refl

abbrev pub cache_access_mode_word : CacheAccessMode → Text
cache_access_mode_word normal_access_mode = codes "Normal"
cache_access_mode_word sequential_access_mode = codes "Sequential"
cache_access_mode_word fast_access_mode = codes "Fast"

pub cache_access_mode_word-IsWord : (x : CacheAccessMode) → IsWord (cache_access_mode_word x)
cache_access_mode_word-IsWord normal_access_mode = refl
cache_access_mode_word-IsWord sequential_access_mode = refl
cache_access_mode_word-IsWord fast_access_mode = refl

pub cache_access_mode_of-cache_access_mode_word :
    (x : CacheAccessMode) → cache_access_mode_of (cache_access_mode_word x) ≡ x
cache_access_mode_of-cache_access_mode_word normal_access_mode = refl
cache_access_mode_of-cache_access_mode_word sequential_access_mode = refl
cache_access_mode_of-cache_access_mode_word fast_access_mode = refl

abbrev pub routing_mode_word : RoutingMode → Text
routing_mode_word h_tree = codes "H-tree"
routing_mode_word non_h_tree = codes "non-H-tree"

pub routing_mode_word-IsWord : (x : RoutingMode) → IsWord (routing_mode_word x)
routing_mode_word-IsWord h_tree = refl
routing_mode_word-IsWord non_h_tree = refl

pub routing_mode_of-routing_mode_word :
    (x : RoutingMode) → routing_mode_of (routing_mode_word x) ≡ x
routing_mode_of-routing_mode_word h_tree = refl
routing_mode_of-routing_mode_word non_h_tree = refl

abbrev pub true_word : Bool → Text
true_word true = codes "true"
true_word false = codes "false"

pub true_word-IsWord : (x : Bool) → IsWord (true_word x)
true_word-IsWord true = refl
true_word-IsWord false = refl

pub same_text-true_word : (x : Bool) → same_text (true_word x) (codes "true") ≡ x
same_text-true_word true = refl
same_text-true_word false = refl

abbrev pub yes_word : Bool → Text
yes_word true = codes "Yes"
yes_word false = codes "No"

pub yes_word-IsWord : (x : Bool) → IsWord (yes_word x)
yes_word-IsWord true = refl
yes_word-IsWord false = refl

pub same_text-yes_word : (x : Bool) → same_text (yes_word x) (codes "Yes") ≡ x
same_text-yes_word true = refl
same_text-yes_word false = refl

abbrev pub swing_of : Bool → ℕ
swing_of true = 1
swing_of false = 0

pub low_swing_of-yes_word : (x : Bool) → low_swing_of (yes_word x) ≡ swing_of x
low_swing_of-yes_word true = refl
low_swing_of-yes_word false = refl

abbrev pub wire_type_word : WireType → Text
wire_type_word zero = codes "LocalAggressive"
wire_type_word (suc zero) = codes "LocalConservative"
wire_type_word (suc (suc zero)) = codes "SemiAggressive"
wire_type_word (suc (suc (suc zero))) = codes "SemiConservative"
wire_type_word (suc (suc (suc (suc zero)))) = codes "GlobalAggressive"
wire_type_word (suc (suc (suc (suc (suc zero))))) = codes "GlobalConservative"
wire_type_word _ = codes "DRAMWordline"

pub wire_type_word-IsWord : (x : WireType) → IsWord (wire_type_word x)
wire_type_word-IsWord zero = refl
wire_type_word-IsWord (suc zero) = refl
wire_type_word-IsWord (suc (suc zero)) = refl
wire_type_word-IsWord (suc (suc (suc zero))) = refl
wire_type_word-IsWord (suc (suc (suc (suc zero)))) = refl
wire_type_word-IsWord (suc (suc (suc (suc (suc zero))))) = refl
wire_type_word-IsWord (suc (suc (suc (suc (suc (suc k)))))) = refl

pub wire_type_of-wire_type_word : (x : WireType) → x ≤ 6 → wire_type_of (wire_type_word x) ≡ x
wire_type_of-wire_type_word zero h = refl
wire_type_of-wire_type_word (suc zero) h = refl
wire_type_of-wire_type_word (suc (suc zero)) h = refl
wire_type_of-wire_type_word (suc (suc (suc zero))) h = refl
wire_type_of-wire_type_word (suc (suc (suc (suc zero)))) h = refl
wire_type_of-wire_type_word (suc (suc (suc (suc (suc zero))))) h = refl
wire_type_of-wire_type_word (suc (suc (suc (suc (suc (suc zero)))))) h = refl
wire_type_of-wire_type_word (suc (suc (suc (suc (suc (suc (suc k))))))) h = absurd (omega arith)

abbrev pub repeater_type_word : WireRepeaterType → Text
repeater_type_word zero = codes "RepeatedNone"
repeater_type_word (suc zero) = codes "RepeatedOpt"
repeater_type_word (suc (suc zero)) = codes "Repeated5%Penalty"
repeater_type_word (suc (suc (suc zero))) = codes "Repeated10%Penalty"
repeater_type_word (suc (suc (suc (suc zero)))) = codes "Repeated20%Penalty"
repeater_type_word (suc (suc (suc (suc (suc zero))))) = codes "Repeated30%Penalty"
repeater_type_word (suc (suc (suc (suc (suc (suc zero)))))) = codes "Repeated40%Penalty"
repeater_type_word _ = codes "Repeated50%Penalty"

pub repeater_type_word-IsWord : (x : WireRepeaterType) → IsWord (repeater_type_word x)
repeater_type_word-IsWord zero = refl
repeater_type_word-IsWord (suc zero) = refl
repeater_type_word-IsWord (suc (suc zero)) = refl
repeater_type_word-IsWord (suc (suc (suc zero))) = refl
repeater_type_word-IsWord (suc (suc (suc (suc zero)))) = refl
repeater_type_word-IsWord (suc (suc (suc (suc (suc zero))))) = refl
repeater_type_word-IsWord (suc (suc (suc (suc (suc (suc zero)))))) = refl
repeater_type_word-IsWord (suc (suc (suc (suc (suc (suc (suc k))))))) = refl

pub repeater_type_of-repeater_type_word :
    (x : WireRepeaterType) → x ≤ 7 → repeater_type_of (repeater_type_word x) ≡ x
repeater_type_of-repeater_type_word zero h = refl
repeater_type_of-repeater_type_word (suc zero) h = refl
repeater_type_of-repeater_type_word (suc (suc zero)) h = refl
repeater_type_of-repeater_type_word (suc (suc (suc zero))) h = refl
repeater_type_of-repeater_type_word (suc (suc (suc (suc zero)))) h = refl
repeater_type_of-repeater_type_word (suc (suc (suc (suc (suc zero))))) h = refl
repeater_type_of-repeater_type_word (suc (suc (suc (suc (suc (suc zero)))))) h = refl
repeater_type_of-repeater_type_word (suc (suc (suc (suc (suc (suc (suc zero))))))) h = refl
repeater_type_of-repeater_type_word (suc (suc (suc (suc (suc (suc (suc (suc k)))))))) h =
    absurd (omega arith)

abbrev pub area_optimization_word : BufferDesignTarget → Text
area_optimization_word zero = codes "latency"
area_optimization_word (suc zero) = codes "balanced"
area_optimization_word _ = codes "area"

pub area_optimization_word-IsWord : (x : BufferDesignTarget) → IsWord (area_optimization_word x)
area_optimization_word-IsWord zero = refl
area_optimization_word-IsWord (suc zero) = refl
area_optimization_word-IsWord (suc (suc k)) = refl

pub area_optimization_level_of-area_optimization_word :
    (x : BufferDesignTarget) → x ≤ 2 → area_optimization_level_of (area_optimization_word x) ≡ x
area_optimization_level_of-area_optimization_word zero h = refl
area_optimization_level_of-area_optimization_word (suc zero) h = refl
area_optimization_level_of-area_optimization_word (suc (suc zero)) h = refl
area_optimization_level_of-area_optimization_word (suc (suc (suc k))) h = absurd (omega arith)
