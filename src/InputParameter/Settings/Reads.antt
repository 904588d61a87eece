-- ===== src/InputParameter/Settings/Reads.antt =====
-- The lines with words are read as what they set.
use destiny_3d_cache.Prelude.{◌≤◌, ◌≡◌, refl, Bool, Option, some}
use destiny_3d_cache.Prelude.Run.{returns}
use destiny_3d_cache.Text.{Text}
use destiny_3d_cache.Text.Scan.{scan_word}
use destiny_3d_cache.Text.Rules.{Reading, run_rules}
use destiny_3d_cache.Text.Words.{IsWord, scanned-IsWord}
use destiny_3d_cache.InputParameter.{InputParameter}
use destiny_3d_cache.InputParameter.Read.{parameter_rules}
use destiny_3d_cache.InputParameter.Settings.{
  Setting, ArrayKind, of_data, of_tag, print_setting, apply_setting, design_target,
  optimization_target, output_file_prefix, device_roadmap, write_scheme, cache_access_mode, routing,
  internal_sensing, memory_cell_input_file, cacti_assumption, pruning, print_all_optimals,
  allow_different_tag_tech, local_wire_type, global_wire_type, local_wire_repeater_type,
  global_wire_repeater_type, local_wire_low_swing, global_wire_low_swing,
  buffer_design_optimization,
}
use destiny_3d_cache.InputParameter.Settings.Words.{
  IsConfigured, area_optimization_level_of-area_optimization_word, area_optimization_word,
  area_optimization_word-IsWord, cache_access_mode_of-cache_access_mode_word,
  cache_access_mode_word, cache_access_mode_word-IsWord, design_target_of-design_target_word,
  design_target_word, design_target_word-IsWord, device_roadmap_of-device_roadmap_word,
  device_roadmap_word, device_roadmap_word-IsWord, low_swing_of-yes_word,
  optimization_target_of-optimization_target_word, optimization_target_word,
  optimization_target_word-IsWord, repeater_type_of-repeater_type_word, repeater_type_word,
  repeater_type_word-IsWord, routing_mode_of-routing_mode_word, routing_mode_word,
  routing_mode_word-IsWord, same_text-true_word, same_text-yes_word, true_word, true_word-IsWord,
  wire_type_of-wire_type_word, wire_type_word, wire_type_word-IsWord,
  write_scheme_of-write_scheme_word, write_scheme_word, write_scheme_word-IsWord, yes_word,
  yes_word-IsWord,
}
use destiny_3d_cache.TypeDef.{
  DesignTarget, OptimizationTarget, DeviceRoadmap, WriteScheme, CacheAccessMode, RoutingMode,
  WireType, WireRepeaterType, BufferDesignTarget,
}

module _ {D : Type 0} (strtod : Text → Option D) (r : Reading (InputParameter D)) where
  -- The line of a setting is read as that setting; at most the buffer changes too.
  abbrev pub ReadsAs : Setting → Type 0
  ReadsAs s =
      (tmp : Option Text) × (run_rules (parameter_rules strtod) (print_setting s) r
        ≡ returns (record { object = apply_setting s r.object; tmp = tmp }))

  pub design_target-ReadsAs : (x : DesignTarget) → ReadsAs (design_target x)
  unfolding run_rules scan_word
  design_target-ReadsAs x = (
    some (design_target_word x),
    rw
        (
          scanned-IsWord (design_target_word x) (design_target_word-IsWord x),
          design_target_of-design_target_word x,
        )
        refl,
  )

  pub optimization_target-ReadsAs : (x : OptimizationTarget) → ReadsAs (optimization_target x)
  unfolding run_rules scan_word
  optimization_target-ReadsAs x = (
    some (optimization_target_word x),
    rw
        (
          scanned-IsWord (optimization_target_word x) (optimization_target_word-IsWord x),
          optimization_target_of-optimization_target_word x,
        )
        refl,
  )

  pub output_file_prefix-ReadsAs : (x : Text) → IsWord x → ReadsAs (output_file_prefix x)
  unfolding run_rules scan_word
  output_file_prefix-ReadsAs x h = (some (x), rw (scanned-IsWord (x) (h)) refl)

  pub device_roadmap-ReadsAs : (x : DeviceRoadmap) → IsConfigured x → ReadsAs (device_roadmap x)
  unfolding run_rules scan_word
  device_roadmap-ReadsAs x h = (
    some (device_roadmap_word x),
    rw
        (
          scanned-IsWord (device_roadmap_word x) (device_roadmap_word-IsWord x),
          device_roadmap_of-device_roadmap_word x h,
        )
        refl,
  )

  pub write_scheme-ReadsAs : (x : WriteScheme) → ReadsAs (write_scheme x)
  unfolding run_rules scan_word
  write_scheme-ReadsAs x = (
    some (write_scheme_word x),
    rw
        (
          scanned-IsWord (write_scheme_word x) (write_scheme_word-IsWord x),
          write_scheme_of-write_scheme_word x,
        )
        refl,
  )

  pub cache_access_mode-ReadsAs : (x : CacheAccessMode) → ReadsAs (cache_access_mode x)
  unfolding run_rules scan_word
  cache_access_mode-ReadsAs x = (
    some (cache_access_mode_word x),
    rw
        (
          scanned-IsWord (cache_access_mode_word x) (cache_access_mode_word-IsWord x),
          cache_access_mode_of-cache_access_mode_word x,
        )
        refl,
  )

  pub routing-ReadsAs : (x : RoutingMode) → ReadsAs (routing x)
  unfolding run_rules scan_word
  routing-ReadsAs x = (
    some (routing_mode_word x),
    rw
        (
          scanned-IsWord (routing_mode_word x) (routing_mode_word-IsWord x),
          routing_mode_of-routing_mode_word x,
        )
        refl,
  )

  pub internal_sensing-ReadsAs : (x : Bool) → ReadsAs (internal_sensing x)
  unfolding run_rules scan_word
  internal_sensing-ReadsAs x = (
    some (true_word x),
    rw (scanned-IsWord (true_word x) (true_word-IsWord x), same_text-true_word x) refl,
  )

  pub memory_cell_input_file-ReadsAs : (x : Text) → IsWord x → ReadsAs (memory_cell_input_file x)
  unfolding run_rules scan_word
  memory_cell_input_file-ReadsAs x h = (some (x), rw (scanned-IsWord (x) (h)) refl)

  pub cacti_assumption-ReadsAs : (x : Bool) → ReadsAs (cacti_assumption x)
  unfolding run_rules scan_word
  cacti_assumption-ReadsAs x = (
    some (yes_word x),
    rw (scanned-IsWord (yes_word x) (yes_word-IsWord x), same_text-yes_word x) refl,
  )

  pub pruning-ReadsAs : (x : Bool) → ReadsAs (pruning x)
  unfolding run_rules scan_word
  pruning-ReadsAs x = (
    some (yes_word x),
    rw (scanned-IsWord (yes_word x) (yes_word-IsWord x), same_text-yes_word x) refl,
  )

  pub print_all_optimals-ReadsAs : (x : Bool) → ReadsAs (print_all_optimals x)
  unfolding run_rules scan_word
  print_all_optimals-ReadsAs x = (
    some (true_word x),
    rw (scanned-IsWord (true_word x) (true_word-IsWord x), same_text-true_word x) refl,
  )

  pub allow_different_tag_tech-ReadsAs : (x : Bool) → ReadsAs (allow_different_tag_tech x)
  unfolding run_rules scan_word
  allow_different_tag_tech-ReadsAs x = (
    some (true_word x),
    rw (scanned-IsWord (true_word x) (true_word-IsWord x), same_text-true_word x) refl,
  )

  pub local_wire_type-ReadsAs :
      (a : ArrayKind) (x : WireType) → x ≤ 6 → ReadsAs (local_wire_type a x)
  unfolding run_rules scan_word
  local_wire_type-ReadsAs of_data x h = (
    some (wire_type_word x),
    rw
        (
          scanned-IsWord (wire_type_word x) (wire_type_word-IsWord x),
          wire_type_of-wire_type_word x h,
        )
        refl,
  )
  local_wire_type-ReadsAs of_tag x h = (
    some (wire_type_word x),
    rw
        (
          scanned-IsWord (wire_type_word x) (wire_type_word-IsWord x),
          wire_type_of-wire_type_word x h,
        )
        refl,
  )

  pub global_wire_type-ReadsAs :
      (a : ArrayKind) (x : WireType) → x ≤ 6 → ReadsAs (global_wire_type a x)
  unfolding run_rules scan_word
  global_wire_type-ReadsAs of_data x h = (
    some (wire_type_word x),
    rw
        (
          scanned-IsWord (wire_type_word x) (wire_type_word-IsWord x),
          wire_type_of-wire_type_word x h,
        )
        refl,
  )
  global_wire_type-ReadsAs of_tag x h = (
    some (wire_type_word x),
    rw
        (
          scanned-IsWord (wire_type_word x) (wire_type_word-IsWord x),
          wire_type_of-wire_type_word x h,
        )
        refl,
  )

  pub local_wire_repeater_type-ReadsAs :
      (a : ArrayKind) (x : WireRepeaterType) → x ≤ 7 → ReadsAs (local_wire_repeater_type a x)
  unfolding run_rules scan_word
  local_wire_repeater_type-ReadsAs of_data x h = (
    some (repeater_type_word x),
    rw
        (
          scanned-IsWord (repeater_type_word x) (repeater_type_word-IsWord x),
          repeater_type_of-repeater_type_word x h,
        )
        refl,
  )
  local_wire_repeater_type-ReadsAs of_tag x h = (
    some (repeater_type_word x),
    rw
        (
          scanned-IsWord (repeater_type_word x) (repeater_type_word-IsWord x),
          repeater_type_of-repeater_type_word x h,
        )
        refl,
  )

  pub global_wire_repeater_type-ReadsAs :
      (a : ArrayKind) (x : WireRepeaterType) → x ≤ 7 → ReadsAs (global_wire_repeater_type a x)
  unfolding run_rules scan_word
  global_wire_repeater_type-ReadsAs of_data x h = (
    some (repeater_type_word x),
    rw
        (
          scanned-IsWord (repeater_type_word x) (repeater_type_word-IsWord x),
          repeater_type_of-repeater_type_word x h,
        )
        refl,
  )
  global_wire_repeater_type-ReadsAs of_tag x h = (
    some (repeater_type_word x),
    rw
        (
          scanned-IsWord (repeater_type_word x) (repeater_type_word-IsWord x),
          repeater_type_of-repeater_type_word x h,
        )
        refl,
  )

  pub local_wire_low_swing-ReadsAs : (a : ArrayKind) (x : Bool) → ReadsAs (local_wire_low_swing a x)
  unfolding run_rules scan_word
  local_wire_low_swing-ReadsAs of_data x = (
    some (yes_word x),
    rw (scanned-IsWord (yes_word x) (yes_word-IsWord x), low_swing_of-yes_word x) refl,
  )
  local_wire_low_swing-ReadsAs of_tag x = (
    some (yes_word x),
    rw (scanned-IsWord (yes_word x) (yes_word-IsWord x), low_swing_of-yes_word x) refl,
  )

  pub global_wire_low_swing-ReadsAs :
      (a : ArrayKind) (x : Bool) → ReadsAs (global_wire_low_swing a x)
  unfolding run_rules scan_word
  global_wire_low_swing-ReadsAs of_data x = (
    some (yes_word x),
    rw (scanned-IsWord (yes_word x) (yes_word-IsWord x), low_swing_of-yes_word x) refl,
  )
  global_wire_low_swing-ReadsAs of_tag x = (
    some (yes_word x),
    rw (scanned-IsWord (yes_word x) (yes_word-IsWord x), low_swing_of-yes_word x) refl,
  )

  pub buffer_design_optimization-ReadsAs :
      (a : ArrayKind) (x : BufferDesignTarget) → x ≤ 2 → ReadsAs (buffer_design_optimization a x)
  unfolding run_rules scan_word
  buffer_design_optimization-ReadsAs of_data x h = (
    some (area_optimization_word x),
    rw
        (
          scanned-IsWord (area_optimization_word x) (area_optimization_word-IsWord x),
          area_optimization_level_of-area_optimization_word x h,
        )
        refl,
  )
  buffer_design_optimization-ReadsAs of_tag x h = (
    some (area_optimization_word x),
    rw
        (
          scanned-IsWord (area_optimization_word x) (area_optimization_word-IsWord x),
          area_optimization_level_of-area_optimization_word x h,
        )
        refl,
  )
