-- ===== src/Nvsim/Setup/Bounds.antt =====
-- The bounds of the search that a configuration leaves start at powers of two if the numbers that it
-- forces are powers of two.
pub mod Spaces
pub mod Banks
use destiny_3d_cache.Prelude.{ℕ, ◌≡◌, refl, true, false, List, [], ◌∷◌, All, IsPowerOfTwo}
use destiny_3d_cache.TypeDef.{cache, ram_chip, cam_chip}
use destiny_3d_cache.InputParameter.{InputParameter, ArraySpace, Range, fixed}
use destiny_3d_cache.InputParameter.Settings.{
  Setting, ArrayKind, of_data, of_tag, apply_setting, in_space, design_target, optimization_target,
  output_file_prefix, device_roadmap, write_scheme, cache_access_mode, routing, internal_sensing,
  memory_cell_input_file, cacti_assumption, pruning, print_all_optimals, allow_different_tag_tech,
  local_wire_type, global_wire_type, local_wire_repeater_type, global_wire_repeater_type,
  local_wire_low_swing, global_wire_low_swing, buffer_design_optimization, process_node,
  associativity, temperature, partition_granularity, local_tsv_projection, global_tsv_projection,
  stacked_die_count, monolithic_stack_count, print_level, word_width, capacity_b, capacity_kb,
  capacity_mb, flash_page_size, flash_block_size, force_mux_sense_amp, force_mux_output_lev1,
  force_mux_output_lev2, force_bank_3da, force_bank_3d, force_bank_a, force_mat_a, force_bank,
  force_mat,
}
use destiny_3d_cache.InputParameter.Settings.Words.{swing_of}
use destiny_3d_cache.InputParameter.Settings.Files.{apply_settings}
use destiny_3d_cache.Nvsim.Setup.Bounds.Spaces.{
  SpaceBounds, one_row, stacked, KeepsBounds, local_wire_type-KeepsBounds,
  global_wire_type-KeepsBounds, local_wire_repeater_type-KeepsBounds,
  global_wire_repeater_type-KeepsBounds, is_local_wire_low_swing-KeepsBounds,
  is_global_wire_low_swing-KeepsBounds, area_optimization_level-KeepsBounds,
}
use destiny_3d_cache.Nvsim.Setup.Bounds.Banks.{
  mux_sense_amp-KeepsBounds, mux_output_lev1-KeepsBounds, mux_output_lev2-KeepsBounds,
  bank_of-KeepsBounds, active_bank_of-KeepsBounds, mat_of-KeepsBounds, active_mat_of-KeepsBounds,
  cacti_space-KeepsBounds,
}

abbrev pub HasPowerBounds : {D : Type 0} → InputParameter D → Type 0
HasPowerBounds p =
    SpaceBounds p.data_space p.num_row_per_set p.stack_layer
    × SpaceBounds p.tag_space p.num_row_per_set p.stack_layer

-- The numbers of a setting that become bounds are powers of two.
abbrev pub ForcesPowers : Setting → Type 0
ForcesPowers (stacked_die_count n) = IsPowerOfTwo n
ForcesPowers (force_mux_sense_amp a n) = IsPowerOfTwo n
ForcesPowers (force_mux_output_lev1 a n) = IsPowerOfTwo n
ForcesPowers (force_mux_output_lev2 a n) = IsPowerOfTwo n
ForcesPowers (force_bank_3da r c l) = IsPowerOfTwo r × IsPowerOfTwo c × IsPowerOfTwo l
ForcesPowers (force_bank_3d r c l y x) =
    IsPowerOfTwo r × IsPowerOfTwo c × IsPowerOfTwo l × IsPowerOfTwo y × IsPowerOfTwo x
ForcesPowers (force_bank_a r c) = IsPowerOfTwo r × IsPowerOfTwo c
ForcesPowers (force_mat_a r c) = IsPowerOfTwo r × IsPowerOfTwo c
ForcesPowers (force_bank a r c y x) =
    IsPowerOfTwo r × IsPowerOfTwo c × IsPowerOfTwo y × IsPowerOfTwo x
ForcesPowers (force_mat a r c y x) =
    IsPowerOfTwo r × IsPowerOfTwo c × IsPowerOfTwo y × IsPowerOfTwo x
ForcesPowers _ = Unit

in_space-HasPowerBounds :
    {D : Type 0} (a : ArrayKind) (f : ArraySpace → ArraySpace) (p : InputParameter D)
    → KeepsBounds f
    → HasPowerBounds p
    → HasPowerBounds (in_space a f p)
in_space-HasPowerBounds of_data f p k (d, t) = (k _ _ _ d, t)
in_space-HasPowerBounds of_tag f p k (d, t) = (d, k _ _ _ t)

apply_setting-HasPowerBounds :
    {D : Type 0} (s : Setting) (p : InputParameter D)
    → ForcesPowers s
    → HasPowerBounds p
    → HasPowerBounds (apply_setting s p)
apply_setting-HasPowerBounds (design_target cache) p h q = q
apply_setting-HasPowerBounds (design_target ram_chip) p h (d, t) = (one_row d, one_row t)
apply_setting-HasPowerBounds (design_target cam_chip) p h (d, t) = (one_row d, one_row t)
apply_setting-HasPowerBounds (optimization_target x) p h q = q
apply_setting-HasPowerBounds (output_file_prefix x) p h q = q
apply_setting-HasPowerBounds (device_roadmap x) p h q = q
apply_setting-HasPowerBounds (write_scheme x) p h q = q
apply_setting-HasPowerBounds (cache_access_mode x) p h q = q
apply_setting-HasPowerBounds (routing x) p h q = q
apply_setting-HasPowerBounds (internal_sensing x) p h q = q
apply_setting-HasPowerBounds (memory_cell_input_file x) p h q = q
apply_setting-HasPowerBounds (pruning x) p h q = q
apply_setting-HasPowerBounds (print_all_optimals x) p h q = q
apply_setting-HasPowerBounds (allow_different_tag_tech x) p h q = q
apply_setting-HasPowerBounds (cacti_assumption false) p h q = q
apply_setting-HasPowerBounds (process_node n) p h q = q
apply_setting-HasPowerBounds (associativity n) p h q = q
apply_setting-HasPowerBounds (temperature n) p h q = q
apply_setting-HasPowerBounds (partition_granularity n) p h q = q
apply_setting-HasPowerBounds (local_tsv_projection n) p h q = q
apply_setting-HasPowerBounds (global_tsv_projection n) p h q = q
apply_setting-HasPowerBounds (monolithic_stack_count n) p h q = q
apply_setting-HasPowerBounds (print_level n) p h q = q
apply_setting-HasPowerBounds (word_width n) p h q = q
apply_setting-HasPowerBounds (capacity_b n) p h q = q
apply_setting-HasPowerBounds (capacity_kb n) p h q = q
apply_setting-HasPowerBounds (capacity_mb n) p h q = q
apply_setting-HasPowerBounds (flash_page_size n) p h q = q
apply_setting-HasPowerBounds (flash_block_size n) p h q = q
apply_setting-HasPowerBounds (cacti_assumption true) p h (d, t) =
    (cacti_space-KeepsBounds _ _ _ d, t)
apply_setting-HasPowerBounds (local_wire_type a x) p h q =
    in_space-HasPowerBounds a _ p (local_wire_type-KeepsBounds x) q
apply_setting-HasPowerBounds (global_wire_type a x) p h q =
    in_space-HasPowerBounds a _ p (global_wire_type-KeepsBounds x) q
apply_setting-HasPowerBounds (local_wire_repeater_type a x) p h q =
    in_space-HasPowerBounds a _ p (local_wire_repeater_type-KeepsBounds x) q
apply_setting-HasPowerBounds (global_wire_repeater_type a x) p h q =
    in_space-HasPowerBounds a _ p (global_wire_repeater_type-KeepsBounds x) q
apply_setting-HasPowerBounds (local_wire_low_swing a x) p h q =
    in_space-HasPowerBounds a _ p (is_local_wire_low_swing-KeepsBounds (swing_of x)) q
apply_setting-HasPowerBounds (global_wire_low_swing a x) p h q =
    in_space-HasPowerBounds a _ p (is_global_wire_low_swing-KeepsBounds (swing_of x)) q
apply_setting-HasPowerBounds (buffer_design_optimization a x) p h q =
    in_space-HasPowerBounds a _ p (area_optimization_level-KeepsBounds x) q
apply_setting-HasPowerBounds (force_mux_sense_amp a n) p h q =
    in_space-HasPowerBounds a _ p (mux_sense_amp-KeepsBounds n h) q
apply_setting-HasPowerBounds (force_mux_output_lev1 a n) p h q =
    in_space-HasPowerBounds a _ p (mux_output_lev1-KeepsBounds n h) q
apply_setting-HasPowerBounds (force_mux_output_lev2 a n) p h q =
    in_space-HasPowerBounds a _ p (mux_output_lev2-KeepsBounds n h) q
apply_setting-HasPowerBounds (stacked_die_count n) p h (d, t) = (stacked h d, stacked h t)
apply_setting-HasPowerBounds (force_bank_3da r c l) p (hr, hc, hl) (d, t) =
    (bank_of-KeepsBounds r c hr hc _ _ _ (stacked hl d), stacked hl t)
apply_setting-HasPowerBounds (force_bank_3d r c l y x) p (hr, hc, hl, hy, hx) (d, t) =
    (active_bank_of-KeepsBounds r c y x hr hc hy hx _ _ _ (stacked hl d), stacked hl t)
apply_setting-HasPowerBounds (force_bank_a r c) p (hr, hc) (d, t) =
    (bank_of-KeepsBounds r c hr hc _ _ _ d, t)
apply_setting-HasPowerBounds (force_mat_a r c) p (hr, hc) (d, t) =
    (mat_of-KeepsBounds r c hr hc _ _ _ d, t)
apply_setting-HasPowerBounds (force_bank a r c y x) p (hr, hc, hy, hx) q =
    in_space-HasPowerBounds a _ p (active_bank_of-KeepsBounds r c y x hr hc hy hx) q
apply_setting-HasPowerBounds (force_mat a r c y x) p (hr, hc, hy, hx) q =
    in_space-HasPowerBounds a _ p (active_mat_of-KeepsBounds r c y x hr hc hy hx) q

pub apply_settings-HasPowerBounds :
    {D : Type 0} (ss : List Setting) (p : InputParameter D)
    → All ForcesPowers ss
    → HasPowerBounds p
    → HasPowerBounds (apply_settings ss p)
apply_settings-HasPowerBounds [] p h q = q
apply_settings-HasPowerBounds (s ∷ ss) p (here, later) q =
    apply_settings-HasPowerBounds ss (apply_setting s p) later
      (apply_setting-HasPowerBounds s p here q)
