-- ===== src/InputParameter/Settings/Files.antt =====
-- A configuration that is printed is read as what it sets.
use destiny_3d_cache.Prelude.{
  ◌≡◌, refl, ap, ◌∙◌, false, List, [], ◌∷◌, map, Option, none, some, All,
}
use destiny_3d_cache.Prelude.Run.{returns, ◌>>=◌, run_all}
use destiny_3d_cache.Text.{Text}
use destiny_3d_cache.Text.Rules.{Reading, run_rules}
use destiny_3d_cache.Text.Lines.Print.{IsLine, print_lines, file_lines-print_lines}
use destiny_3d_cache.InputParameter.{InputParameter}
use destiny_3d_cache.InputParameter.Read.{parameter_rules, read_parameter}
use destiny_3d_cache.InputParameter.Settings.{
  Setting, print_setting, apply_setting, IsWritable, design_target, optimization_target,
  output_file_prefix, device_roadmap, write_scheme, cache_access_mode, routing, internal_sensing,
  memory_cell_input_file, cacti_assumption, pruning, print_all_optimals, allow_different_tag_tech,
  local_wire_type, global_wire_type, local_wire_repeater_type, global_wire_repeater_type,
  local_wire_low_swing, global_wire_low_swing, buffer_design_optimization, process_node,
  associativity, temperature, partition_granularity, local_tsv_projection, global_tsv_projection,
  stacked_die_count, monolithic_stack_count, print_level, word_width, capacity_b, capacity_kb,
  capacity_mb, flash_page_size, flash_block_size, force_mux_sense_amp, force_mux_output_lev1,
  force_mux_output_lev2, force_bank_3da, force_bank_3d, force_bank_a, force_mat_a, force_bank,
  force_mat,
}
use destiny_3d_cache.InputParameter.Settings.Printed.{print_setting-IsLine}
use destiny_3d_cache.InputParameter.Settings.Reads.{
  ReadsAs, design_target-ReadsAs, optimization_target-ReadsAs, output_file_prefix-ReadsAs,
  device_roadmap-ReadsAs, write_scheme-ReadsAs, cache_access_mode-ReadsAs, routing-ReadsAs,
  internal_sensing-ReadsAs, memory_cell_input_file-ReadsAs, cacti_assumption-ReadsAs,
  pruning-ReadsAs, print_all_optimals-ReadsAs, allow_different_tag_tech-ReadsAs,
  local_wire_type-ReadsAs, global_wire_type-ReadsAs, local_wire_repeater_type-ReadsAs,
  global_wire_repeater_type-ReadsAs, local_wire_low_swing-ReadsAs, global_wire_low_swing-ReadsAs,
  buffer_design_optimization-ReadsAs,
}
use destiny_3d_cache.InputParameter.Settings.Numbers.{
  process_node-ReadsAs, associativity-ReadsAs, temperature-ReadsAs, partition_granularity-ReadsAs,
  local_tsv_projection-ReadsAs, global_tsv_projection-ReadsAs, stacked_die_count-ReadsAs,
  monolithic_stack_count-ReadsAs, print_level-ReadsAs, word_width-ReadsAs, capacity_b-ReadsAs,
  capacity_kb-ReadsAs, capacity_mb-ReadsAs, flash_page_size-ReadsAs, flash_block_size-ReadsAs,
  force_mux_sense_amp-ReadsAs, force_mux_output_lev1-ReadsAs, force_mux_output_lev2-ReadsAs,
}
use destiny_3d_cache.InputParameter.Settings.Banks.{
  force_bank_3da-ReadsAs, force_bank_3d-ReadsAs, force_bank_a-ReadsAs, force_mat_a-ReadsAs,
  force_bank-ReadsAs, force_mat-ReadsAs,
}

-- The file with one line for each setting.
abbrev pub print_settings : List Setting → Text
print_settings ss = print_lines (map print_setting ss)

-- The settings one after the other.
abbrev pub apply_settings : {D : Type 0} → List Setting → InputParameter D → InputParameter D
apply_settings [] p = p
apply_settings (s ∷ ss) p = apply_settings ss (apply_setting s p)

printed-IsLine : (ss : List Setting) → All IsWritable ss → All IsLine (map print_setting ss)
printed-IsLine [] h = tt
printed-IsLine (s ∷ ss) (here, later) = (print_setting-IsLine s here, printed-IsLine ss later)

module _ {D : Type 0} (strtod : Text → Option D) where
  setting-ReadsAs :
      (s : Setting) (r : Reading (InputParameter D)) → IsWritable s → ReadsAs strtod r s
  setting-ReadsAs (design_target x) r h = design_target-ReadsAs strtod r x
  setting-ReadsAs (optimization_target x) r h = optimization_target-ReadsAs strtod r x
  setting-ReadsAs (output_file_prefix x) r h = output_file_prefix-ReadsAs strtod r x h
  setting-ReadsAs (device_roadmap x) r h = device_roadmap-ReadsAs strtod r x h
  setting-ReadsAs (write_scheme x) r h = write_scheme-ReadsAs strtod r x
  setting-ReadsAs (cache_access_mode x) r h = cache_access_mode-ReadsAs strtod r x
  setting-ReadsAs (routing x) r h = routing-ReadsAs strtod r x
  setting-ReadsAs (internal_sensing x) r h = internal_sensing-ReadsAs strtod r x
  setting-ReadsAs (memory_cell_input_file x) r h = memory_cell_input_file-ReadsAs strtod r x h
  setting-ReadsAs (cacti_assumption x) r h = cacti_assumption-ReadsAs strtod r x
  setting-ReadsAs (pruning x) r h = pruning-ReadsAs strtod r x
  setting-ReadsAs (print_all_optimals x) r h = print_all_optimals-ReadsAs strtod r x
  setting-ReadsAs (allow_different_tag_tech x) r h = allow_different_tag_tech-ReadsAs strtod r x
  setting-ReadsAs (local_wire_type a x) r h = local_wire_type-ReadsAs strtod r a x h
  setting-ReadsAs (global_wire_type a x) r h = global_wire_type-ReadsAs strtod r a x h
  setting-ReadsAs (local_wire_repeater_type a x) r h =
      local_wire_repeater_type-ReadsAs strtod r a x h
  setting-ReadsAs (global_wire_repeater_type a x) r h =
      global_wire_repeater_type-ReadsAs strtod r a x h
  setting-ReadsAs (local_wire_low_swing a x) r h = local_wire_low_swing-ReadsAs strtod r a x
  setting-ReadsAs (global_wire_low_swing a x) r h = global_wire_low_swing-ReadsAs strtod r a x
  setting-ReadsAs (buffer_design_optimization a x) r h =
      buffer_design_optimization-ReadsAs strtod r a x h
  setting-ReadsAs (process_node n) r h = process_node-ReadsAs strtod r n h
  setting-ReadsAs (associativity n) r h = associativity-ReadsAs strtod r n h
  setting-ReadsAs (temperature n) r h = temperature-ReadsAs strtod r n h
  setting-ReadsAs (partition_granularity n) r h = partition_granularity-ReadsAs strtod r n h
  setting-ReadsAs (local_tsv_projection n) r h = local_tsv_projection-ReadsAs strtod r n h
  setting-ReadsAs (global_tsv_projection n) r h = global_tsv_projection-ReadsAs strtod r n h
  setting-ReadsAs (stacked_die_count n) r h = stacked_die_count-ReadsAs strtod r n h
  setting-ReadsAs (monolithic_stack_count n) r h = monolithic_stack_count-ReadsAs strtod r n h
  setting-ReadsAs (print_level n) r h = print_level-ReadsAs strtod r n h
  setting-ReadsAs (word_width n) r h = word_width-ReadsAs strtod r n h
  setting-ReadsAs (capacity_b n) r h = capacity_b-ReadsAs strtod r n h
  setting-ReadsAs (capacity_kb n) r h = capacity_kb-ReadsAs strtod r n h
  setting-ReadsAs (capacity_mb n) r h = capacity_mb-ReadsAs strtod r n h
  setting-ReadsAs (flash_page_size n) r h = flash_page_size-ReadsAs strtod r n h
  setting-ReadsAs (flash_block_size n) r h = flash_block_size-ReadsAs strtod r n h
  setting-ReadsAs (force_mux_sense_amp a n) r h = force_mux_sense_amp-ReadsAs strtod r a n h
  setting-ReadsAs (force_mux_output_lev1 a n) r h = force_mux_output_lev1-ReadsAs strtod r a n h
  setting-ReadsAs (force_mux_output_lev2 a n) r h = force_mux_output_lev2-ReadsAs strtod r a n h
  setting-ReadsAs (force_bank_3da r' c l) r h = force_bank_3da-ReadsAs strtod r r' c l h
  setting-ReadsAs (force_bank_3d r' c l y x) r h = force_bank_3d-ReadsAs strtod r r' c l y x h
  setting-ReadsAs (force_bank_a r' c) r h = force_bank_a-ReadsAs strtod r r' c h
  setting-ReadsAs (force_mat_a r' c) r h = force_mat_a-ReadsAs strtod r r' c h
  setting-ReadsAs (force_bank a r' c y x) r h = force_bank-ReadsAs strtod r a r' c y x h
  setting-ReadsAs (force_mat a r' c y x) r h = force_mat-ReadsAs strtod r a r' c y x h

  lines-ReadsAs :
      (ss : List Setting) (r : Reading (InputParameter D))
      → All IsWritable ss
      → (tmp : Option Text) × (run_all (run_rules (parameter_rules strtod)) (map print_setting ss) r
          ≡ returns (record { object = apply_settings ss r.object; tmp = tmp }))
  lines-ReadsAs [] r h = (r.tmp, refl)
  lines-ReadsAs (s ∷ ss) r (here, later) =
      let (t, first) = setting-ReadsAs s r here in
      let (t', rest) =
        lines-ReadsAs ss (record { object = apply_setting s r.object; tmp = t }) later in
      (
        t',
        ap (λ m. m >>= run_all (run_rules (parameter_rules strtod)) (map print_setting ss)) first
            ∙ rest,
      )

  -- A configuration file that is printed from settings, with words and numbers that can be written,
  -- is read as these settings, one after the other: whatever was there before, each sets what it
  -- means and nothing else, but that the reader first forgets whether layers were forced.
  pub read_parameter-print_settings :
      (ss : List Setting) (p : InputParameter D)
      → All IsWritable ss
      → read_parameter strtod (some (print_settings ss)) p
        ≡ returns (apply_settings ss (record p { forced_stack_layers = false }))
  unfolding read_parameter
  read_parameter-print_settings ss p h =
      let start : Reading (InputParameter D) = record {
        object = record p { forced_stack_layers = false };
        tmp = none;
      } in
      let (t, e) = lines-ReadsAs ss start h in
      ap
        (λ m. m >>= (λ lines. run_all (run_rules (parameter_rules strtod)) lines start) >>= λ r.
          returns r.object)
        (file_lines-print_lines (map print_setting ss) (printed-IsLine ss h))
      ∙ ap (λ m. m >>= λ r. returns r.object) e
