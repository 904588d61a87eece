-- ===== src/InputParameter/Settings/Printed.antt =====
-- Every line that a setting prints is a line, which does not start with a space.
use destiny_3d_cache.Prelude.{ℕ, ◌≡◌, true, refl, [], ◌∷◌, ◌++◌}
use destiny_3d_cache.Text.{Text, codes}
use destiny_3d_cache.Text.Decimal.{decimal_then}
use destiny_3d_cache.Text.Lines.Print.{
  IsLine, no_newline, no_newline-IsWord, no_newline-decimal_then,
}
use destiny_3d_cache.InputParameter.Settings.{
  Setting, of_data, of_tag, print_setting, total, IsWritable, design_target, optimization_target,
  output_file_prefix, device_roadmap, write_scheme, cache_access_mode, routing, internal_sensing,
  memory_cell_input_file, cacti_assumption, pruning, print_all_optimals, allow_different_tag_tech,
  local_wire_type, global_wire_type, local_wire_repeater_type, global_wire_repeater_type,
  local_wire_low_swing, global_wire_low_swing, buffer_design_optimization, process_node,
  associativity, temperature, partition_granularity, local_tsv_projection, global_tsv_projection,
  stacked_die_count, monolithic_stack_count, print_level, word_width, capacity_b, capacity_kb,
  capacity_mb, flash_page_size, flash_block_size, force_mux_sense_amp, force_mux_output_lev1,
  force_mux_output_lev2, force_bank_3da, force_bank_3d, force_bank_a, force_mat_a, force_bank,
  force_mat,
}
use destiny_3d_cache.InputParameter.Settings.Words.{
  design_target_word, optimization_target_word, device_roadmap_word, write_scheme_word,
  cache_access_mode_word, routing_mode_word, true_word, yes_word, wire_type_word,
  repeater_type_word, area_optimization_word, design_target_word-IsWord,
  optimization_target_word-IsWord, device_roadmap_word-IsWord, write_scheme_word-IsWord,
  cache_access_mode_word-IsWord, routing_mode_word-IsWord, true_word-IsWord, yes_word-IsWord,
  wire_type_word-IsWord, repeater_type_word-IsWord, area_optimization_word-IsWord,
}

-- A number is printed in the line, and so are two.
number : (n : ℕ) → no_newline (decimal_then n []) ≡ true
number n = no_newline-decimal_then n [] refl

total-no_newline :
    (a b : ℕ) (rest : Text) → no_newline rest ≡ true → no_newline (total a b rest) ≡ true
total-no_newline a b rest h =
    no_newline-decimal_then a (b'x' ∷ decimal_then b rest) (no_newline-decimal_then b rest h)

pub print_setting-IsLine : (s : Setting) → IsWritable s → IsLine (print_setting s)
print_setting-IsLine (design_target x) h =
    no_newline-IsWord (design_target_word x) (design_target_word-IsWord x)
print_setting-IsLine (optimization_target x) h =
    no_newline-IsWord (optimization_target_word x) (optimization_target_word-IsWord x)
print_setting-IsLine (output_file_prefix x) h = no_newline-IsWord (x) h
print_setting-IsLine (device_roadmap x) h =
    no_newline-IsWord (device_roadmap_word x) (device_roadmap_word-IsWord x)
print_setting-IsLine (write_scheme x) h =
    no_newline-IsWord (write_scheme_word x) (write_scheme_word-IsWord x)
print_setting-IsLine (cache_access_mode x) h =
    no_newline-IsWord (cache_access_mode_word x) (cache_access_mode_word-IsWord x)
print_setting-IsLine (routing x) h =
    no_newline-IsWord (routing_mode_word x) (routing_mode_word-IsWord x)
print_setting-IsLine (internal_sensing x) h = no_newline-IsWord (true_word x) (true_word-IsWord x)
print_setting-IsLine (memory_cell_input_file x) h = no_newline-IsWord (x) h
print_setting-IsLine (cacti_assumption x) h = no_newline-IsWord (yes_word x) (yes_word-IsWord x)
print_setting-IsLine (pruning x) h = no_newline-IsWord (yes_word x) (yes_word-IsWord x)
print_setting-IsLine (print_all_optimals x) h = no_newline-IsWord (true_word x) (true_word-IsWord x)
print_setting-IsLine (allow_different_tag_tech x) h =
    no_newline-IsWord (true_word x) (true_word-IsWord x)
print_setting-IsLine (local_wire_type of_data x) h =
    no_newline-IsWord (wire_type_word x) (wire_type_word-IsWord x)
print_setting-IsLine (local_wire_type of_tag x) h =
    no_newline-IsWord (wire_type_word x) (wire_type_word-IsWord x)
print_setting-IsLine (global_wire_type of_data x) h =
    no_newline-IsWord (wire_type_word x) (wire_type_word-IsWord x)
print_setting-IsLine (global_wire_type of_tag x) h =
    no_newline-IsWord (wire_type_word x) (wire_type_word-IsWord x)
print_setting-IsLine (local_wire_repeater_type of_data x) h =
    no_newline-IsWord (repeater_type_word x) (repeater_type_word-IsWord x)
print_setting-IsLine (local_wire_repeater_type of_tag x) h =
    no_newline-IsWord (repeater_type_word x) (repeater_type_word-IsWord x)
print_setting-IsLine (global_wire_repeater_type of_data x) h =
    no_newline-IsWord (repeater_type_word x) (repeater_type_word-IsWord x)
print_setting-IsLine (global_wire_repeater_type of_tag x) h =
    no_newline-IsWord (repeater_type_word x) (repeater_type_word-IsWord x)
print_setting-IsLine (local_wire_low_swing of_data x) h =
    no_newline-IsWord (yes_word x) (yes_word-IsWord x)
print_setting-IsLine (local_wire_low_swing of_tag x) h =
    no_newline-IsWord (yes_word x) (yes_word-IsWord x)
print_setting-IsLine (global_wire_low_swing of_data x) h =
    no_newline-IsWord (yes_word x) (yes_word-IsWord x)
print_setting-IsLine (global_wire_low_swing of_tag x) h =
    no_newline-IsWord (yes_word x) (yes_word-IsWord x)
print_setting-IsLine (buffer_design_optimization of_data x) h =
    no_newline-IsWord (area_optimization_word x) (area_optimization_word-IsWord x)
print_setting-IsLine (buffer_design_optimization of_tag x) h =
    no_newline-IsWord (area_optimization_word x) (area_optimization_word-IsWord x)
print_setting-IsLine (process_node n) h = number n
print_setting-IsLine (associativity n) h = number n
print_setting-IsLine (temperature n) h = number n
print_setting-IsLine (partition_granularity n) h = number n
print_setting-IsLine (local_tsv_projection n) h = number n
print_setting-IsLine (global_tsv_projection n) h = number n
print_setting-IsLine (stacked_die_count n) h = number n
print_setting-IsLine (monolithic_stack_count n) h = number n
print_setting-IsLine (print_level n) h = number n
print_setting-IsLine (word_width n) h = number n
print_setting-IsLine (capacity_b n) h = number n
print_setting-IsLine (capacity_kb n) h = number n
print_setting-IsLine (capacity_mb n) h = number n
print_setting-IsLine (flash_page_size n) h = number n
print_setting-IsLine (flash_block_size n) h = number n
print_setting-IsLine (force_mux_sense_amp of_data n) h = number n
print_setting-IsLine (force_mux_sense_amp of_tag n) h = number n
print_setting-IsLine (force_mux_output_lev1 of_data n) h = number n
print_setting-IsLine (force_mux_output_lev1 of_tag n) h = number n
print_setting-IsLine (force_mux_output_lev2 of_data n) h = number n
print_setting-IsLine (force_mux_output_lev2 of_tag n) h = number n
print_setting-IsLine (force_bank_3da r c l) h =
    total-no_newline r c (b'x' ∷ decimal_then l []) (number l)
print_setting-IsLine (force_bank_3d r c l y x) h =
    total-no_newline r c (b'x' ∷ decimal_then l (codes ", " ++ total y x []))
      (no_newline-decimal_then l (codes ", " ++ total y x []) (total-no_newline y x [] refl))
print_setting-IsLine (force_bank_a r c) h = total-no_newline r c [] refl
print_setting-IsLine (force_mat_a r c) h = total-no_newline r c [] refl
print_setting-IsLine (force_bank of_data r c y x) h =
    total-no_newline r c (codes ", " ++ total y x []) (total-no_newline y x [] refl)
print_setting-IsLine (force_bank of_tag r c y x) h =
    total-no_newline r c (codes ", " ++ total y x []) (total-no_newline y x [] refl)
print_setting-IsLine (force_mat of_data r c y x) h =
    total-no_newline r c (codes ", " ++ total y x []) (total-no_newline y x [] refl)
print_setting-IsLine (force_mat of_tag r c y x) h =
    total-no_newline r c (codes ", " ++ total y x []) (total-no_newline y x [] refl)
