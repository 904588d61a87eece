-- ===== src/InputParameter/Settings/Numbers.antt =====
-- The lines with one number are read as what they set.
use destiny_3d_cache.Prelude.{ℕ, ◌*◌, ◌<◌, ◌≡◌, refl, true, Option, [], arith, ltb}
use native.Mathlib.Nat.{mul-one}
use destiny_3d_cache.Text.{Text}
use destiny_3d_cache.Text.Scan.{int_bound, long_bound}
use destiny_3d_cache.Text.Rules.{Reading, run_rules}
use destiny_3d_cache.Text.Decimal.{scan_number-decimal_then, skip_spaces-decimal_then}
use destiny_3d_cache.InputParameter.{InputParameter}
use destiny_3d_cache.InputParameter.Settings.{
  ArrayKind, of_data, of_tag, process_node, associativity, temperature, partition_granularity,
  local_tsv_projection, global_tsv_projection, stacked_die_count, monolithic_stack_count,
  print_level, word_width, capacity_b, capacity_kb, capacity_mb, flash_page_size, flash_block_size,
  force_mux_sense_amp, force_mux_output_lev1, force_mux_output_lev2,
}
use destiny_3d_cache.InputParameter.Settings.Reads.{ReadsAs}

ltb-long : (n : ℕ) → n < long_bound → ltb n long_bound ≡ true
ltb-long n h = ground (arith, h)

module _ {D : Type 0} (strtod : Text → Option D) (r : Reading (InputParameter D)) where
  pub process_node-ReadsAs : (n : ℕ) → n < int_bound → ReadsAs strtod r (process_node n)
  unfolding run_rules
  process_node-ReadsAs n h = (
    r.tmp,
    rw (skip_spaces-decimal_then n ([]), scan_number-decimal_then int_bound n ([]) (h) refl) refl,
  )

  pub associativity-ReadsAs : (n : ℕ) → n < int_bound → ReadsAs strtod r (associativity n)
  unfolding run_rules
  associativity-ReadsAs n h = (
    r.tmp,
    rw (skip_spaces-decimal_then n ([]), scan_number-decimal_then int_bound n ([]) (h) refl) refl,
  )

  pub temperature-ReadsAs : (n : ℕ) → n < int_bound → ReadsAs strtod r (temperature n)
  unfolding run_rules
  temperature-ReadsAs n h = (
    r.tmp,
    rw (skip_spaces-decimal_then n ([]), scan_number-decimal_then int_bound n ([]) (h) refl) refl,
  )

  pub partition_granularity-ReadsAs :
      (n : ℕ) → n < int_bound → ReadsAs strtod r (partition_granularity n)
  unfolding run_rules
  partition_granularity-ReadsAs n h = (
    r.tmp,
    rw (skip_spaces-decimal_then n ([]), scan_number-decimal_then int_bound n ([]) (h) refl) refl,
  )

  pub local_tsv_projection-ReadsAs :
      (n : ℕ) → n < int_bound → ReadsAs strtod r (local_tsv_projection n)
  unfolding run_rules
  local_tsv_projection-ReadsAs n h = (
    r.tmp,
    rw (skip_spaces-decimal_then n ([]), scan_number-decimal_then int_bound n ([]) (h) refl) refl,
  )

  pub global_tsv_projection-ReadsAs :
      (n : ℕ) → n < int_bound → ReadsAs strtod r (global_tsv_projection n)
  unfolding run_rules
  global_tsv_projection-ReadsAs n h = (
    r.tmp,
    rw (skip_spaces-decimal_then n ([]), scan_number-decimal_then int_bound n ([]) (h) refl) refl,
  )

  pub stacked_die_count-ReadsAs : (n : ℕ) → n < int_bound → ReadsAs strtod r (stacked_die_count n)
  unfolding run_rules
  stacked_die_count-ReadsAs n h = (
    r.tmp,
    rw (skip_spaces-decimal_then n ([]), scan_number-decimal_then int_bound n ([]) (h) refl) refl,
  )

  pub monolithic_stack_count-ReadsAs :
      (n : ℕ) → n < int_bound → ReadsAs strtod r (monolithic_stack_count n)
  unfolding run_rules
  monolithic_stack_count-ReadsAs n h = (
    r.tmp,
    rw (skip_spaces-decimal_then n ([]), scan_number-decimal_then int_bound n ([]) (h) refl) refl,
  )

  pub print_level-ReadsAs : (n : ℕ) → n < int_bound → ReadsAs strtod r (print_level n)
  unfolding run_rules
  print_level-ReadsAs n h = (
    r.tmp,
    rw (skip_spaces-decimal_then n ([]), scan_number-decimal_then int_bound n ([]) (h) refl) refl,
  )

  pub word_width-ReadsAs : (n : ℕ) → n < long_bound → ReadsAs strtod r (word_width n)
  unfolding run_rules
  word_width-ReadsAs n h = (
    r.tmp,
    rw (skip_spaces-decimal_then n ([]), scan_number-decimal_then long_bound n ([]) (h) refl) refl,
  )

  pub capacity_b-ReadsAs : (n : ℕ) → n < long_bound → ReadsAs strtod r (capacity_b n)
  unfolding run_rules
  capacity_b-ReadsAs n h = (
    r.tmp,
    rw
        (
          skip_spaces-decimal_then n ([]),
          scan_number-decimal_then long_bound n ([]) (omega arith) refl,
          ltb-long (n * 1) (omega arith),
          mul-one n,
        )
        refl,
  )

  pub capacity_kb-ReadsAs : (n : ℕ) → n * 1024 < long_bound → ReadsAs strtod r (capacity_kb n)
  unfolding run_rules
  capacity_kb-ReadsAs n h = (
    r.tmp,
    rw
        (
          skip_spaces-decimal_then n ([]),
          scan_number-decimal_then long_bound n ([]) (omega arith) refl,
          ltb-long (n * 1024) h,
        )
        refl,
  )

  pub capacity_mb-ReadsAs :
      (n : ℕ) → n * (1024 * 1024) < long_bound → ReadsAs strtod r (capacity_mb n)
  unfolding run_rules
  capacity_mb-ReadsAs n h = (
    r.tmp,
    rw
        (
          skip_spaces-decimal_then n ([]),
          scan_number-decimal_then long_bound n ([]) (omega arith) refl,
          ltb-long (n * (1024 * 1024)) h,
        )
        refl,
  )

  pub flash_page_size-ReadsAs : (n : ℕ) → n * 8 < long_bound → ReadsAs strtod r (flash_page_size n)
  unfolding run_rules
  flash_page_size-ReadsAs n h = (
    r.tmp,
    rw
        (
          skip_spaces-decimal_then n ([]),
          scan_number-decimal_then long_bound n ([]) (omega arith) refl,
          ltb-long (n * 8) h,
        )
        refl,
  )

  pub flash_block_size-ReadsAs :
      (n : ℕ) → n * (8 * 1024) < long_bound → ReadsAs strtod r (flash_block_size n)
  unfolding run_rules
  flash_block_size-ReadsAs n h = (
    r.tmp,
    rw
        (
          skip_spaces-decimal_then n ([]),
          scan_number-decimal_then long_bound n ([]) (omega arith) refl,
          ltb-long (n * (8 * 1024)) h,
        )
        refl,
  )

  pub force_mux_sense_amp-ReadsAs :
      (a : ArrayKind) (n : ℕ) → n < int_bound → ReadsAs strtod r (force_mux_sense_amp a n)
  unfolding run_rules
  force_mux_sense_amp-ReadsAs of_data n h = (
    r.tmp,
    rw (skip_spaces-decimal_then n ([]), scan_number-decimal_then int_bound n ([]) (h) refl) refl,
  )
  force_mux_sense_amp-ReadsAs of_tag n h = (
    r.tmp,
    rw (skip_spaces-decimal_then n ([]), scan_number-decimal_then int_bound n ([]) (h) refl) refl,
  )

  pub force_mux_output_lev1-ReadsAs :
      (a : ArrayKind) (n : ℕ) → n < int_bound → ReadsAs strtod r (force_mux_output_lev1 a n)
  unfolding run_rules
  force_mux_output_lev1-ReadsAs of_data n h = (
    r.tmp,
    rw (skip_spaces-decimal_then n ([]), scan_number-decimal_then int_bound n ([]) (h) refl) refl,
  )
  force_mux_output_lev1-ReadsAs of_tag n h = (
    r.tmp,
    rw (skip_spaces-decimal_then n ([]), scan_number-decimal_then int_bound n ([]) (h) refl) refl,
  )

  pub force_mux_output_lev2-ReadsAs :
      (a : ArrayKind) (n : ℕ) → n < int_bound → ReadsAs strtod r (force_mux_output_lev2 a n)
  unfolding run_rules
  force_mux_output_lev2-ReadsAs of_data n h = (
    r.tmp,
    rw (skip_spaces-decimal_then n ([]), scan_number-decimal_then int_bound n ([]) (h) refl) refl,
  )
  force_mux_output_lev2-ReadsAs of_tag n h = (
    r.tmp,
    rw (skip_spaces-decimal_then n ([]), scan_number-decimal_then int_bound n ([]) (h) refl) refl,
  )
