-- ===== src/InputParameter/Read/Spaces.antt =====
-- The branches from `-Routing` to `-FlashBlockSize`: what fixes the bounds of the search.
use destiny_3d_cache.Prelude.{
  ℕ, ◌+◌, ◌*◌, Bool, true, false, List, [], ◌∷◌, ◌++◌, Option, ltb, if◌then◌else◌,
}
use destiny_3d_cache.Prelude.Run.{Run, returns, outside, ◌>>=◌}
use destiny_3d_cache.Text.{Text, codes, same_text}
use destiny_3d_cache.Text.Scan.{scan_numbers, get_or, int_bound, long_bound}
use destiny_3d_cache.Text.Rules.{
  Rule, Reading, word_rule, number_rule, double_rule, double_or, going_on,
}
use destiny_3d_cache.InputParameter.{InputParameter, ArraySpace, fixed}
use destiny_3d_cache.InputParameter.Words.{routing_mode_of, area_optimization_level_of}
use destiny_3d_cache.InputParameter.Read.Wires.{in_data_space, in_tag_space}

-- The numbers that were assigned go to the lower bounds, which the upper bounds then follow.
abbrev pub force_bank_a : List ℕ → ArraySpace → ArraySpace
force_bank_a ns s = record s {
  num_row_mat = fixed (get_or s.num_row_mat.lo ns 0);
  num_column_mat = fixed (get_or s.num_column_mat.lo ns 1);
}

abbrev pub force_active_mats : List ℕ → ℕ → ArraySpace → ArraySpace
force_active_mats ns first s = record s {
  num_active_mat_per_column = fixed (get_or s.num_active_mat_per_column.lo ns first);
  num_active_mat_per_row = fixed (get_or s.num_active_mat_per_row.lo ns (first + 1));
}

abbrev pub force_mat_a : List ℕ → ArraySpace → ArraySpace
force_mat_a ns s = record s {
  num_row_subarray = fixed (get_or s.num_row_subarray.lo ns 0);
  num_column_subarray = fixed (get_or s.num_column_subarray.lo ns 1);
}

abbrev pub force_active_subarrays : List ℕ → ArraySpace → ArraySpace
force_active_subarrays ns s = record s {
  num_active_subarray_per_column = fixed (get_or s.num_active_subarray_per_column.lo ns 2);
  num_active_subarray_per_row = fixed (get_or s.num_active_subarray_per_row.lo ns 3);
}

abbrev pub cacti_space : ArraySpace → ArraySpace
cacti_space s = record s {
  num_active_mat_per_row = fixed s.num_column_mat.hi;
  num_active_mat_per_column = fixed 1;
  num_row_subarray = fixed 2;
  num_column_subarray = fixed 2;
  num_active_subarray_per_row = fixed 2;
  num_active_subarray_per_column = fixed 2;
}

module _ {D : Type 0} where
  abbrev pub force_stack : ℕ → InputParameter D → InputParameter D
  force_stack n p = record p { stack_layer = fixed n; forced_stack_layers = true }

  abbrev pub with_cacti_assumption : Bool → InputParameter D → InputParameter D
  with_cacti_assumption true p = record p {
    use_cacti_assumption = true;
    data_space = cacti_space p.data_space;
  }
  with_cacti_assumption false p = record p { use_cacti_assumption = false }

  -- A size of type `long` is multiplied also if nothing was assigned to it.
  abbrev pub with_size :
      ℕ
      → (ℕ → InputParameter D → InputParameter D)
      → Reading (InputParameter D)
      → Run (Reading (InputParameter D))
  with_size n set r =
      if ltb n long_bound then returns (record r { object = set n r.object }) else outside

  abbrev pub size_rule :
      Text
      → Text
      → ℕ
      → (InputParameter D → ℕ)
      → (ℕ → InputParameter D → InputParameter D)
      → Rule (InputParameter D)
  size_rule key format unit old set = record {
    key = key;
    goes_on = false;
    action = λ line r. scan_numbers long_bound (format ∷ []) line >>= λ ns.
        with_size (get_or (old r.object) ns 0 * unit) set r;
  }

  abbrev pub sensing_rules : (Text → Option D) → List (Rule (InputParameter D))
  sensing_rules strtod =
      word_rule (codes "-Routing") (codes "-Routing: ")
        (λ w p. record p { routing_mode = routing_mode_of w })
      ∷ word_rule (codes "-InternalSensing") (codes "-InternalSensing: ")
          (λ w p. record p { internal_sensing = same_text w (codes "true") })
      ∷ word_rule (codes "-MemoryCellInputFile") (codes "-MemoryCellInputFile: ")
          (λ w p. record p { file_mem_cell = p.file_mem_cell ++ w ∷ [] })
      ∷ double_rule strtod (codes "-MaxNmosSize") (codes "-MaxNmosSize (F): ")
          (λ x p. record p { max_nmos_size = double_or p.max_nmos_size x })
      ∷ []

  abbrev pub bank_rules : List (Rule (InputParameter D))
  bank_rules =
      number_rule int_bound (codes "-ForceBank3DA")
        (codes "-ForceBank3DA (Total AxBxC): " ∷ codes "x" ∷ codes "x" ∷ [])
        (λ ns. λ p. in_data_space (force_bank_a ns) (force_stack (get_or p.stack_layer.lo ns 2) p))
      ∷ number_rule int_bound (codes "-ForceBank3D")
          (codes "-ForceBank3D (Total AxBxC, Active DxE): "
            ∷ codes "x"
            ∷ codes "x"
            ∷ codes ", "
            ∷ codes "x"
            ∷ [])
          (λ ns. λ p.
            in_data_space (λ s. force_active_mats ns 3 (force_bank_a ns s))
              (force_stack (get_or p.stack_layer.lo ns 2) p))
      ∷ number_rule int_bound (codes "-ForceBankA")
          (codes "-ForceBankA (Total AxB): " ∷ codes "x" ∷ [])
          (λ ns. in_data_space (force_bank_a ns))
      ∷ number_rule int_bound (codes "-ForceBank")
          (codes "-ForceBank (Total AxB, Active CxD): " ∷ codes "x" ∷ codes ", " ∷ codes "x" ∷ [])
          (λ ns. in_data_space λ s. force_active_mats ns 2 (force_bank_a ns s))
      ∷ number_rule int_bound (codes "-ForceMatA")
          (codes "-ForceMatA (Total AxB): " ∷ codes "x" ∷ []) (λ ns. in_data_space (force_mat_a ns))
      ∷ number_rule int_bound (codes "-ForceMat")
          (codes "-ForceMat (Total AxB, Active CxD): " ∷ codes "x" ∷ codes ", " ∷ codes "x" ∷ [])
          (λ ns. in_data_space λ s. force_active_subarrays ns (force_mat_a ns s))
      ∷ number_rule int_bound (codes "-ForceMuxSenseAmp") (codes "-ForceMuxSenseAmp: " ∷ []) (λ ns.
        in_data_space λ s. record s { mux_sense_amp = fixed (get_or s.mux_sense_amp.lo ns 0) })
      ∷ number_rule int_bound (codes "-ForceMuxOutputLev1") (codes "-ForceMuxOutputLev1: " ∷ [])
          (λ ns.
            in_data_space
              λ s. record s { mux_output_lev1 = fixed (get_or s.mux_output_lev1.lo ns 0) })
      ∷ number_rule int_bound (codes "-ForceMuxOutputLev2") (codes "-ForceMuxOutputLev2: " ∷ [])
          (λ ns.
            in_data_space
              λ s. record s { mux_output_lev2 = fixed (get_or s.mux_output_lev2.lo ns 0) })
      ∷ []

  abbrev pub tag_rules : List (Rule (InputParameter D))
  tag_rules =
      number_rule int_bound (codes "-ForceTagBank")
        (codes "-ForceTagBank (Total AxB, Active CxD): " ∷ codes "x" ∷ codes ", " ∷ codes "x" ∷ [])
        (λ ns. in_tag_space λ s. force_active_mats ns 2 (force_bank_a ns s))
      ∷ number_rule int_bound (codes "-ForceTagMat")
          (codes "-ForceTagMat (Total AxB, Active CxD): " ∷ codes "x" ∷ codes ", " ∷ codes "x" ∷ [])
          (λ ns. in_tag_space λ s. force_active_subarrays ns (force_mat_a ns s))
      ∷ number_rule int_bound (codes "-ForceTagMuxSenseAmp") (codes "-ForceTagMuxSenseAmp: " ∷ [])
          (λ ns.
            in_tag_space λ s. record s { mux_sense_amp = fixed (get_or s.mux_sense_amp.lo ns 0) })
      ∷ number_rule int_bound (codes "-ForceTagMuxOutputLev1")
          (codes "-ForceTagMuxOutputLev1: " ∷ [])
          (λ ns.
            in_tag_space
              λ s. record s { mux_output_lev1 = fixed (get_or s.mux_output_lev1.lo ns 0) })
      ∷ number_rule int_bound (codes "-ForceTagMuxOutputLev2")
          (codes "-ForceTagMuxOutputLev2: " ∷ [])
          (λ ns.
            in_tag_space
              λ s. record s { mux_output_lev2 = fixed (get_or s.mux_output_lev2.lo ns 0) })
      ∷ []

  abbrev pub option_rules : List (Rule (InputParameter D))
  option_rules =
      word_rule (codes "-UseCactiAssumption") (codes "-UseCactiAssumption: ")
        (λ w. with_cacti_assumption (same_text w (codes "Yes")))
      ∷ word_rule (codes "-EnablePruning") (codes "-EnablePruning: ")
          (λ w. λ p. record p { is_pruning_enabled = same_text w (codes "Yes") })
      ∷ going_on (
          word_rule (codes "-BufferDesignOptimization") (codes "-BufferDesignOptimization: ") (λ w.
            in_data_space
              λ s. record s { area_optimization_level = fixed (area_optimization_level_of w) }))
      ∷ going_on (
          word_rule (codes "-TagBufferDesignOptimization") (codes "-TagBufferDesignOptimization: ")
            (λ w.
              in_tag_space
                λ s. record s { area_optimization_level = fixed (area_optimization_level_of w) }))
      ∷ size_rule (codes "-FlashPageSize") (codes "-FlashPageSize (Byte): ") 8 (λ p. p.page_size)
          (λ n p. record p { page_size = n })
      ∷ size_rule (codes "-FlashBlockSize") (codes "-FlashBlockSize (KB): ") (8 * 1024)
          (λ p. p.flash_block_size) (λ n p. record p { flash_block_size = n })
      ∷ []
