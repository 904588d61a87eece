-- ===== src/InputParameter/Read/Design.antt =====
-- The branches from `-DesignTarget` to `-CacheAccessMode`.
use destiny_3d_cache.Prelude.{ℕ, ◌*◌, List, [], ◌∷◌, Option, ltb, if◌then◌else◌, false}
use destiny_3d_cache.Prelude.Run.{Run, returns, outside, ◌>>=◌}
use destiny_3d_cache.Text.{Text, codes}
use destiny_3d_cache.Text.Scan.{scan_numbers, get_or, int_bound, long_bound}
use destiny_3d_cache.Text.Rules.{Rule, Reading, word_rule, number_rule, double_rule, double_or}
use destiny_3d_cache.TypeDef.{DesignTarget, cache, ram_chip, cam_chip}
use destiny_3d_cache.InputParameter.{InputParameter, fixed}
use destiny_3d_cache.InputParameter.Words.{
  design_target_of, optimization_target_of, device_roadmap_of, write_scheme_of,
  cache_access_mode_of,
}

module _ {D : Type 0} where
  -- Only a cache may spread a set over several rows.
  abbrev pub with_design_target : DesignTarget → InputParameter D → InputParameter D
  with_design_target cache p = record p { design_target = cache }
  with_design_target ram_chip p = record p { design_target = ram_chip; num_row_per_set = fixed 1 }
  with_design_target cam_chip p = record p { design_target = cam_chip; num_row_per_set = fixed 1 }

  -- `long cap` is not initialised, and its product must fit.
  abbrev pub with_capacity :
      ℕ → List ℕ → Reading (InputParameter D) → Run (Reading (InputParameter D))
  with_capacity unit [] r = outside
  with_capacity unit (cap ∷ _) r =
      if ltb (cap * unit) long_bound
      then returns (record r { object = record r.object { capacity = cap * unit } })
      else outside

  abbrev pub capacity_rule : Text → Text → ℕ → Rule (InputParameter D)
  capacity_rule key format unit = record {
    key = key;
    goes_on = false;
    action = λ line r. scan_numbers long_bound (format ∷ []) line >>= λ ns. with_capacity unit ns r;
  }

  module _ (strtod : Text → Option D) where
    abbrev pub design_rules : List (Rule (InputParameter D))
    design_rules =
        word_rule (codes "-DesignTarget") (codes "-DesignTarget: ")
          (λ w p. with_design_target (design_target_of w) p)
        ∷ word_rule (codes "-OptimizationTarget") (codes "-OptimizationTarget: ")
            (λ w p. record p { optimization_target = optimization_target_of w })
        ∷ word_rule (codes "-OutputFilePrefix") (codes "-OutputFilePrefix: ")
            (λ w p. record p { output_file_prefix = w })
        ∷ number_rule int_bound (codes "-ProcessNode") (codes "-ProcessNode: " ∷ [])
            (λ ns p. record p { process_node = get_or p.process_node ns 0 })
        ∷ capacity_rule (codes "-Capacity (B)") (codes "-Capacity (B): ") 1
        ∷ capacity_rule (codes "-Capacity (KB)") (codes "-Capacity (KB): ") 1024
        ∷ capacity_rule (codes "-Capacity (MB)") (codes "-Capacity (MB): ") (1024 * 1024)
        ∷ number_rule long_bound (codes "-WordWidth") (codes "-WordWidth (bit): " ∷ [])
            (λ ns p. record p { word_width = get_or p.word_width ns 0 })
        ∷ number_rule int_bound (codes "-Associativity")
            (codes "-Associativity (for cache only): " ∷ [])
            (λ ns p. record p { associativity = get_or p.associativity ns 0 })
        ∷ number_rule int_bound (codes "-Temperature") (codes "-Temperature (K): " ∷ [])
            (λ ns p. record p { temperature = get_or p.temperature ns 0 })
        ∷ double_rule strtod (codes "-MaxDriverCurrent") (codes "-MaxDriverCurrent (uA): ")
            (λ x p. record p { max_driver_current = double_or p.max_driver_current x })
        ∷ word_rule (codes "-DeviceRoadmap") (codes "-DeviceRoadmap: ")
            (λ w p. record p { device_roadmap = device_roadmap_of w })
        ∷ word_rule (codes "-WriteScheme") (codes "-WriteScheme: ")
            (λ w p. record p { write_scheme = write_scheme_of w })
        ∷ word_rule (codes "-CacheAccessMode") (codes "-CacheAccessMode: ")
            (λ w p. record p { cache_access_mode = cache_access_mode_of w })
        ∷ []
