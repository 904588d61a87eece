-- ===== src/InputParameter/Read/Limits.antt =====
-- The branches from `-ApplyReadLatencyConstraint` on.
use destiny_3d_cache.Prelude.{true, List, [], ◌∷◌, Option}
use destiny_3d_cache.Text.{Text, codes, same_text}
use destiny_3d_cache.Text.Scan.{get_or, int_bound}
use destiny_3d_cache.Text.Rules.{Rule, word_rule, number_rule, double_rule, double_or, going_on}
use destiny_3d_cache.InputParameter.{InputParameter}
use destiny_3d_cache.InputParameter.Read.Spaces.{force_stack}

module _ {D : Type 0} (strtod : Text → Option D) where
  abbrev pub limit_rules : List (Rule (InputParameter D))
  limit_rules =
      double_rule strtod (codes "-ApplyReadLatencyConstraint")
        (codes "-ApplyReadLatencyConstraint: ")
        (λ x p. record p {
          read_latency_constraint = double_or p.read_latency_constraint x;
          is_constraint_applied = true;
        })
      ∷ double_rule strtod (codes "-ApplyWriteLatencyConstraint")
          (codes "-ApplyWriteLatencyConstraint: ")
          (λ x p. record p {
            write_latency_constraint = double_or p.write_latency_constraint x;
            is_constraint_applied = true;
          })
      ∷ double_rule strtod (codes "-ApplyReadDynamicEnergyConstraint")
          (codes "-ApplyReadDynamicEnergyConstraint: ")
          (λ x p. record p {
            read_dynamic_energy_constraint = double_or p.read_dynamic_energy_constraint x;
            is_constraint_applied = true;
          })
      ∷ double_rule strtod (codes "-ApplyWriteDynamicEnergyConstraint")
          (codes "-ApplyWriteDynamicEnergyConstraint: ")
          (λ x p. record p {
            write_dynamic_energy_constraint = double_or p.write_dynamic_energy_constraint x;
            is_constraint_applied = true;
          })
      ∷ double_rule strtod (codes "-ApplyLeakageConstraint") (codes "-ApplyLeakageConstraint: ")
          (λ x p. record p {
            leakage_constraint = double_or p.leakage_constraint x;
            is_constraint_applied = true;
          })
      ∷ double_rule strtod (codes "-ApplyAreaConstraint") (codes "-ApplyAreaConstraint: ") (λ x p.
        record p { area_constraint = double_or p.area_constraint x; is_constraint_applied = true })
      ∷ double_rule strtod (codes "-ApplyReadEdpConstraint") (codes "-ApplyReadEdpConstraint: ")
          (λ x p. record p {
            read_edp_constraint = double_or p.read_edp_constraint x;
            is_constraint_applied = true;
          })
      ∷ double_rule strtod (codes "-ApplyWriteEdpConstraint") (codes "-ApplyWriteEdpConstraint: ")
          (λ x p. record p {
            write_edp_constraint = double_or p.write_edp_constraint x;
            is_constraint_applied = true;
          })
      ∷ []

  abbrev pub stack_rules : List (Rule (InputParameter D))
  stack_rules =
      number_rule int_bound (codes "-PartitionGranularity") (codes "-PartitionGranularity: " ∷ [])
        (λ ns. λ p. record p { partition_granularity = get_or p.partition_granularity ns 0 })
      ∷ number_rule int_bound (codes "-LocalTSVProjection") (codes "-LocalTSVProjection: " ∷ [])
          (λ ns. λ p. record p { local_tsv_projection = get_or p.local_tsv_projection ns 0 })
      ∷ number_rule int_bound (codes "-GlobalTSVProjection") (codes "-GlobalTSVProjection: " ∷ [])
          (λ ns. λ p. record p { global_tsv_projection = get_or p.global_tsv_projection ns 0 })
      ∷ double_rule strtod (codes "-TSVRedundancy") (codes "-TSVRedundancy: ")
          (λ x p. record p { tsv_redundancy = double_or p.tsv_redundancy x })
      ∷ number_rule int_bound (codes "-StackedDieCount") (codes "-StackedDieCount: " ∷ [])
          (λ ns. λ p. force_stack (get_or p.stack_layer.lo ns 0) p)
      ∷ number_rule int_bound (codes "-MonolithicStackCount") (codes "-MonolithicStackCount: " ∷ [])
          (λ ns. λ p. record p { monolithic_stack_count = get_or p.monolithic_stack_count ns 0 })
      ∷ word_rule (codes "-PrintAllOptimals") (codes "-PrintAllOptimals: ")
          (λ w. λ p. record p { print_all_optimals = same_text w (codes "true") })
      ∷ word_rule (codes "-AllowDifferentTagTech") (codes "-AllowDifferentTagTech: ")
          (λ w. λ p. record p { allow_different_tag_tech = same_text w (codes "true") })
      ∷ going_on (
          number_rule int_bound (codes "-PrintLevel") (codes "-PrintLevel: " ∷ [])
            (λ ns. λ p. record p { print_level = get_or p.print_level ns 0 }))
      ∷ []
