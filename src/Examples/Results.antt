-- ===== src/Examples/Results.antt =====
-- The kept results of small searches, refinements and comparisons.
use destiny_3d_cache.Prelude.{
  ◌≡◌, refl, ◌⊎◌, true, false, some, [], ◌∷◌, All, Any, Pairwise, ◌≤◌, ℕ, log2_ratio, log2_floor,
  log2_int,
}
use destiny_3d_cache.Prelude.Run.{IsReturned, result, result-returns}
use destiny_3d_cache.Double.{IsNumber, ◌≼◌}
use destiny_3d_cache.Double.Whole.{Whole, whole_double, Whole-IsOrdered}
use destiny_3d_cache.TypeDef.{data_array, sram}
use destiny_3d_cache.BankConfig.{bank_address_bits}
use destiny_3d_cache.BankWithHtree.{htree_initialize, route_start, mat_share}
use destiny_3d_cache.BankWithHtree.Routing.{route, first_level, rounds, last_cut}
use destiny_3d_cache.Mat.{mat_initialize, geometry, subarray_initialize, predecode}
use destiny_3d_cache.Search.{bigfor}
use destiny_3d_cache.Search.Loops.{doubling, counting, append_loop, for_each, ◌>>=◌}
use destiny_3d_cache.Result.{
  Result, Limits, new_result, worst_case, compare_and_update, within_limits, improves,
}
use destiny_3d_cache.Result.Best.{metric, update_all, Replaces, update_all-le, update_all-Replaces}
use destiny_3d_cache.InputParameter.{InputParameter}
use destiny_3d_cache.Nvsim.{calculate}
use destiny_3d_cache.Nvsim.Wires.{refine_wires}
use destiny_3d_cache.Nvsim.Explore.{Target, design_step}
use destiny_3d_cache.Nvsim.Refine.{refine, refine_step, try_and_update}
use destiny_3d_cache.Nvsim.Refine.Improves.{Improves, refine-Improves}
use destiny_3d_cache.Nvsim.Program.{
  constrain, apply_constraint, not_implemented, is_cache, is_h_tree,
}
use destiny_3d_cache.Nvsim.Program.Constraints.{
  Constrained, constrain-Constrained, apply_constraint-returns,
}
use destiny_3d_cache.Nvsim.Program.Cells.{Pair, merge_cells}
use destiny_3d_cache.Nvsim.Program.Cells.Merge.{FromSome, merge_cells-FromSome, merge_cells-le}
use destiny_3d_cache.Examples.{parameter, simulator, globals, start_result, space, bank_of_rows}

-- A result whose bank has the given rows.
abbrev of_rows : ℕ → Result Whole
of_rows n = record start_result { bank = bank_of_rows n }

start_result-IsNumber : IsNumber (metric start_result.optimization_target start_result.bank)
unfolding new_result metric worst_case
start_result-IsNumber = refl

update_all-le_example :
    (metric start_result.optimization_target
        (update_all start_result (of_rows 5 ∷ of_rows 3 ∷ [])).bank
      ≼ metric start_result.optimization_target start_result.bank)
    × All
        (λ c.
          within_limits start_result.limits c.bank ≡ true
          → metric start_result.optimization_target
              (update_all start_result (of_rows 5 ∷ of_rows 3 ∷ [])).bank
            ≼ metric start_result.optimization_target c.bank)
        (of_rows 5 ∷ of_rows 3 ∷ [])
update_all-le_example =
    update_all-le Whole-IsOrdered start_result (of_rows 5 ∷ of_rows 3 ∷ []) start_result-IsNumber

update_all-Replaces_example :
    (update_all start_result (of_rows 5 ∷ []) ≡ start_result)
    ⊎ Any (Replaces start_result (update_all start_result (of_rows 5 ∷ []))) (of_rows 5 ∷ [])
update_all-Replaces_example = update_all-Replaces start_result (of_rows 5 ∷ [])

refine_IsReturned :
    IsReturned (refine simulator parameter data_array space globals (start_result ∷ []))
unfolding refine refine_wires for_each ◌>>=◌ counting append_loop refine_step try_and_update
    new_result worst_case compare_and_update improves calculate htree_initialize route_start
    bank_address_bits log2_ratio log2_floor log2_int route first_level rounds last_cut mat_share
    mat_initialize geometry subarray_initialize predecode within_limits
refine_IsReturned = tt

refine_example : Pairwise Improves (start_result ∷ []) (
    result
      (refine simulator parameter data_array space globals (start_result ∷ []))
      refine_IsReturned)
refine_example =
    refine-Improves Whole-IsOrdered simulator parameter data_array space globals (start_result ∷ [])
      _
      (result-returns (refine simulator parameter data_array space globals (start_result ∷ []))
        refine_IsReturned)

abbrev array_target : Target
array_target = record {
  memory_type = data_array;
  capacity = 8192;
  block_size = 64;
  associativity = 1;
}

abbrev small_limits : Limits Whole
small_limits = record {
  limit_read_latency = some 128;
  limit_write_latency = some 128;
  limit_read_dynamic_energy = some 128;
  limit_write_dynamic_energy = some 128;
  limit_read_edp = some 16384;
  limit_write_edp = some 16384;
  limit_area = some 128;
  limit_leakage = some 128;
}

constrain_IsReturned :
    IsReturned
      (constrain simulator parameter array_target globals (start_result ∷ []) (some small_limits))
unfolding bigfor for_each ◌>>=◌ doubling counting append_loop design_step calculate htree_initialize
    route_start bank_address_bits log2_ratio log2_floor log2_int route first_level rounds last_cut
    mat_share mat_initialize geometry subarray_initialize predecode within_limits
constrain_IsReturned = tt

constrain_example :
    All
      (Constrained small_limits)
      (result
        (constrain simulator parameter array_target globals (start_result ∷ []) (some small_limits))
        constrain_IsReturned).best
constrain_example =
    constrain-Constrained simulator parameter array_target globals (start_result ∷ []) small_limits
      _
      (result-returns
        (constrain simulator parameter array_target globals (start_result ∷ []) (some small_limits))
        constrain_IsReturned)

apply_constraint_example :
    (not_implemented parameter.design_target sram ≡ false)
    × (is_cache parameter.design_target ≡ false → parameter.associativity ≤ 1)
    × (is_h_tree parameter.routing_mode ≡ true → parameter.internal_sensing ≡ true)
unfolding apply_constraint
apply_constraint_example = apply_constraint-returns sram parameter parameter refl

abbrev pair_of : ℕ → Pair Whole
pair_of n = record { data_result = of_rows n; tag_result = of_rows n }

merge_cells_example :
    (merge_cells false 1 (pair_of 4 ∷ pair_of 2 ∷ []) (pair_of 3) ≡ pair_of 3)
    ⊎ FromSome
        (pair_of 4 ∷ pair_of 2 ∷ [])
        1
        (merge_cells false 1 (pair_of 4 ∷ pair_of 2 ∷ []) (pair_of 3))
merge_cells_example = merge_cells-FromSome 1 (pair_of 4 ∷ pair_of 2 ∷ []) (pair_of 3)

merge_cells-le_example :
    (metric start_result.optimization_target
        (merge_cells true 1 (pair_of 4 ∷ pair_of 2 ∷ []) (pair_of 3)).data_result.bank
      ≼ metric start_result.optimization_target (bank_of_rows 3))
    × All
        (λ c.
          within_limits start_result.limits c.data_result.bank ≡ true
          → metric start_result.optimization_target
              (merge_cells true 1 (pair_of 4 ∷ pair_of 2 ∷ []) (pair_of 3)).data_result.bank
            ≼ metric start_result.optimization_target c.data_result.bank)
        (pair_of 4 ∷ pair_of 2 ∷ [])
unfolding new_result metric
merge_cells-le_example =
    merge_cells-le Whole-IsOrdered true 1 (pair_of 4 ∷ pair_of 2 ∷ []) (pair_of 3) refl
