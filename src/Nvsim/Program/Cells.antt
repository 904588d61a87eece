-- ===== src/Nvsim/Program/Cells.antt =====
-- main.cpp: the comparison of the memory cells at the end of `main`.
pub mod Merge
use destiny_3d_cache.Prelude.{
  ℕ, zero, suc, ◌+◌, ◌*◌, Bool, true, false, ◌&&◌, ◌||◌, not, Option, none, some, List, [], ◌∷◌,
  map, ltb, ◌==◌, if◌then◌else◌,
}
use destiny_3d_cache.Prelude.Run.{Run, returns, exits, outside, ◌>>=◌, exit_if}
use destiny_3d_cache.Double.{Double, ◌⊕◌, ◌⊗◌, of_int}
use destiny_3d_cache.TypeDef.{
  MemCellType, dram, mlc_nand, slc_nand, MemoryType, DesignTarget, cache, ram_chip, cam_chip,
  RoutingMode, h_tree, non_h_tree, CacheAccessMode, normal_access_mode, sequential_access_mode,
  fast_access_mode, OptimizationTarget, full_exploration, optimization_targets, data_array, tag,
  read_latency_optimized, write_latency_optimized, read_energy_optimized, write_energy_optimized,
  read_edp_optimized, write_edp_optimized, leakage_optimized, area_optimized,
}
use destiny_3d_cache.Bank.{Bank}
use destiny_3d_cache.InputParameter.{InputParameter, ArraySpace}
use destiny_3d_cache.Search.Size.{data_points, tag_points, reduce_search_size, restore_search_size}
use destiny_3d_cache.Result.{Result, Limits, compare_and_update, reset, read_edp, write_edp}
use destiny_3d_cache.Nvsim.{Simulator, Globals}
use destiny_3d_cache.Nvsim.Wires.{initial_basic_wire}
use destiny_3d_cache.Nvsim.Explore.{
  Exploration, Target, design_step, tag_step, tag_bits, for_points,
}
use destiny_3d_cache.Nvsim.Refine.{refine}

-- The best designs of a memory cell for one target: of the data array and of the tag array.
pub record Pair (D : Type 0) : Type 0 where
  pub data_result : Result D
  pub tag_result : Result D

module _ {D : Type 0} ⦃d : Double D⦄ where
  -- The bank and the wires of one result in another one.
  abbrev pub copy_design : Result D → Result D → Result D
  copy_design from to = record to {
    bank = from.bank;
    local_wire = from.local_wire;
    global_wire = from.global_wire;
  }

  abbrev set_cell : Bool → ℕ → Result D → Result D
  set_cell updated cell r = if updated then record r { cell_tech = some cell } else r

  -- The body of the loop that compares the cells; `different` is `allowDifferentTagTech`.
  unfoldable pub merge_cell : (different : Bool) → ℕ → Pair D → Pair D → Pair D
  unfolding compare_and_update
  merge_cell true cell new best =
      let (data_kept, data_updated) = compare_and_update best.data_result new.data_result in
      let (tag_kept, tag_updated) = compare_and_update best.tag_result new.tag_result in
      record {
        data_result = set_cell data_updated cell data_kept;
        tag_result = set_cell tag_updated cell tag_kept;
      }
  merge_cell false cell new best =
      let (kept, updated) = compare_and_update best.data_result new.data_result in
      record {
        data_result = set_cell updated cell kept;
        tag_result =
            set_cell updated cell
              (if updated then copy_design new.tag_result best.tag_result else best.tag_result);
      }

  -- The cells from the second one on, in order.
  unfoldable pub merge_cells : Bool → ℕ → List (Pair D) → Pair D → Pair D
  unfolding merge_cell
  merge_cells different cell [] best = best
  merge_cells different cell (new ∷ rest) best =
      merge_cells different (suc cell) rest (merge_cell different cell new best)
