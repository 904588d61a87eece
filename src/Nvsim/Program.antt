-- ===== src/Nvsim/Program.antt =====
-- main.cpp: `applyConstraint`, and `nvsim`.
pub mod Constraints
pub mod Cells
use destiny_3d_cache.Prelude.{
  ℕ, zero, suc, ◌+◌, ◌*◌, Bool, true, false, ◌&&◌, ◌||◌, not, Option, none, some, List, [], ◌∷◌,
  map, ltb, ◌==◌, if◌then◌else◌,
}
use destiny_3d_cache.Prelude.Run.{Run, returns, exits, outside, ◌>>=◌, exit_if}
use destiny_3d_cache.Double.{Double, ◌⊕◌, ◌⊗◌, of_int}
use destiny_3d_cache.TypeDef.{
  MemCellType, dram, mlc_nand, slc_nand, MemoryType, DesignTarget, cache, ram_chip, cam_chip,
  RoutingMode, h_tree, non_h_tree, CacheAccessMode, normal_access_mode, sequential_access_mode,
  fast_access_mode, OptimizationTarget, full_exploration, optimization_targets, data_array, tag,
  read_latency_optimized, write_latency_optimized, read_energy_optimized, write_energy_optimized,
  read_edp_optimized, write_edp_optimized, leakage_optimized, area_optimized,
}
use destiny_3d_cache.Bank.{Bank}
use destiny_3d_cache.InputParameter.{InputParameter, ArraySpace}
use destiny_3d_cache.Search.Size.{data_points, tag_points, reduce_search_size, restore_search_size}
use destiny_3d_cache.Result.{Result, Limits, compare_and_update, reset, read_edp, write_edp}
use destiny_3d_cache.Nvsim.{Simulator, Globals}
use destiny_3d_cache.Nvsim.Wires.{initial_basic_wire}
use destiny_3d_cache.Nvsim.Explore.{
  Exploration, Target, design_step, tag_step, tag_bits, for_points,
}
use destiny_3d_cache.Nvsim.Refine.{refine}

-- The combinations that are not implemented.
abbrev pub not_implemented : DesignTarget → MemCellType → Bool
not_implemented cam_chip _ = true
not_implemented _ dram = true
not_implemented _ mlc_nand = true
not_implemented _ _ = false

abbrev pub is_cache : DesignTarget → Bool
is_cache cache = true
is_cache _ = false

abbrev pub is_h_tree : RoutingMode → Bool
is_h_tree h_tree = true
is_h_tree non_h_tree = false

abbrev pub is_full_exploration : OptimizationTarget → Bool
is_full_exploration full_exploration = true
is_full_exploration _ = false

-- The access mode decides the word and the ways of the data array of a cache, and a page is the word
-- of an SLC NAND or DRAM chip.
abbrev pub cache_target : {D : Type 0} → InputParameter D → CacheAccessMode → Target
cache_target p sequential_access_mode = record {
  memory_type = data_array;
  capacity = p.capacity * 8;
  block_size = p.word_width;
  associativity = 1;
}
cache_target p fast_access_mode = record {
  memory_type = data_array;
  capacity = p.capacity * 8;
  block_size = p.word_width * p.associativity;
  associativity = 1;
}
cache_target p normal_access_mode = record {
  memory_type = data_array;
  capacity = p.capacity * 8;
  block_size = p.word_width;
  associativity = p.associativity;
}

abbrev pub page_target : {D : Type 0} → InputParameter D → Target
page_target p = record {
  memory_type = data_array;
  capacity = p.capacity * 8;
  block_size = p.page_size;
  associativity = 1;
}

abbrev pub data_target : {D : Type 0} → InputParameter D → DesignTarget → MemCellType → Target
data_target p cache _ = cache_target p p.cache_access_mode
data_target p ram_chip slc_nand = page_target p
data_target p ram_chip dram = page_target p
data_target p _ _ = cache_target p normal_access_mode

-- A normal access does not let a set take several rows.
abbrev pub one_row_per_set :
    {D : Type 0} → DesignTarget → CacheAccessMode → InputParameter D → InputParameter D
one_row_per_set cache normal_access_mode p = record p {
  num_row_per_set = record { lo = 1; hi = 1 };
}
one_row_per_set _ _ p = p

-- What is left of a search: whether it failed, the configuration, the global objects and the best
-- designs.
pub record Found (D : Type 0) : Type 0 where
  pub failed : Bool
  pub parameter : InputParameter D
  pub globals : Globals D
  pub num_solution : ℕ
  pub best : List (Result D)

module _ {D : Type 0} ⦃d : Double D⦄ where
  -- `applyConstraint`; an associativity that is no power of two is only reported.
  unfoldable pub apply_constraint : MemCellType → InputParameter D → Run (InputParameter D)
  apply_constraint t p = do
    _ ← exit_if (not_implemented p.design_target t)
    let q : InputParameter D =
        if not (is_cache p.design_target) && ltb 1 p.associativity
        then record p { associativity = 1 }
        else p
    _ ← exit_if (is_h_tree q.routing_mode && not q.internal_sensing)
    returns q

  -- `bestDataResults[i].optimizationTarget = (OptimizationTarget)i; ...cellTech = cell;`
  abbrev pub initial_best : ℕ → List OptimizationTarget → List (Result D) → List (Result D)
  initial_best cell (t ∷ ts) (r ∷ rs) =
      record r { optimization_target = t; cell_tech = some cell } ∷ initial_best cell ts rs
  initial_best cell _ rs = rs

  -- `x * (constraint + 1)`
  abbrev relaxed : D → D → D
  relaxed x constraint = x ⊗ (constraint ⊕ of_int 1)

  -- `allowedData...`, from the results for the eight targets in their order.
  unfoldable pub allowed_limits : InputParameter D → List (Result D) → Option (Limits D)
  allowed_limits p (rl ∷ wl ∷ re ∷ we ∷ redp ∷ wedp ∷ lk ∷ ar ∷ []) = some (record {
    limit_read_latency = relaxed rl.bank.read_latency p.read_latency_constraint;
    limit_write_latency = relaxed wl.bank.write_latency p.write_latency_constraint;
    limit_read_dynamic_energy =
        relaxed re.bank.read_dynamic_energy p.read_dynamic_energy_constraint;
    limit_write_dynamic_energy =
        relaxed we.bank.write_dynamic_energy p.write_dynamic_energy_constraint;
    limit_read_edp = relaxed (read_edp redp.bank) p.read_edp_constraint;
    limit_write_edp = relaxed (write_edp wedp.bank) p.write_edp_constraint;
    limit_area = relaxed ar.bank.area p.area_constraint;
    limit_leakage = relaxed lk.bank.leakage p.leakage_constraint;
  })
  allowed_limits p _ = none

  -- `APPLY_LIMIT`
  unfoldable pub apply_limit : Limits D → Result D → Result D
  unfolding reset
  apply_limit l r = record (reset r) { limits = l }

  module _ (sim : Simulator D) where
    abbrev pub start : InputParameter D → Globals D → List (Result D) → Exploration D
    start p g best = record {
      globals = initial_basic_wire sim p g;
      num_solution = 0;
      num_designs = 0;
      best = best;
    }

    -- The refinement, which only a search that has found a solution is followed by.
    abbrev pub refined :
        InputParameter D → MemoryType → ArraySpace → Exploration D → Run (List (Result D))
    refined p m space s =
        if s.num_solution == 0 then returns s.best else refine sim p m space s.globals s.best

    -- The tag array of a cache, in a reduced space. The configuration is then read again.
    unfoldable pub tag_phase :
        (InputParameter D → InputParameter D)
        → InputParameter D
        → Globals D
        → List (Result D)
        → Run (Found D)
    tag_phase read_file p g tags = do
      let r : InputParameter D = reduce_search_size p
      bits ← tag_bits r
      s ← for_points (tag_points r) (tag_step sim r bits) (start r g tags)
      best ← refined r tag r.tag_space s
      let reread = apply_constraint sim.mem_cell_type (read_file (restore_search_size r))
      q ← (if s.num_solution == 0 then returns r else reread)
      returns (record {
        failed = s.num_solution == 0;
        parameter = q;
        globals = s.globals;
        num_solution = 0;
        best = best;
      })

    -- The second search of the data array, within the limits that the first one has set.
    abbrev pub constrain :
        InputParameter D
        → Target
        → Globals D
        → List (Result D)
        → Option (Limits D)
        → Run (Exploration D)
    constrain p t g best none = outside
    constrain p t g best (some l) =
        for_points (data_points p) (design_step sim p (some l) t)
          (start p g (map (apply_limit l) best))

    -- The data array.
    unfoldable pub data_phase : InputParameter D → Globals D → List (Result D) → Run (Found D)
    data_phase q g datas = do
      let p : InputParameter D = one_row_per_set q.design_target q.cache_access_mode q
      let t = data_target p p.design_target sim.mem_cell_type
      s ← for_points (data_points p) (design_step sim p none t) (start p g datas)
      best ← refined p data_array p.data_space s
      let found : Exploration D = record s { best = best }
      last ←
          (if not (is_full_exploration p.optimization_target) && p.is_constraint_applied
            then constrain p t s.globals best (allowed_limits p best)
            else returns found)
      returns (record {
        failed = false;
        parameter = p;
        globals = last.globals;
        num_solution = last.num_solution;
        best = last.best;
      })

    -- `nvsim`: what it has found for the tag array, if there is one, and for the data array.
    abbrev skipped : InputParameter D → Globals D → List (Result D) → Found D
    skipped p g tags = record {
      failed = false;
      parameter = p;
      globals = g;
      num_solution = 0;
      best = tags;
    }

    unfoldable pub nvsim :
        (InputParameter D → InputParameter D)
        → InputParameter D
        → Globals D
        → (datas tags : List (Result D)) → Run (Found D × Found D)
    unfolding apply_constraint tag_phase data_phase
    nvsim read_file p g datas tags = do
      q ← apply_constraint sim.mem_cell_type p
      tag_found ←
          (if is_cache q.design_target
            then tag_phase read_file q g tags
            else returns (skipped q g tags))
      data_found ←
          (if tag_found.failed
            then returns (skipped tag_found.parameter tag_found.globals datas)
            else data_phase tag_found.parameter tag_found.globals datas)
      returns (tag_found, data_found)
