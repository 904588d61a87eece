-- ===== src/Nvsim/Refine.antt =====
-- main.cpp and macros.h: the refinement of the wires of the kept designs.
pub mod Improves
use destiny_3d_cache.Prelude.{ℕ, true, Option, none, some, List, []}
use destiny_3d_cache.Prelude.Outcome.{Outcome, ok, invalid, undefined}
use destiny_3d_cache.Prelude.Run.{Run, returns, never_ends, outside, ◌>>=◌, run_all, run_map}
use destiny_3d_cache.Double.{Double}
use destiny_3d_cache.TypeDef.{MemoryType}
use destiny_3d_cache.Wire.{Wire}
use destiny_3d_cache.Bank.{Bank}
use destiny_3d_cache.InputParameter.{InputParameter, ArraySpace}
use destiny_3d_cache.Search.Loops.{Loop}
use destiny_3d_cache.Result.{Result, worst_case, compare_and_update}
use destiny_3d_cache.Nvsim.{Simulator, Globals, trial_config, filled_bank, calculate}
use destiny_3d_cache.Nvsim.Wires.{
  WireChoice, wire_of, reload, refine_local_wires, refine_global_wires,
}
use destiny_3d_cache.Nvsim.Explore.{Exploration, temp_result}

abbrev pub for_wires :
    {D : Type 0}
    → Loop WireChoice
    → (WireChoice → List (Result D) → Run (List (Result D)))
    → List (Result D)
    → Run (List (Result D))
for_wires none step best = never_ends
for_wires (some ws) step best = run_all step ws best

module _ {D : Type 0} ⦃d : Double D⦄ (sim : Simulator D) (p : InputParameter D) where
  -- A trial with an invalid bank goes on: its figures are the worst ones.
  abbrev pub trial_bank : MemoryType → Bank D → Outcome (Bank D) → Run (Bank D)
  trial_bank m kept undefined = outside
  trial_bank m kept invalid = returns (
      filled_bank true (trial_config p m kept) sim.fresh.subarray (worst_case sim.fresh.unit)
        sim.fresh.routing)
  trial_bank m kept (ok bank) = returns bank

  -- `TRY_AND_UPDATE`
  unfoldable pub try_and_update : MemoryType → Globals D → Result D → Run (Result D)
  try_and_update m g kept = do
    bank ← trial_bank m kept.bank (calculate sim p g (trial_config p m kept.bank))
    returns (compare_and_update kept (temp_result sim p g bank)).0

  -- The wires of a trial: a new local one with the global one of the result, or the other way round.
  abbrev pub with_local : WireChoice → Globals D → Result D → Globals D
  with_local w g kept = record g {
    local_wire = wire_of sim p w;
    global_wire = reload sim p kept.global_wire;
  }

  abbrev pub with_global : WireChoice → Globals D → Result D → Globals D
  with_global w g kept = record g {
    global_wire = wire_of sim p w;
    local_wire = reload sim p kept.local_wire;
  }

  -- The global wires are set anew for each trial, so only the results go on from one to the next.
  unfoldable pub refine_step :
      MemoryType
      → (WireChoice → Globals D → Result D → Globals D)
      → Globals D
      → WireChoice
      → List (Result D)
      → Run (List (Result D))
  refine_step m wires g w = run_map λ kept. try_and_update m (wires w g kept) kept

  -- Both refinements of an array, if the search has found a solution.
  unfoldable pub refine :
      MemoryType → ArraySpace → Globals D → List (Result D) → Run (List (Result D))
  refine m s g best = do
    locals ← for_wires (refine_local_wires s) (refine_step m with_local g) best
    for_wires (refine_global_wires s) (refine_step m with_global g) locals
