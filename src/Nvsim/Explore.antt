-- ===== src/Nvsim/Explore.antt =====
-- main.cpp: the loops over the designs of the tag array and of the data array.
pub mod Candidates
pub mod Best
pub mod Sizes
pub mod Exact
pub mod Verified
pub mod Totality
use destiny_3d_cache.Prelude.{
  ℕ, ◌+◌, ◌-◌, ◌*◌, ◌/◌, ◌%◌, ◌^◌, Bool, true, Option, none, some, List, map, ◌==◌, ◌||◌, not, ltb,
  if◌then◌else◌, log2_int,
}
use destiny_3d_cache.Prelude.Outcome.{Outcome, ok, invalid, undefined}
use destiny_3d_cache.Prelude.Run.{Run, returns, exits, never_ends, outside, ◌>>=◌, run_all}
use destiny_3d_cache.Double.{Double}
use destiny_3d_cache.TypeDef.{MemoryType, data_array, tag, total_address_bit}
use destiny_3d_cache.Bank.{Bank}
use destiny_3d_cache.BankConfig.{BankConfig}
use destiny_3d_cache.InputParameter.{InputParameter}
use destiny_3d_cache.Search.{Point}
use destiny_3d_cache.Search.Loops.{Loop}
use destiny_3d_cache.Result.{Result, Limits, new_result, within_limits, compare_and_update}
use destiny_3d_cache.Nvsim.{Simulator, Globals, design_config, calculate}

-- `active mats per row * per column * active subarrays per row * per column`
abbrev pub active_product : Point → ℕ
active_product x =
    x.num_active_mat_per_row * x.num_active_mat_per_column * x.num_active_subarray_per_row
    * x.num_active_subarray_per_column

-- The variables of `nvsim` that its loops change.
pub record Exploration (D : Type 0) : Type 0 where
  pub globals : Globals D
  pub num_solution : ℕ
  pub num_designs : ℕ
  pub best : List (Result D)

-- The array that a loop searches.
pub record Target : Type 0 where
  pub memory_type : MemoryType
  pub capacity : ℕ
  pub block_size : ℕ
  pub associativity : ℕ

-- `VERIFY_DATA_CAPACITY` and `VERIFY_TAG_CAPACITY`: the bits of all subarrays.
abbrev pub organised : {D : Type 0} → Point → Bank D → ℕ
organised x b =
    b.subarray.num_column * b.subarray.num_row * b.num_column_mat * b.num_row_mat
    * b.num_column_subarray * b.num_row_subarray * x.stacked_die_count

-- The bits of a tag and its two flags. A negative number of them is outside of the model.
unfoldable pub tag_bits : {D : Type 0} → InputParameter D → Run ℕ
tag_bits p =
    if p.word_width == 0
      || p.associativity == 0
      || not (ltb (p.capacity * 8 / p.word_width / p.associativity) (2 ^ 31))
    then outside
    else sizes (log2_int (p.capacity * 8 / p.word_width / p.associativity))
        (log2_int (p.word_width / 8))
  where
    sizes : Option ℕ → Option ℕ → Run ℕ
    sizes (some index) (some offset) =
        if ltb total_address_bit (index + offset)
        then outside
        else returns (total_address_bit - index - offset + 2)
    sizes _ _ = outside

-- The bits of a tag that a point stores: a multiple of what it divides them by.
unfoldable pub tag_block_size : ℕ → ℕ → ℕ
tag_block_size bits parts = if bits % parts == 0 then bits else (bits / parts + 1) * parts

-- A body for each point of a loop, if the loop ends.
abbrev pub for_points :
    {D : Type 0}
    → Loop Point
    → (Point → Exploration D → Run (Exploration D))
    → Exploration D
    → Run (Exploration D)
for_points none step s = never_ends
for_points (some xs) step s = run_all step xs s

module _ {D : Type 0} ⦃d : Double D⦄ where
  -- `UPDATE_BEST_DATA` and `UPDATE_BEST_TAG`
  abbrev pub update_best : Result D → List (Result D) → List (Result D)
  update_best new = map (λ best. (compare_and_update best new).0)

  -- The second search counts only designs within the limits; the first one has none.
  abbrev pub allowed : Option (Limits D) → Bank D → Bool
  allowed none bank = true
  allowed (some l) bank = within_limits l bank

module _ {D : Type 0} ⦃d : Double D⦄ (sim : Simulator D) (p : InputParameter D) where
  -- `tempResult`, with the bank and the wires of a design
  abbrev pub temp_result : Globals D → Bank D → Result D
  temp_result g bank = record (new_result sim.fresh g.local_wire g.global_wire) { bank = bank }

  -- What follows `CALCULATE`.
  abbrev pub after_calculate :
      Option (Limits D) → Target → Point → Outcome (Bank D) → Exploration D → Run (Exploration D)
  after_calculate limits t x undefined s = outside
  after_calculate limits t x invalid s = returns (record s { num_designs = s.num_designs + 1 })
  after_calculate limits t x (ok bank) s =
      if allowed limits bank
      then (if organised x bank == t.capacity
          then returns (record s {
            num_designs = s.num_designs + 1;
            num_solution = s.num_solution + 1;
            best = update_best (temp_result s.globals bank) s.best;
          })
          else exits)
      else returns (record s { num_designs = s.num_designs + 1 })

  abbrev pub config_of : Target → Point → BankConfig
  config_of t x = design_config p t.memory_type t.capacity t.block_size t.associativity x

  -- The body of `BIGFOR`. A too aggressive partitioning is passed over.
  unfoldable pub design_step :
      Option (Limits D) → Target → Point → Exploration D → Run (Exploration D)
  design_step limits t x s =
      if t.block_size / active_product x == 0
      then returns s
      else after_calculate limits t x (calculate sim p s.globals (config_of t x)) s

  -- The body of `BIGFOR_TAG`
  unfoldable pub tag_step : ℕ → Point → Exploration D → Run (Exploration D)
  unfolding design_step tag_block_size
  tag_step bits x s =
      let block_size = tag_block_size bits (active_product x) in
      let target : Target = record {
        memory_type = tag;
        capacity = p.capacity * 8 / p.word_width * block_size;
        block_size = block_size;
        associativity = p.associativity;
      } in
      let here : Exploration D = record s {
        globals = record s.globals { layer_count = x.stacked_die_count };
      } in
      if bits / active_product x == 0
      then returns here
      else after_calculate none target x (calculate sim p here.globals (config_of target x)) here
