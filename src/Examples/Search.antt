-- ===== src/Examples/Search.antt =====
-- The search of the small memory.
use destiny_3d_cache.Prelude.{◌≡◌, refl, none, [], ◌∷◌, arith, log2_ratio, log2_floor, log2_int}
use destiny_3d_cache.Prelude.Outcome.{IsOk, value}
use destiny_3d_cache.Prelude.Run.{exits, IsReturned, result}
use destiny_3d_cache.Double.Whole.{Whole, whole_double}
use destiny_3d_cache.TypeDef.{data_array}
use destiny_3d_cache.Bank.{Bank}
use destiny_3d_cache.Search.{Point, bigfor}
use destiny_3d_cache.Search.Loops.{doubling, counting, append_loop, for_each, ◌>>=◌}
use destiny_3d_cache.Search.Size.{data_points, tag_points}
use destiny_3d_cache.Nvsim.{calculate}
use destiny_3d_cache.Nvsim.Explore.{
  Exploration, Target, design_step, tag_step, for_points, config_of,
}
use destiny_3d_cache.Nvsim.Explore.Sizes.{StartsAtPowers}
use destiny_3d_cache.Nvsim.Explore.Verified.{data_search-never_exits, tag_search-never_exits}
use destiny_3d_cache.BankConfig.{bank_address_bits}
use destiny_3d_cache.BankWithHtree.{htree_initialize, route_start, mat_share}
use destiny_3d_cache.BankWithHtree.Routing.{
  route, first_level, rounds, vertical_step, horizontal_step, both_step, last_cut,
}
use destiny_3d_cache.Mat.{mat_initialize, geometry, subarray_initialize, predecode}
use destiny_3d_cache.Examples.{parameter, simulator, globals, start_result, space, range}

abbrev small_target : Target
small_target = record {
  memory_type = data_array;
  capacity = 8192;
  block_size = 64;
  associativity = 1;
}

abbrev small_start : Exploration Whole
small_start = record {
  globals = globals;
  num_solution = 0;
  num_designs = 0;
  best = start_result ∷ [];
}

space-StartsAtPowers : StartsAtPowers space (range 1 1) (range 1 1)
space-StartsAtPowers = record {
  row_mat = (0, refl);
  column_mat = (0, refl);
  die = (0, refl);
  active_mat_row = (0, refl);
  active_mat_column = (0, refl);
  row_subarray = (0, refl);
  column_subarray = (0, refl);
  active_subarray_row = (0, refl);
  active_subarray_column = (0, refl);
  sense_amp = (0, refl);
  lev1 = (0, refl);
  lev2 = (0, refl);
  row_per_set = (0, refl);
}

-- One row and two columns of mats.
abbrev two_columns : Point
two_columns = record {
  mats = record {
    num_row_mat = 1;
    num_column_mat = 2;
    stacked_die_count = 1;
    num_active_mat_per_row = 1;
    num_active_mat_per_column = 1;
  };
  subarrays = record {
    num_row_subarray = 1;
    num_column_subarray = 1;
    num_active_subarray_per_row = 1;
    num_active_subarray_per_column = 1;
  };
  muxes = record {
    mux_sense_amp = 1;
    mux_output_lev1 = 1;
    mux_output_lev2 = 1;
    num_row_per_set = 1;
    area_optimization_level = 0;
  };
}

data_search_example : ¬ (
    for_points
      (data_points parameter)
      (design_step simulator parameter none small_target)
      small_start
    ≡ exits)
data_search_example =
    data_search-never_exits simulator parameter none small_target 7 small_start space-StartsAtPowers
      (omega arith) refl (6, refl) (0, refl) refl

tag_search_example :
    ¬ (for_points (tag_points parameter) (tag_step simulator parameter 30) small_start ≡ exits)
tag_search_example =
    tag_search-never_exits simulator parameter 30 7 small_start space-StartsAtPowers (omega arith)
      (0, refl) refl

search_IsReturned : IsReturned (
    for_points
      (data_points parameter)
      (design_step simulator parameter none small_target)
      small_start)
unfolding bigfor for_each ◌>>=◌ doubling counting append_loop design_step calculate htree_initialize
    route_start bank_address_bits log2_ratio log2_floor log2_int route first_level rounds last_cut
    mat_share mat_initialize geometry subarray_initialize predecode both_step horizontal_step
    vertical_step
search_IsReturned = tt

-- What the search leaves.
abbrev found : Exploration Whole
found =
    result
      (for_points (data_points parameter) (design_step simulator parameter none small_target)
        small_start)
      search_IsReturned

two_columns_IsOk :
    IsOk (
      calculate simulator parameter globals
        (config_of simulator parameter small_target two_columns))
unfolding calculate htree_initialize route_start bank_address_bits log2_ratio log2_floor log2_int
    route first_level rounds last_cut mat_share mat_initialize geometry subarray_initialize
    predecode both_step horizontal_step vertical_step
two_columns_IsOk = tt

abbrev two_columns_bank : Bank Whole
two_columns_bank =
    value
      (calculate simulator parameter globals
        (config_of simulator parameter small_target two_columns))
      two_columns_IsOk
