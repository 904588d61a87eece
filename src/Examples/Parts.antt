-- ===== src/Examples/Parts.antt =====
-- The parts of the program on small inputs.
use destiny_3d_cache.Prelude.{
  ℕ, ◌≡◌, ◌↔◌, IsPowerOfTwo, refl, ◌*◌, ◌+◌, ◌^◌, ◌≤◌, ◌<◌, inr, arith, pos, [], none, true,
  log2_int,
}
use destiny_3d_cache.Prelude.Outcome.{IsOk, value, value-ok}
use destiny_3d_cache.TypeDef.{data_array, sram}
use destiny_3d_cache.Mat.{MatConfig, geometry, gating_bits, dimensions}
use destiny_3d_cache.Mat.Capacity.{IsRegular, held_ways, geometry-capacity}
use destiny_3d_cache.BankConfig.{Muxes, mux_product, way_muxes, extra_muxes}
use destiny_3d_cache.BankConfig.Products.{way_muxes-product}
use destiny_3d_cache.BankWithHtree.Routing.{
  Route, route, first_level, rounds, both_step, both_horizontal, both_vertical, horizontal_step,
  vertical_step, last_cut, check_bits,
}
use destiny_3d_cache.BankWithHtree.Routing.Halving.{Progress, route-Progress}
use destiny_3d_cache.Search.Loops.{Enumerates, doubling_fuel}
use destiny_3d_cache.Search.Doubling.{doubling_fuel-zero}
use destiny_3d_cache.Nvsim.Wires.{refine_wires}
use destiny_3d_cache.Nvsim.Wires.Choices.{InWires, refine_wires-Enumerates}
use destiny_3d_cache.Nvsim.Explore.{tag_block_size}
use destiny_3d_cache.Nvsim.Explore.Verified.{tag_block_size_lem}
use destiny_3d_cache.PredecodeBlock.{PredecodeBlock, decoders}
use destiny_3d_cache.PredecodeBlock.Outputs.{decoders_lem}
use destiny_3d_cache.Formula.{is_pow2, is_pow2_lem}
use destiny_3d_cache.Examples.{range}

doubling_fuel-zero_example : doubling_fuel 9 0 8 ≡ none
doubling_fuel-zero_example = doubling_fuel-zero 9 8

refine_wires_example :
    Enumerates
      (refine_wires (range 0 1) (range 0 7) (range 0 1))
      (InWires (range 0 1) (range 0 7) (range 0 1))
refine_wires_example = refine_wires-Enumerates (range 0 1) (range 0 7) (range 0 1)

tag_block_size_example :
    ((k : ℕ) × (tag_block_size 30 8 ≡ k * 8))
    × (30 ≤ tag_block_size 30 8)
    × (tag_block_size 30 8 < 38)
tag_block_size_example = tag_block_size_lem 30 8 (omega arith)

decoders_example :
    (decoders 10).num_decoder12 + 2 * (decoders 10).num_decoder24 + 3 * (decoders 10).num_decoder38
    ≡ 10
decoders_example = decoders_lem 10 (omega arith)

abbrev muxes : Muxes
muxes = record { sense_amp = 2; lev1 = 1; lev2 = 1 }

way_muxes_IsOk : IsOk (way_muxes sram (2 ^ 3) muxes)
unfolding way_muxes extra_muxes log2_int
way_muxes_IsOk = tt

way_muxes_example :
    mux_product (value (way_muxes sram (2 ^ 3) muxes) way_muxes_IsOk) ≡ mux_product muxes * 2 ^ 3
way_muxes_example =
    way_muxes-product sram 3 muxes _ (value-ok (way_muxes sram (2 ^ 3) muxes) way_muxes_IsOk)

-- A mat of two subarrays, which takes 6 address bits and 32 data bits.
abbrev small_mat : MatConfig
small_mat = record {
  num_row_subarray = 1;
  num_column_subarray = 2;
  num_address_bit = pos 6;
  num_data_bit = 32;
  num_way = 1;
  num_row_per_set = 1;
  num_active_subarray_per_row = 2;
  num_active_subarray_per_column = 1;
  mux_sense_amp = 2;
  internal_sense_amp = true;
  mux_output_lev1 = 1;
  mux_output_lev2 = 1;
  area_optimization_level = 0;
  memory_type = data_array;
  stacked_die_count = 1;
  partition_granularity = 0;
  monolithic_stack_count = 1;
}

small_mat-IsRegular : IsRegular small_mat 6
small_mat-IsRegular = record {
  address = refl;
  idle_rows = (0, refl);
  idle_columns = (0, refl);
  active_column = omega arith;
  active_row = omega arith;
  mux = (1, refl);
  ways = (0, refl);
  data_bits = (16, refl);
}

geometry_example : 32 * 32 * 2 ≡ 2 ^ 6 * 32 * held_ways small_mat
unfolding geometry gating_bits dimensions log2_int
geometry_example = geometry-capacity small_mat 6 32 32 6 small_mat-IsRegular refl

-- Two rows and two columns of mats, of which both columns are active: 128 words of 64 bits.
abbrev four_mats_route : Route
four_mats_route = record {
  level_horizontal = 1;
  level_vertical = 1;
  broadcast = 0;
  row_to_active = 1;
  column_to_active = 2;
  address = pos 7;
  distribute = 64;
  horizontal = [];
  vertical = [];
  h_temp = 1;
  v_temp = 1;
}

route_IsOk : IsOk (route four_mats_route)
unfolding route first_level rounds both_step both_horizontal both_vertical horizontal_step
    vertical_step last_cut check_bits
route_IsOk = tt

route_example : Progress (64 * 128) 2 four_mats_route (value (route four_mats_route) route_IsOk)
route_example =
    route-Progress (64 * 128) four_mats_route _ (λ z. ground (arith, z))
      (value-ok (route four_mats_route) route_IsOk) (inr (6, 7, refl, refl, refl))

is_pow2_example : (is_pow2 (pos 64) ≡ true) ↔ ((n : ℕ) × (pos 64 ≡ pos n) × IsPowerOfTwo n)
is_pow2_example = is_pow2_lem (pos 64) (omega arith)
