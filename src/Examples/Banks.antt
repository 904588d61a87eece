-- ===== src/Examples/Banks.antt =====
-- The capacity of small banks.
use destiny_3d_cache.Prelude.{◌≡◌, refl, arith, log2_ratio, log2_floor, log2_int}
use destiny_3d_cache.Prelude.Outcome.{IsOk, value, value-ok}
use destiny_3d_cache.TypeDef.{data_array}
use destiny_3d_cache.BankConfig.{bank_address_bits}
use destiny_3d_cache.BankConfig.Powers.{IsPowers, HoldsWords}
use destiny_3d_cache.BankConfig.Capacity.{organised_bits}
use destiny_3d_cache.BankWithHtree.{htree_initialize, route_start, mat_share}
use destiny_3d_cache.BankWithHtree.Routing.{
  route, first_level, rounds, vertical_step, horizontal_step, both_step, both_horizontal,
  both_vertical, last_cut,
}
use destiny_3d_cache.Mat.{mat_initialize, geometry, subarray_initialize, predecode}
use destiny_3d_cache.BankWithHtree.Capacity.{htree_data-capacity, htree_tag-capacity}
use destiny_3d_cache.BankWithoutHtree.{
  flat_initialize, routed_address, per_active_mat, flat_mat_share,
}
use destiny_3d_cache.BankWithoutHtree.Capacity.{flat_data-capacity, flat_tag-capacity}
use destiny_3d_cache.Examples.{four_mats, tag_mats, context, flat_context}

data_IsPowers : IsPowers (four_mats data_array)
data_IsPowers = record {
  row_mat = (1, refl);
  column_mat = (1, refl);
  active_mat_row = omega arith;
  active_mat_column = omega arith;
  row_subarray = (0, refl);
  column_subarray = (1, refl);
  active_row = (1, refl);
  active_column = (0, refl);
  active_row_le = omega arith;
  active_column_le = omega arith;
  sense_amp = (1, refl);
  lev1 = (0, refl);
  lev2 = (0, refl);
  ways = (0, refl);
  row_per_set = (0, refl);
}

tag_IsPowers : IsPowers tag_mats
tag_IsPowers = record {
  row_mat = (1, refl);
  column_mat = (1, refl);
  active_mat_row = omega arith;
  active_mat_column = omega arith;
  row_subarray = (0, refl);
  column_subarray = (1, refl);
  active_row = (1, refl);
  active_column = (0, refl);
  active_row_le = omega arith;
  active_column_le = omega arith;
  sense_amp = (1, refl);
  lev1 = (0, refl);
  lev2 = (0, refl);
  ways = (1, refl);
  row_per_set = (0, refl);
}

data_HoldsWords : HoldsWords (four_mats data_array) 7
data_HoldsWords = record { block = omega arith; die = omega arith; words = refl }

tag_HoldsWords : HoldsWords tag_mats 6
tag_HoldsWords = record { block = omega arith; die = omega arith; words = refl }

htree_data_IsOk : IsOk (htree_initialize context (four_mats data_array))
unfolding htree_initialize route_start route first_level rounds vertical_step horizontal_step
    both_step both_horizontal both_vertical last_cut mat_share bank_address_bits log2_ratio
    log2_floor log2_int mat_initialize geometry subarray_initialize predecode
htree_data_IsOk = tt

htree_data-capacity_example :
    organised_bits
      (four_mats data_array)
      (value (htree_initialize context (four_mats data_array)) htree_data_IsOk).mat
    ≡ 8192
htree_data-capacity_example =
    htree_data-capacity context (four_mats data_array) 7 _ data_IsPowers data_HoldsWords (6, refl)
      refl (value-ok (htree_initialize context (four_mats data_array)) htree_data_IsOk)

htree_tag_IsOk : IsOk (htree_initialize context tag_mats)
unfolding htree_initialize route_start route first_level rounds vertical_step horizontal_step
    both_step both_horizontal both_vertical last_cut mat_share bank_address_bits log2_ratio
    log2_floor log2_int mat_initialize geometry subarray_initialize predecode
htree_tag_IsOk = tt

htree_tag-capacity_example :
    organised_bits tag_mats (value (htree_initialize context tag_mats) htree_tag_IsOk).mat ≡ 4096
htree_tag-capacity_example =
    htree_tag-capacity context tag_mats 6 _ tag_IsPowers tag_HoldsWords (16, refl) refl
      (value-ok (htree_initialize context tag_mats) htree_tag_IsOk)

flat_data_IsOk : IsOk (flat_initialize flat_context (four_mats data_array))
unfolding flat_initialize routed_address per_active_mat flat_mat_share bank_address_bits log2_ratio
    log2_floor log2_int mat_initialize geometry subarray_initialize predecode
flat_data_IsOk = tt

flat_data-capacity_example :
    organised_bits
      (four_mats data_array)
      (value (flat_initialize flat_context (four_mats data_array)) flat_data_IsOk).mat
    ≡ 8192
flat_data-capacity_example =
    flat_data-capacity flat_context (four_mats data_array) 7 _ data_IsPowers data_HoldsWords
      (0, refl) (1, refl) (6, refl) refl
      (value-ok (flat_initialize flat_context (four_mats data_array)) flat_data_IsOk)

flat_tag_IsOk : IsOk (flat_initialize flat_context tag_mats)
unfolding flat_initialize routed_address per_active_mat flat_mat_share bank_address_bits log2_ratio
    log2_floor log2_int mat_initialize geometry subarray_initialize predecode
flat_tag_IsOk = tt

flat_tag-capacity_example :
    organised_bits tag_mats (value (flat_initialize flat_context tag_mats) flat_tag_IsOk).mat ≡ 4096
flat_tag-capacity_example =
    flat_tag-capacity flat_context tag_mats 6 _ tag_IsPowers tag_HoldsWords (0, refl) (1, refl)
      (16, refl) refl (value-ok (flat_initialize flat_context tag_mats) flat_tag_IsOk)
