-- ===== src/Search.antt =====
-- macros.h: the loops `BIGFOR` and `BIGFOR_TAG` over the designs of a bank.
pub mod Loops
pub mod Doubling
pub mod Space
pub mod Size
use destiny_3d_cache.Prelude.{ℕ, min}
use destiny_3d_cache.InputParameter.{InputParameter, ArraySpace, Range}
use Loops.{Loop, yield_point, ◌>>=◌, doubling, counting}

pub record MatPoint : Type 0 where
  pub num_row_mat : ℕ
  pub num_column_mat : ℕ
  pub stacked_die_count : ℕ
  pub num_active_mat_per_row : ℕ
  pub num_active_mat_per_column : ℕ

pub record SubArrayPoint : Type 0 where
  pub num_row_subarray : ℕ
  pub num_column_subarray : ℕ
  pub num_active_subarray_per_row : ℕ
  pub num_active_subarray_per_column : ℕ

pub record MuxPoint : Type 0 where
  pub mux_sense_amp : ℕ
  pub mux_output_lev1 : ℕ
  pub mux_output_lev2 : ℕ
  pub num_row_per_set : ℕ
  pub area_optimization_level : ℕ

-- The variables of the fourteen loops.
pub record Point : Type 0 where
  pub mats : MatPoint
  pub open mats use *
  pub subarrays : SubArrayPoint
  pub open subarrays use *
  pub muxes : MuxPoint
  pub open muxes use *

-- the first five loops
pub for_mats : ArraySpace → Range → Loop MatPoint
for_mats s layers = do
  row ← doubling s.num_row_mat.lo s.num_row_mat.hi
  col ← doubling s.num_column_mat.lo s.num_column_mat.hi
  die ← doubling layers.lo layers.hi
  per_row ← doubling (min col s.num_active_mat_per_row.lo) (min col s.num_active_mat_per_row.hi)
  per_col ←
      doubling (min row s.num_active_mat_per_column.lo) (min row s.num_active_mat_per_column.hi)
  yield_point (record {
    num_row_mat = row;
    num_column_mat = col;
    stacked_die_count = die;
    num_active_mat_per_row = per_row;
    num_active_mat_per_column = per_col;
  })

-- the next four
pub for_subarrays : ArraySpace → Loop SubArrayPoint
for_subarrays s = do
  row ← doubling s.num_row_subarray.lo s.num_row_subarray.hi
  col ← doubling s.num_column_subarray.lo s.num_column_subarray.hi
  per_row ←
      doubling (min col s.num_active_subarray_per_row.lo) (min col s.num_active_subarray_per_row.hi)
  per_col ←
      doubling (min row s.num_active_subarray_per_column.lo)
        (min row s.num_active_subarray_per_column.hi)
  yield_point (record {
    num_row_subarray = row;
    num_column_subarray = col;
    num_active_subarray_per_row = per_row;
    num_active_subarray_per_column = per_col;
  })

-- the last five
pub for_muxes : ArraySpace → Range → ℕ → Loop MuxPoint
for_muxes s rows associativity = do
  amp ← doubling s.mux_sense_amp.lo s.mux_sense_amp.hi
  lev1 ← doubling s.mux_output_lev1.lo s.mux_output_lev1.hi
  lev2 ← doubling s.mux_output_lev2.lo s.mux_output_lev2.hi
  set_rows ← doubling rows.lo (min rows.hi associativity)
  level ← counting s.area_optimization_level.lo s.area_optimization_level.hi
  yield_point (record {
    mux_sense_amp = amp;
    mux_output_lev1 = lev1;
    mux_output_lev2 = lev2;
    num_row_per_set = set_rows;
    area_optimization_level = level;
  })

-- `BIGFOR` over the space of the data array, `BIGFOR_TAG` over that of the tag array
unfoldable pub bigfor : ArraySpace → (num_row_per_set stack_layer : Range) → ℕ → Loop Point
unfolding for_mats for_subarrays for_muxes
bigfor s rows layers associativity = do
  mats ← for_mats s layers
  subarrays ← for_subarrays s
  muxes ← for_muxes s rows associativity
  yield_point (record { mats = mats; subarrays = subarrays; muxes = muxes })
