-- ===== src/Search/Space.antt =====
-- The designs that the loops visit.
use destiny_3d_cache.Prelude.{ℕ, ◌≤◌, refl, subst, min, arith, pow-pos}
use destiny_3d_cache.InputParameter.{ArraySpace, Range}
use destiny_3d_cache.Search.{
  MatPoint, SubArrayPoint, MuxPoint, Point, for_mats, for_subarrays, for_muxes, bigfor,
}
use destiny_3d_cache.Search.Loops.{
  Enumerates, Enumerates-iff, yield_point-Enumerates, bind-Enumerates, IsDoubled, IsBetween,
}
use destiny_3d_cache.Search.Doubling.{doubling-Enumerates, counting-Enumerates}

-- The lower bounds are at least 1.
pub record IsPositive (s : ArraySpace) (rows layers : Range) : Type 0 where
  pub row_mat : 1 ≤ s.num_row_mat.lo
  pub column_mat : 1 ≤ s.num_column_mat.lo
  pub die : 1 ≤ layers.lo
  pub active_mat_row : 1 ≤ s.num_active_mat_per_row.lo
  pub active_mat_column : 1 ≤ s.num_active_mat_per_column.lo
  pub row_subarray : 1 ≤ s.num_row_subarray.lo
  pub column_subarray : 1 ≤ s.num_column_subarray.lo
  pub active_subarray_row : 1 ≤ s.num_active_subarray_per_row.lo
  pub active_subarray_column : 1 ≤ s.num_active_subarray_per_column.lo
  pub sense_amp : 1 ≤ s.mux_sense_amp.lo
  pub lev1 : 1 ≤ s.mux_output_lev1.lo
  pub lev2 : 1 ≤ s.mux_output_lev2.lo
  pub row_per_set : 1 ≤ rows.lo

pub record InMats (s : ArraySpace) (layers : Range) (p : MatPoint) : Type 0 where
  pub row_mat : IsDoubled s.num_row_mat.lo s.num_row_mat.hi p.num_row_mat
  pub column_mat : IsDoubled s.num_column_mat.lo s.num_column_mat.hi p.num_column_mat
  pub die : IsDoubled layers.lo layers.hi p.stacked_die_count
  pub active_row :
      IsDoubled
        (min p.num_column_mat s.num_active_mat_per_row.lo)
        (min p.num_column_mat s.num_active_mat_per_row.hi)
        p.num_active_mat_per_row
  pub active_column :
      IsDoubled
        (min p.num_row_mat s.num_active_mat_per_column.lo)
        (min p.num_row_mat s.num_active_mat_per_column.hi)
        p.num_active_mat_per_column

pub record InSubArrays (s : ArraySpace) (p : SubArrayPoint) : Type 0 where
  pub row_subarray : IsDoubled s.num_row_subarray.lo s.num_row_subarray.hi p.num_row_subarray
  pub column_subarray :
      IsDoubled s.num_column_subarray.lo s.num_column_subarray.hi p.num_column_subarray
  pub active_row :
      IsDoubled
        (min p.num_column_subarray s.num_active_subarray_per_row.lo)
        (min p.num_column_subarray s.num_active_subarray_per_row.hi)
        p.num_active_subarray_per_row
  pub active_column :
      IsDoubled
        (min p.num_row_subarray s.num_active_subarray_per_column.lo)
        (min p.num_row_subarray s.num_active_subarray_per_column.hi)
        p.num_active_subarray_per_column

pub record InMuxes (s : ArraySpace) (rows : Range) (associativity : ℕ) (p : MuxPoint) : Type 0 where
  pub sense_amp : IsDoubled s.mux_sense_amp.lo s.mux_sense_amp.hi p.mux_sense_amp
  pub lev1 : IsDoubled s.mux_output_lev1.lo s.mux_output_lev1.hi p.mux_output_lev1
  pub lev2 : IsDoubled s.mux_output_lev2.lo s.mux_output_lev2.hi p.mux_output_lev2
  pub row_per_set : IsDoubled rows.lo (min rows.hi associativity) p.num_row_per_set
  pub level :
      IsBetween s.area_optimization_level.lo s.area_optimization_level.hi p.area_optimization_level

pub record InSpace (s : ArraySpace) (rows layers : Range) (associativity : ℕ) (p : Point)
    : Type 0 where
  pub mats : InMats s layers p.mats
  pub subarrays : InSubArrays s p.subarrays
  pub muxes : InMuxes s rows associativity p.muxes

IsDoubled-pos : (lo hi x : ℕ) → 1 ≤ lo → IsDoubled lo hi x → 1 ≤ x
IsDoubled-pos lo hi x h (k, e, le) = grind (arith, pow-pos k)

module _ (s : ArraySpace) (rows layers : Range) (positive : IsPositive s rows layers) where
  open positive use {
    row_mat, column_mat, die, active_mat_row, active_mat_column, row_subarray, column_subarray,
    active_subarray_row, active_subarray_column, sense_amp, lev1, lev2, row_per_set,
  }

  for_mats-Enumerates : Enumerates (for_mats s layers) (InMats s layers)
  unfolding for_mats
  for_mats-Enumerates =
      Enumerates-iff _
        (λ p. (
          λ (row, hr, (col, hc, (die, hd, (pr, hpr, (pc, hpc, e))))).
              subst (InMats s layers) e (record {
                row_mat = hr;
                column_mat = hc;
                die = hd;
                active_row = hpr;
                active_column = hpc;
              }),
          λ h. (
            p.num_row_mat,
            h.row_mat,
            (
              p.num_column_mat,
              h.column_mat,
              (
                p.stacked_die_count,
                h.die,
                (
                  p.num_active_mat_per_row,
                  h.active_row,
                  (p.num_active_mat_per_column, h.active_column, refl),
                ),
              ),
            ),
          ),
        ))
        (bind-Enumerates _ _ (doubling-Enumerates _ _ row_mat) λ row hr.
          bind-Enumerates _ _ (doubling-Enumerates _ _ column_mat) λ col hc.
            bind-Enumerates _ _ (doubling-Enumerates _ _ die) λ dies hd.
              bind-Enumerates _ _
                (doubling-Enumerates _ _
                  (let c = IsDoubled-pos _ _ col column_mat hc in omega arith))
                λ pr hpr.
                  bind-Enumerates _ _
                    (doubling-Enumerates _ _
                      (let c = IsDoubled-pos _ _ row row_mat hr in omega arith))
                    λ pc hpc. yield_point-Enumerates _)

  for_subarrays-Enumerates : Enumerates (for_subarrays s) (InSubArrays s)
  unfolding for_subarrays
  for_subarrays-Enumerates =
      Enumerates-iff _
        (λ p. (
          λ (row, hr, (col, hc, (pr, hpr, (pc, hpc, e)))). subst (InSubArrays s) e (record {
            row_subarray = hr;
            column_subarray = hc;
            active_row = hpr;
            active_column = hpc;
          }),
          λ h. (
            p.num_row_subarray,
            h.row_subarray,
            (
              p.num_column_subarray,
              h.column_subarray,
              (
                p.num_active_subarray_per_row,
                h.active_row,
                (p.num_active_subarray_per_column, h.active_column, refl),
              ),
            ),
          ),
        ))
        (bind-Enumerates _ _ (doubling-Enumerates _ _ row_subarray) λ row hr.
          bind-Enumerates _ _ (doubling-Enumerates _ _ column_subarray) λ col hc.
            bind-Enumerates _ _
              (doubling-Enumerates _ _
                (let c = IsDoubled-pos _ _ col column_subarray hc in omega arith))
              λ pr hpr.
                bind-Enumerates _ _
                  (doubling-Enumerates _ _
                    (let c = IsDoubled-pos _ _ row row_subarray hr in omega arith))
                  λ pc hpc. yield_point-Enumerates _)

  for_muxes-Enumerates : (a : ℕ) → Enumerates (for_muxes s rows a) (InMuxes s rows a)
  unfolding for_muxes
  for_muxes-Enumerates a =
      Enumerates-iff _
        (λ p. (
          λ (amp, ha, (l1, h1, (l2, h2, (set, hs, (level, hl, e))))).
              subst (InMuxes s rows a) e
                (record { sense_amp = ha; lev1 = h1; lev2 = h2; row_per_set = hs; level = hl }),
          λ h. (
            p.mux_sense_amp,
            h.sense_amp,
            (
              p.mux_output_lev1,
              h.lev1,
              (
                p.mux_output_lev2,
                h.lev2,
                (p.num_row_per_set, h.row_per_set, (p.area_optimization_level, h.level, refl)),
              ),
            ),
          ),
        ))
        (bind-Enumerates _ _ (doubling-Enumerates _ _ sense_amp) λ amp ha.
          bind-Enumerates _ _ (doubling-Enumerates _ _ lev1) λ l1 h1.
            bind-Enumerates _ _ (doubling-Enumerates _ _ lev2) λ l2 h2.
              bind-Enumerates _ _ (doubling-Enumerates _ _ row_per_set) λ set hs.
                bind-Enumerates _ _ (counting-Enumerates _ _) λ level hl. yield_point-Enumerates _)

  pub bigfor-Enumerates : (a : ℕ) → Enumerates (bigfor s rows layers a) (InSpace s rows layers a)
  unfolding bigfor
  bigfor-Enumerates a =
      Enumerates-iff _
        (λ p. (
          λ (mats, hm, (subarrays, hs, (muxes, hx, e))).
              subst (InSpace s rows layers a) e (record { mats = hm; subarrays = hs; muxes = hx }),
          λ h. (p.mats, h.mats, (p.subarrays, h.subarrays, (p.muxes, h.muxes, refl))),
        ))
        (bind-Enumerates _ _ for_mats-Enumerates λ mats hm.
          bind-Enumerates _ _ for_subarrays-Enumerates λ subarrays hs.
            bind-Enumerates _ _ (for_muxes-Enumerates a) λ muxes hx. yield_point-Enumerates _)
