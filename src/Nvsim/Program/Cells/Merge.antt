-- ===== src/Nvsim/Program/Cells/Merge.antt =====
-- What the comparison of the memory cells keeps.
use destiny_3d_cache.Prelude.{
  ℕ, suc, ◌≡◌, refl, sym, ◌∙◌, subst, Bool, true, false, ◌&&◌, some, List, [], ◌∷◌, ◌⊎◌, inl, inr,
  All, Bool-cases, arith,
}
use destiny_3d_cache.Double.{Double, IsOrdered, IsNumber, ◌≼◌}
use destiny_3d_cache.TypeDef.{OptimizationTarget}
use destiny_3d_cache.Result.{Limits, within_limits, improves, compare_and_update}
use destiny_3d_cache.Result.Best.{metric, step_lem}
use destiny_3d_cache.Nvsim.Program.Cells.{Pair, merge_cell, merge_cells}

-- The designs of both arrays in `best` are those that `new` has found.
pub record SameDesigns {D : Type 0} (best new : Pair D) : Type 0 where
  pub data_bank : best.data_result.bank ≡ new.data_result.bank
  pub data_local : best.data_result.local_wire ≡ new.data_result.local_wire
  pub data_global : best.data_result.global_wire ≡ new.data_result.global_wire
  pub tag_bank : best.tag_result.bank ≡ new.tag_result.bank
  pub tag_local : best.tag_result.local_wire ≡ new.tag_result.local_wire
  pub tag_global : best.tag_result.global_wire ≡ new.tag_result.global_wire

-- Both arrays are those of one cell, which both results name.
abbrev pub FromCell : {D : Type 0} → Pair D → ℕ → Pair D → Type 0
FromCell new cell best =
    SameDesigns best new
    × ((best.data_result.cell_tech ≡ some cell) × (best.tag_result.cell_tech ≡ some cell))

-- One of the cells of a list, numbered from `cell` on.
abbrev pub FromSome : {D : Type 0} → List (Pair D) → ℕ → Pair D → Type 0
FromSome [] cell best = ⊥
FromSome (new ∷ rest) cell best = FromCell new cell best ⊎ FromSome rest (suc cell) best

module _ {D : Type 0} ⦃d : Double D⦄ where
  merge_cell-FromCell :
      (cell : ℕ) (new best : Pair D)
      → (merge_cell false cell new best ≡ best) ⊎ FromCell new cell (merge_cell false cell new best)
  unfolding merge_cell compare_and_update
  merge_cell-FromCell cell new best =
      elim (Bool-cases (
        within_limits best.data_result.limits new.data_result.bank
        && improves best.data_result.optimization_target new.data_result.bank
            best.data_result.bank)) [
              | inl better ↦ inr (
                  rw better (
                    record {
                      data_bank = refl;
                      data_local = refl;
                      data_global = refl;
                      tag_bank = refl;
                      tag_local = refl;
                      tag_global = refl;
                    },
                    (refl, refl),
                  ))
              | inr worse ↦ inl (rw worse refl)
            ]

  -- If the tag array must have the technology of the data array, the designs kept for both arrays
  -- are those of one of the cells, which both results name, or nothing has changed.
  pub merge_cells-FromSome :
      (cell : ℕ) (cells : List (Pair D)) (best : Pair D)
      → (merge_cells false cell cells best ≡ best)
        ⊎ FromSome cells cell (merge_cells false cell cells best)
  unfolding merge_cells
  merge_cells-FromSome cell [] best = inl refl
  merge_cells-FromSome cell (new ∷ rest) best =
      let next = merge_cell false cell new best in
      elim (merge_cells-FromSome (suc cell) rest next) [
        | inl kept ↦ elim (merge_cell-FromCell cell new best) [
          | inl same ↦ inl (kept ∙ same)
          | inr here ↦ inr (inl (subst (FromCell new cell) (sym kept) here))
        ]
        | inr later ↦ inr (inr later)
      ]

  merge_cell-data :
      (different : Bool) (cell : ℕ) (new best : Pair D)
      → let r = (compare_and_update best.data_result new.data_result).0 in
        ((merge_cell different cell new best).data_result.bank ≡ r.bank)
        × ((merge_cell different cell new best).data_result.optimization_target
            ≡ r.optimization_target)
        × ((merge_cell different cell new best).data_result.limits ≡ r.limits)
  unfolding merge_cell
  merge_cell-data different cell new best = ground arith

  module _ (laws : IsOrdered D) (t : OptimizationTarget) (l : Limits D) where
    open laws use {le_trans, number_of_le}

    merge_run :
        (different : Bool) (cell : ℕ) (cells : List (Pair D)) (best : Pair D)
        → best.data_result.optimization_target ≡ t
        → best.data_result.limits ≡ l
        → IsNumber (metric t best.data_result.bank)
        → let kept = metric t (merge_cells different cell cells best).data_result.bank in
          (kept ≼ metric t best.data_result.bank)
          × All
              (λ c. within_limits l c.data_result.bank ≡ true → kept ≼ metric t c.data_result.bank)
              cells
    unfolding merge_cells
    merge_run different cell [] best et el n = (n, tt)
    merge_run different cell (new ∷ rest) best et el n =
        let next = merge_cell different cell new best in
        let (eb, et', el') = merge_cell-data different cell new best in
        let (st, sl, down, below_new) =
          step_lem laws t l best.data_result new.data_result et el n in
        let down' = subst (λ b. metric t b ≼ metric t best.data_result.bank) (sym eb) down in
        let (below, later) =
          merge_run different (suc cell) rest next (et' ∙ st) (el' ∙ sl)
            (number_of_le _ _ down').0 in
        (
          le_trans _ _ _ below down',
          (
            λ h.
                le_trans _ _ _ below
                  (subst (λ b. metric t b ≼ metric t new.data_result.bank) (sym eb) (below_new h)),
            later,
          ),
        )

  -- Whatever the technology of the tag array, the figure of the kept data array is at most that of
  -- each cell within the limits, and at most the one from before, if that is a number and the
  -- comparisons are those of IEEE 754.
  pub merge_cells-le :
      (laws : IsOrdered D) (different : Bool) (cell : ℕ) (cells : List (Pair D)) (best : Pair D)
      → IsNumber (metric best.data_result.optimization_target best.data_result.bank)
      → let t = best.data_result.optimization_target in
        let kept = metric t (merge_cells different cell cells best).data_result.bank in
        (kept ≼ metric t best.data_result.bank)
        × All
            (λ c.
              within_limits best.data_result.limits c.data_result.bank ≡ true
              → kept ≼ metric t c.data_result.bank)
            cells
  merge_cells-le laws different cell cells best n =
      merge_run laws best.data_result.optimization_target best.data_result.limits different cell
        cells best refl refl n
