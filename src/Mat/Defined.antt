-- ===== src/Mat/Defined.antt =====
-- A mat of powers of two is initialised without undefined behaviour.
use destiny_3d_cache.Prelude.{
  ℕ, ◌*◌, ◌/◌, ◌≤◌, ◌<◌, ◌≡◌, refl, ap, ◌∙◌, subst, not, ◌&&◌, ltb, arith, IsPowerOfTwo, log2_int,
  ◌==◌, sub_int, ℤ, pos, negsuc, pred_int, zero, suc,
}
use destiny_3d_cache.Prelude.Outcome.{◌>>=◌, reject_if, quotient, shift_one, defined, quotient-ok}
use destiny_3d_cache.Prelude.Defined.{
  IsDefined, >>=-IsDefined, reject_if-IsDefined, quotient-IsDefined, shift_one-IsDefined,
  log2_int-IsDefined,
}
use destiny_3d_cache.TypeDef.{
  MemCellType, sram, dram, edram, mram, pcram, memristor, fbram, slc_nand, mlc_nand,
}
use destiny_3d_cache.Mat.{
  Context, SubArray, MatConfig, cell_forbids, holds_all_ways, subarray_initialize, clamped,
  gating_bits, dimensions, geometry, mux_degree, positive_part, predecode, mat_initialize,
  subarray_of, when_data,
}

cell_forbids-IsDefined :
    (g : Context) (a : SubArray) (t : MemCellType)
    → (t ≡ slc_nand → 1 ≤ g.page_size)
    → IsDefined (cell_forbids g a t)
cell_forbids-IsDefined g a dram h = tt
cell_forbids-IsDefined g a edram h = tt
cell_forbids-IsDefined g a slc_nand h =
    >>=-IsDefined (quotient g.flash_block_size g.page_size) _ (quotient-IsDefined _ _ (h refl))
      λ _ _. tt
cell_forbids-IsDefined g a memristor h = tt
cell_forbids-IsDefined g a fbram h = tt
cell_forbids-IsDefined g a sram h = tt
cell_forbids-IsDefined g a mram h = tt
cell_forbids-IsDefined g a pcram h = tt
cell_forbids-IsDefined g a mlc_nand h = tt

subarray_initialize-IsDefined :
    (g : Context) (a : SubArray)
    → (g.mem_cell_type ≡ slc_nand → 1 ≤ g.page_size)
    → IsDefined (subarray_initialize g a)
unfolding subarray_initialize
subarray_initialize-IsDefined g a h =
    >>=-IsDefined
      (reject_if
        (holds_all_ways g.design_target g.cache_access_mode && ltb a.num_column g.associativity))
      _ (reject_if-IsDefined _)
      λ _ _.
        >>=-IsDefined (cell_forbids g a g.mem_cell_type) _ (cell_forbids-IsDefined g a _ h)
          λ forbidden _. >>=-IsDefined (reject_if forbidden) _ (reject_if-IsDefined _) λ _ _.
            >>=-IsDefined
              (reject_if (
                not (
                  g.electrical a.num_row a.num_column a.mux_sense_amp a.mux_output_lev1
                    a.mux_output_lev2)))
              _ (reject_if-IsDefined _) λ _ _. tt

-- What keeps a mat from undefined behaviour: fewer than 31 address bits, and powers of two.
pub record IsSafe (c : MatConfig) : Type 0 where
  pub address : positive_part c.num_address_bit < 31
  pub idle : IsPowerOfTwo (
      c.num_row_subarray * c.num_column_subarray / c.num_active_subarray_per_column
      / c.num_active_subarray_per_row)
  pub active_column : 1 ≤ c.num_active_subarray_per_column
  pub active_row : 1 ≤ c.num_active_subarray_per_row
  pub sense_amp : IsPowerOfTwo c.mux_sense_amp
  pub lev1 : IsPowerOfTwo c.mux_output_lev1
  pub lev2 : IsPowerOfTwo c.mux_output_lev2
  pub mux : IsPowerOfTwo (mux_degree c)
  pub mux_pos : 1 ≤ mux_degree c

pub positive_part-pred_le : (x : ℤ) → positive_part (pred_int x) ≤ positive_part x
positive_part-pred_le (pos zero) = omega arith
positive_part-pred_le (pos (suc n)) = omega arith
positive_part-pred_le (negsuc n) = omega arith

pub positive_part-sub_le : (x : ℤ) (g : ℕ) → positive_part (sub_int x g) ≤ positive_part x
positive_part-sub_le x zero = omega arith
positive_part-sub_le x (suc g) =
    omega (arith, positive_part-sub_le (pred_int x) g, positive_part-pred_le x)

gating_bits-IsDefined : (c : MatConfig) → IsSafe c → IsDefined (gating_bits c)
unfolding gating_bits
gating_bits-IsDefined c s =
    let all = c.num_row_subarray * c.num_column_subarray in
    >>=-IsDefined (quotient all c.num_active_subarray_per_column) _
      (quotient-IsDefined _ _ s.active_column)
      λ by_column e1.
        >>=-IsDefined (quotient by_column c.num_active_subarray_per_row) _
          (quotient-IsDefined _ _ s.active_row)
          λ idle e2.
            let e : all / c.num_active_subarray_per_column / c.num_active_subarray_per_row ≡ idle =
              ap (λ (t : ℕ). t / c.num_active_subarray_per_row) (quotient-ok _ _ e1)
              ∙ quotient-ok _ _ e2 in
            log2_int-IsDefined idle (subst IsPowerOfTwo e s.idle)

dimensions-IsDefined : (c : MatConfig) (g : ℕ) → IsSafe c → IsDefined (dimensions c g)
unfolding dimensions
dimensions-IsDefined c g s =
    let bits = positive_part (sub_int c.num_address_bit g) in
    >>=-IsDefined (reject_if (bits == 0)) _ (reject_if-IsDefined _) λ _ _.
      >>=-IsDefined (shift_one bits) _
        (shift_one-IsDefined bits
          (omega (arith, s.address, positive_part-sub_le c.num_address_bit g)))
        λ selected _.
          >>=-IsDefined (quotient (selected * when_data c.memory_type c.num_way) (mux_degree c)) _
            (quotient-IsDefined _ _ s.mux_pos)
            λ rows _. >>=-IsDefined (reject_if (rows == 0)) _ (reject_if-IsDefined _) λ _ _.
              >>=-IsDefined
                (quotient c.num_data_bit
                  (c.num_active_subarray_per_row * c.num_active_subarray_per_column))
                _ (quotient-IsDefined _ _ (grind (arith, s.active_row, s.active_column)))
                λ columns _.
                  >>=-IsDefined (reject_if (columns == 0)) _ (reject_if-IsDefined _) λ _ _. tt

predecode-IsDefined :
    (c : MatConfig) (bits : ℕ) (a : SubArray) → IsSafe c → IsDefined (predecode c bits a)
unfolding predecode
predecode-IsDefined c bits a s =
    >>=-IsDefined (defined (log2_int (mux_degree c))) _ (log2_int-IsDefined _ s.mux) λ mux_bits _.
      >>=-IsDefined (reject_if (ltb bits mux_bits)) _ (reject_if-IsDefined _) λ _ _.
        >>=-IsDefined (defined (log2_int c.mux_sense_amp)) _ (log2_int-IsDefined _ s.sense_amp)
          λ _ _.
            >>=-IsDefined (defined (log2_int c.mux_output_lev1)) _ (log2_int-IsDefined _ s.lev1)
              λ _ _.
                >>=-IsDefined (defined (log2_int c.mux_output_lev2)) _ (log2_int-IsDefined _ s.lev2)
                  λ _ _. tt

pub mat_initialize-IsDefined :
    (g : Context) (c : MatConfig)
    → (g.mem_cell_type ≡ slc_nand → 1 ≤ g.page_size)
    → IsSafe (clamped c)
    → IsDefined (mat_initialize g c)
unfolding mat_initialize geometry
mat_initialize-IsDefined g c h s =
    >>=-IsDefined (gating_bits (clamped c) >>= dimensions (clamped c)) _
      (>>=-IsDefined (gating_bits (clamped c)) _ (gating_bits-IsDefined _ s)
        λ gating _. dimensions-IsDefined _ gating s)
      λ found _.
        >>=-IsDefined (subarray_initialize g (subarray_of (clamped c) found.0 found.1)) _
          (subarray_initialize-IsDefined g _ h) λ a _. predecode-IsDefined (clamped c) found.2 a s
