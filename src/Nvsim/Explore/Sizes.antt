-- ===== src/Nvsim/Explore/Sizes.antt =====
-- The arguments that the search passes to `Initialize`, where its bounds are powers of two.
use destiny_3d_cache.Prelude.{
  ℕ, ◌+◌, ◌-◌, ◌*◌, ◌^◌, ◌≤◌, ◌≡◌, sym, ap, ◌∙◌, arith, min, IsPowerOfTwo, pow-add, pow-pos,
}
use destiny_3d_cache.InputParameter.{InputParameter, ArraySpace, Range}
use destiny_3d_cache.TypeDef.{MemoryType}
use destiny_3d_cache.BankConfig.Powers.{IsPowers, HoldsWords, IsPowerOfTwo-min, pow-le_iff}
use destiny_3d_cache.Search.{Point}
use destiny_3d_cache.Search.Loops.{IsDoubled}
use destiny_3d_cache.Search.Space.{InSpace}
use destiny_3d_cache.Nvsim.{design_config}

-- The lower bounds are powers of two.
pub record StartsAtPowers (s : ArraySpace) (rows layers : Range) : Type 0 where
  pub row_mat : IsPowerOfTwo s.num_row_mat.lo
  pub column_mat : IsPowerOfTwo s.num_column_mat.lo
  pub die : IsPowerOfTwo layers.lo
  pub active_mat_row : IsPowerOfTwo s.num_active_mat_per_row.lo
  pub active_mat_column : IsPowerOfTwo s.num_active_mat_per_column.lo
  pub row_subarray : IsPowerOfTwo s.num_row_subarray.lo
  pub column_subarray : IsPowerOfTwo s.num_column_subarray.lo
  pub active_subarray_row : IsPowerOfTwo s.num_active_subarray_per_row.lo
  pub active_subarray_column : IsPowerOfTwo s.num_active_subarray_per_column.lo
  pub sense_amp : IsPowerOfTwo s.mux_sense_amp.lo
  pub lev1 : IsPowerOfTwo s.mux_output_lev1.lo
  pub lev2 : IsPowerOfTwo s.mux_output_lev2.lo
  pub row_per_set : IsPowerOfTwo rows.lo

doubled-IsPowerOfTwo : (lo hi x : ℕ) → IsPowerOfTwo lo → IsDoubled lo hi x → IsPowerOfTwo x
doubled-IsPowerOfTwo lo hi x (a, ea) (k, e, _) =
    (a + k, e ∙ (ap (λ (t : ℕ). t * 2 ^ k) ea ∙ sym (pow-add a k)))

-- A count of active parts: it starts from the bound or from what there is.
active-IsPowerOfTwo :
    (total lo hi x : ℕ)
    → IsPowerOfTwo total
    → IsPowerOfTwo lo
    → IsDoubled (min total lo) (min total hi) x
    → IsPowerOfTwo x
active-IsPowerOfTwo total lo hi x pt pl h =
    doubled-IsPowerOfTwo _ _ x (IsPowerOfTwo-min total lo pt pl) h

active-le : (total lo hi x : ℕ) → IsDoubled (min total lo) (min total hi) x → x ≤ total
active-le total lo hi x (k, e, le) = omega (arith, le)

module _ {D : Type 0} (p : InputParameter D) (s : ArraySpace) (rows layers : Range) (a : ℕ)
    (x : Point) where
  pub design-IsPowers :
      (m : MemoryType) (capacity block_size associativity : ℕ)
      → IsPowerOfTwo associativity
      → StartsAtPowers s rows layers
      → InSpace s rows layers a x
      → IsPowers (design_config p m capacity block_size associativity x)
  design-IsPowers m capacity block_size associativity ways q h =
      let row_mat = doubled-IsPowerOfTwo _ _ _ q.row_mat h.mats.row_mat in
      let column_mat = doubled-IsPowerOfTwo _ _ _ q.column_mat h.mats.column_mat in
      let row_sub = doubled-IsPowerOfTwo _ _ _ q.row_subarray h.subarrays.row_subarray in
      let column_sub = doubled-IsPowerOfTwo _ _ _ q.column_subarray h.subarrays.column_subarray in
      record {
        row_mat = row_mat;
        column_mat = column_mat;
        active_mat_row = active-le _ _ _ _ h.mats.active_row;
        active_mat_column = active-le _ _ _ _ h.mats.active_column;
        row_subarray = row_sub;
        column_subarray = column_sub;
        active_row =
            active-IsPowerOfTwo _ _ _ _ column_sub q.active_subarray_row h.subarrays.active_row;
        active_column =
            active-IsPowerOfTwo _ _ _ _ row_sub q.active_subarray_column h.subarrays.active_column;
        active_row_le = active-le _ _ _ _ h.subarrays.active_row;
        active_column_le = active-le _ _ _ _ h.subarrays.active_column;
        sense_amp = doubled-IsPowerOfTwo _ _ _ q.sense_amp h.muxes.sense_amp;
        lev1 = doubled-IsPowerOfTwo _ _ _ q.lev1 h.muxes.lev1;
        lev2 = doubled-IsPowerOfTwo _ _ _ q.lev2 h.muxes.lev2;
        ways = ways;
        row_per_set = doubled-IsPowerOfTwo _ _ _ q.row_per_set h.muxes.row_per_set;
      }

  -- The active mats of a design are powers of two too.
  pub active_mats-IsPowerOfTwo :
      StartsAtPowers s rows layers
      → InSpace s rows layers a x
      → IsPowerOfTwo x.num_active_mat_per_column × IsPowerOfTwo x.num_active_mat_per_row
  active_mats-IsPowerOfTwo q h = (
    active-IsPowerOfTwo _ _ _ _ (doubled-IsPowerOfTwo _ _ _ q.row_mat h.mats.row_mat)
        q.active_mat_column h.mats.active_column,
    active-IsPowerOfTwo _ _ _ _ (doubled-IsPowerOfTwo _ _ _ q.column_mat h.mats.column_mat)
        q.active_mat_row h.mats.active_row,
  )

  -- A capacity of 2^N words, on as many dies as the space allows, of which there are at most 2^N:
  -- for each die there are no more words.
  pub design-HoldsWords :
      (m : MemoryType) (capacity block_size associativity total : ℕ)
      → 1 ≤ block_size
      → layers.hi ≤ 2 ^ total
      → capacity ≡ 2 ^ total * (block_size * associativity)
      → StartsAtPowers s rows layers
      → InSpace s rows layers a x
      → (n : ℕ) × HoldsWords (design_config p m capacity block_size associativity x) n × (n ≤ total)
  design-HoldsWords m capacity block_size associativity total block few words q h =
      let (k, ek) = doubled-IsPowerOfTwo _ _ _ q.die h.mats.die in
      let le : k ≤ total = pow-le_iff total k (omega (arith, few, h.mats.die.2)) in
      let split : total ≡ total - k + k = omega arith in
      let power : 2 ^ total ≡ 2 ^ (total - k) * 2 ^ k =
        ap (λ (t : ℕ). 2 ^ t) split ∙ pow-add (total - k) k in
      (
        total - k,
        record {
          block = block;
          die = omega (arith, pow-pos k);
          words = rw (words, power, ek) (omega arith);
        },
        omega arith,
      )
