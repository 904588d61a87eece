-- ===== src/BankConfig/Capacity.antt =====
-- The bits that the mats of a bank hold, from what each mat is given.
use destiny_3d_cache.Prelude.{
  ℤ, ℕ, ◌+◌, ◌*◌, ◌/◌, ◌^◌, ◌≤◌, ◌≡◌, refl, sym, ap, ◌∙◌, arith, pos, IsPowerOfTwo, pow-add,
  div-pow_exact,
}
use native.Mathlib.Nat.{pow-zero, zero-div}
use destiny_3d_cache.Prelude.Outcome.{ok, >>=-ok}
use destiny_3d_cache.TypeDef.{MemoryType, data_array, tag}
use destiny_3d_cache.Mat.{
  Mat, Context, clamped, geometry, gating_bits, mat_initialize, when_data, when_tag,
}
use destiny_3d_cache.Mat.Capacity.{
  IsRegular, held_ways, geometry-capacity, dimensions-ok, mat_initialize-geometry,
}
use destiny_3d_cache.BankConfig.{BankConfig, mux_product, Share, mat_config}
use destiny_3d_cache.BankConfig.Powers.{
  IsPowers, HoldsWords, clamp-eq_self, power_multiple, IsPowerOfTwo-pos, IsPowerOfTwo-mul,
}

-- The organisation that the code checks against the capacity, `VERIFY_DATA_CAPACITY`.
abbrev pub organised_bits : BankConfig → Mat → ℕ
organised_bits c m =
    m.subarray.num_column * m.subarray.num_row * c.num_column_mat * c.num_row_mat
    * c.num_column_subarray * c.num_row_subarray * c.stacked_die_count

-- What a mat is given: `n` address bits, and data bits that the active subarrays divide.
pub clamped-IsRegular :
    (c : BankConfig) (address : ℤ) (share : Share) (n : ℕ)
    → IsPowers c
    → address ≡ pos n
    → IsPowerOfTwo (mux_product share.muxes)
    → IsPowerOfTwo (when_data c.memory_type share.num_way)
    → ((d : ℕ) × (share.mat_block_size
          ≡ d * (c.num_active_subarray_per_row * c.num_active_subarray_per_column)))
    → IsRegular (mat_config c address share) n
clamped-IsRegular c address share n p e mux ways data_bits = record {
  address = e;
  idle_rows = power_multiple _ _ p.row_subarray p.active_column p.active_column_le;
  idle_columns = power_multiple _ _ p.column_subarray p.active_row p.active_row_le;
  active_column = IsPowerOfTwo-pos _ p.active_column;
  active_row = IsPowerOfTwo-pos _ p.active_row;
  mux = mux;
  ways = ways;
  data_bits = data_bits;
}

pub mat_config-clamped :
    (c : BankConfig) (address : ℤ) (share : Share)
    → IsPowers c
    → clamped (mat_config c address share) ≡ mat_config c address share
mat_config-clamped c address share p =
    rw (clamp-eq_self _ _ p.active_row_le, clamp-eq_self _ _ p.active_column_le) refl

-- Data bits that are a power of two and leave a column for each active subarray divide among them.
pub data_bits_divide :
    (e : ℕ) (a b : ℕ)
    → IsPowerOfTwo a
    → IsPowerOfTwo b
    → 1 ≤ 2 ^ e / (a * b)
    → (d : ℕ) × (2 ^ e ≡ d * (a * b))
data_bits_divide e a b pa pb h =
    let (k, ek) = IsPowerOfTwo-mul a b pa pb in
    let (j, split) = div-pow_exact e k (rw ek at h) in
    (2 ^ j, ap (λ (t : ℕ). 2 ^ t) split ∙ (pow-add j k ∙ ap (λ (t : ℕ). 2 ^ j * t) (sym ek)))

-- The bits of all mats, from the share of one.
pub organised-share :
    (g : Context) (c : BankConfig) (address : ℤ) (share : Share) (n : ℕ) (m : Mat) (p : IsPowers c)
    → IsRegular (mat_config c address share) n
    → mat_initialize g (mat_config c address share) ≡ ok m
    → organised_bits c m
      ≡ 2 ^ n
        * share.mat_block_size
        * held_ways (mat_config c address share)
        * 2 ^ (p.column_mat.0 + p.row_mat.0)
        * c.stacked_die_count
organised-share g c address share n m p regular h =
    let (bits, e) = mat_initialize-geometry g (mat_config c address share) m h in
    let geo = ap geometry (sym (mat_config-clamped c address share p)) ∙ e in
    let total =
      geometry-capacity (mat_config c address share) n m.subarray.num_row m.subarray.num_column bits
        regular geo in
    rw (pow-add p.column_mat.0 p.row_mat.0, ← p.column_mat.1, ← p.row_mat.1, ← total) (omega arith)

-- The share of a mat of a data array keeps a column for each active subarray.
pub data_columns :
    (g : Context) (c : BankConfig) (address : ℤ) (share : Share) (m : Mat)
    → IsPowers c
    → mat_initialize g (mat_config c address share) ≡ ok m
    → 1 ≤ share.mat_block_size / (c.num_active_subarray_per_row * c.num_active_subarray_per_column)
unfolding geometry
data_columns g c address share m p h =
    let (bits, e) = mat_initialize-geometry g (mat_config c address share) m h in
    let geo = ap geometry (sym (mat_config-clamped c address share p)) ∙ e in
    let (gating, _, found) = >>=-ok (gating_bits (mat_config c address share)) _ geo in
    (dimensions-ok (mat_config c address share) gating _ _ bits found).4

-- No data bit leaves no column.
pub no_columns : (x d y : ℕ) → x ≡ d → d ≡ 0 → ¬ (1 ≤ x / y)
no_columns x d y e z h = omega (arith, zero-div y, ap (λ (t : ℕ). t / y) (e ∙ z))

-- The bits of the words of all mats are those of the bank, for the ways `a` and the dies `d`.
pub regroup_words : (e n q k w a d : ℕ) → e * n * q ≡ k * w → n * e * a * q * d ≡ w * (k * a * d)
regroup_words e n q k w a d h = omega (arith, ap (λ (t : ℕ). t * (a * d)) h)

module _ (g : Context) (c : BankConfig) (n : ℕ) (p : IsPowers c) (w : HoldsWords c n) (address : ℤ)
    (share : Share) (m : Mat) (built : mat_initialize g (mat_config c address share) ≡ ok m)
    (mux : IsPowerOfTwo (mux_product share.muxes)) (e n' : ℕ) (words : address ≡ pos n') where
  -- A mat of a data array with all ways and 2^e data bits of each word.
  pub data_share-capacity :
      (k : ℕ)
      → c.block_size ≡ 2 ^ k
      → c.memory_type ≡ data_array
      → share.mat_block_size ≡ 2 ^ e
      → share.num_way ≡ c.associativity
      → 2 ^ e * 2 ^ n' * 2 ^ (p.column_mat.0 + p.row_mat.0) ≡ 2 ^ k * 2 ^ n
      → organised_bits c m ≡ c.capacity
  data_share-capacity k ek et bits ways total =
      let (a, ea) = p.ways in
      let columns = data_columns g c address share m p built in
      let divide = data_bits_divide e _ _ p.active_row p.active_column (rw (← bits) columns) in
      let power : IsPowerOfTwo (when_data c.memory_type share.num_way) =
        (a, ap (λ (t : MemoryType). when_data t share.num_way) et ∙ (ways ∙ ea)) in
      let regular =
        clamped-IsRegular c address share n' p words mux power (divide.0, bits ∙ divide.1) in
      let held : held_ways (mat_config c address share) ≡ c.associativity =
        ap (λ (t : MemoryType). when_data t share.num_way * when_tag t share.num_way) et
        ∙ omega (arith, ways) in
      organised-share g c address share n' m p regular built
      ∙ rw (bits, held, w.words, ek)
          (regroup_words (2 ^ e) (2 ^ n') _ (2 ^ k) (2 ^ n) c.associativity c.stacked_die_count
            total)

  -- A mat of a tag array with 2^e ways and all bits of each tag.
  pub tag_share-capacity :
      ((d : ℕ) × (c.block_size
          ≡ d * (c.num_active_subarray_per_row * c.num_active_subarray_per_column)))
      → c.memory_type ≡ tag
      → share.mat_block_size ≡ c.block_size
      → share.num_way ≡ 2 ^ e
      → 2 ^ e * 2 ^ n' * 2 ^ (p.column_mat.0 + p.row_mat.0) ≡ c.associativity * 2 ^ n
      → organised_bits c m ≡ c.capacity
  tag_share-capacity (d, divide) et bits ways total =
      let power : IsPowerOfTwo (when_data c.memory_type share.num_way) =
        (0, ap (λ (t : MemoryType). when_data t share.num_way) et ∙ sym (pow-zero 2)) in
      let regular = clamped-IsRegular c address share n' p words mux power (d, bits ∙ divide) in
      let held : held_ways (mat_config c address share) ≡ 2 ^ e =
        ap (λ (t : MemoryType). when_data t share.num_way * when_tag t share.num_way) et
        ∙ omega (arith, ways) in
      let all =
        regroup_words (2 ^ e) (2 ^ n') _ c.associativity (2 ^ n) c.block_size c.stacked_die_count
          total in
      organised-share g c address share n' m p regular built
      ∙ rw (bits, held, w.words) (omega (arith, all))
