-- ===== src/Mat/Capacity.antt =====
-- A mat holds as many bits as its address and data bits ask for.
use native.Mathlib.Nat.{mul-div_cancel}
use destiny_3d_cache.Prelude.{
  ℕ, zero, suc, ◌+◌, ◌-◌, ◌*◌, ◌/◌, ◌^◌, ◌≤◌, ◌≡◌, refl, sym, ap, ◌∙◌, false, ◌==◌, arith, pos,
  negsuc, sub_int, log2_int-pow, IsPowerOfTwo, pow-add, div-pow, div-pow_exact,
}
use destiny_3d_cache.Prelude.Outcome.{ok, >>=-ok}
use destiny_3d_cache.Mat.{
  mat_initialize, subarray_initialize, predecode, subarray_of, SubArray, Mat, Context, clamped,
  MatConfig, geometry, gating_bits, dimensions, mux_degree, positive_part, when_data, when_tag,
}

pub sub_int_negsuc : (k g : ℕ) → positive_part (sub_int (negsuc k) g) ≡ 0
sub_int_negsuc k zero = refl
sub_int_negsuc k (suc g) = sub_int_negsuc (suc k) g

positive_part-sub_int : (n g : ℕ) → positive_part (sub_int (pos n) g) ≡ n - g
positive_part-sub_int n zero = omega arith
positive_part-sub_int zero (suc g) = omega (arith, sub_int_negsuc 0 g)
positive_part-sub_int (suc n) (suc g) = omega (arith, positive_part-sub_int n g)

regroup :
    (r M B W d T P Q a b : ℕ)
    → r * M ≡ B * W
    → r * (d * M * T) * (P * b * (Q * a)) ≡ B * (P * Q) * (d * (a * b)) * (W * T)
regroup r M B W d T P Q a b e = omega (arith, ap (λ (t : ℕ). t * (d * T * (P * Q * (a * b)))) e)

-- The configurations that the search builds from powers of two: `n` address bits, and counts that
-- divide one another.
pub record IsRegular (c : MatConfig) (n : ℕ) : Type 0 where
  pub address : c.num_address_bit ≡ pos n
  pub idle_rows : (i : ℕ) × (c.num_row_subarray ≡ 2 ^ i * c.num_active_subarray_per_column)
  pub idle_columns : (j : ℕ) × (c.num_column_subarray ≡ 2 ^ j * c.num_active_subarray_per_row)
  pub active_column : 1 ≤ c.num_active_subarray_per_column
  pub active_row : 1 ≤ c.num_active_subarray_per_row
  pub mux : IsPowerOfTwo (mux_degree c)
  pub ways : IsPowerOfTwo (when_data c.memory_type c.num_way)
  pub data_bits :
      (d : ℕ) × (c.num_data_bit
        ≡ d * (c.num_active_subarray_per_row * c.num_active_subarray_per_column))

-- the ways of a set that the mat holds
abbrev pub held_ways : MatConfig → ℕ
held_ways c = when_data c.memory_type c.num_way * when_tag c.memory_type c.num_way

idle_subarrays : (i j b a : ℕ) → 1 ≤ b → 1 ≤ a → 2 ^ i * b * (2 ^ j * a) / b / a ≡ 2 ^ (i + j)
idle_subarrays i j b a hb ha =
    let e : 2 ^ i * b * (2 ^ j * a) ≡ 2 ^ i * 2 ^ j * a * b = omega arith in
    rw (e, mul-div_cancel (2 ^ i * 2 ^ j * a) hb, mul-div_cancel (2 ^ i * 2 ^ j) ha, pow-add i j)
      refl

rows_exact :
    (bits w m r : ℕ)
    → 2 ^ bits * 2 ^ w / 2 ^ m ≡ r
    → (r == 0) ≡ false
    → r * 2 ^ m ≡ 2 ^ bits * 2 ^ w
rows_exact bits w m r e nonzero =
    let e' : 2 ^ (bits + w) / 2 ^ m ≡ r = rw (pow-add bits w) e in
    let (j, split) = div-pow_exact (bits + w) m (ground arith) in
    let exact : r ≡ 2 ^ j = sym e' ∙ (ap (λ (t : ℕ). 2 ^ t / 2 ^ m) split ∙ div-pow j m) in
    rw exact (sym (pow-add j m) ∙ (ap (λ (t : ℕ). 2 ^ t) (sym split) ∙ pow-add bits w))

gating_bits-regular :
    (c : MatConfig) (n : ℕ) (r : IsRegular c n)
    → gating_bits c ≡ ok (r.idle_rows.0 + r.idle_columns.0)
unfolding gating_bits
gating_bits-regular c n r =
    let (i, ei) = r.idle_rows in
    let (j, ej) = r.idle_columns in
    let b = c.num_active_subarray_per_column in
    let a = c.num_active_subarray_per_row in
    let hb : (b == 0) ≡ false = ground (arith, r.active_column) in
    let ha : (a == 0) ≡ false = ground (arith, r.active_row) in
    rw (hb, ha, ei, ej, idle_subarrays i j b a r.active_column r.active_row, log2_int-pow (i + j))
      refl

-- What a legal organisation says of its numbers.
pub dimensions-ok :
    (c : MatConfig) (g rows columns bits : ℕ)
    → dimensions c g ≡ ok (rows, columns, bits)
    → let ways = when_data c.memory_type c.num_way in
      let active = c.num_active_subarray_per_row * c.num_active_subarray_per_column in
      (bits ≡ positive_part (sub_int c.num_address_bit g))
      × (1 ≤ bits)
      × (2 ^ bits * ways / mux_degree c ≡ rows)
      × ((rows == 0) ≡ false)
      × (1 ≤ c.num_data_bit / active)
      × (columns ≡ c.num_data_bit / active * mux_degree c * when_tag c.memory_type c.num_way)
unfolding dimensions
dimensions-ok c g rows columns bits h = ground arith

-- If the organisation of a mat is legal, and its counts divide one another as powers of two do,
-- then its subarrays together hold 2^n words, where n is the number of its address bits, each of
-- its data bits for each way that it holds.
pub geometry-capacity :
    (c : MatConfig) (n rows columns bits : ℕ)
    → IsRegular c n
    → geometry c ≡ ok (rows, columns, bits)
    → rows * columns * (c.num_row_subarray * c.num_column_subarray)
      ≡ 2 ^ n * c.num_data_bit * held_ways c
unfolding geometry
geometry-capacity c n rows columns bits r h =
    let (i, ei) = r.idle_rows in
    let (j, ej) = r.idle_columns in
    let (m, em) = r.mux in
    let (w, ew) = r.ways in
    let (d, ed) = r.data_bits in
    let a = c.num_active_subarray_per_row in
    let b = c.num_active_subarray_per_column in
    let first : geometry c ≡ dimensions c (i + j) = rw (gating_bits-regular c n r) refl in
    let (eb, positive, er, nonzero, _, ec) =
      dimensions-ok c (i + j) rows columns bits (sym first ∙ h) in
    let eb' : bits ≡ n - (i + j) = eb ∙ (rw r.address refl ∙ positive_part-sub_int n (i + j)) in
    let power : 2 ^ n ≡ 2 ^ bits * (2 ^ i * 2 ^ j) =
      let e : n ≡ bits + (i + j) = omega arith in rw (e, pow-add bits (i + j), pow-add i j) refl in
    let exact : rows * 2 ^ m ≡ 2 ^ bits * 2 ^ w =
      rows_exact bits w m rows (rw (← ew, ← em) er) nonzero in
    let share : c.num_data_bit / (a * b) ≡ d =
      rw ed (mul-div_cancel d (grind (arith, r.active_row, r.active_column))) in
    rw (ec, share, power, ei, ej, ed, em, ew)
      (regroup rows (2 ^ m) (2 ^ bits) (2 ^ w) d _ (2 ^ i) (2 ^ j) a b exact)

predecode-subarray :
    (c : MatConfig) (bits : ℕ) (a : SubArray) (m : Mat) → predecode c bits a ≡ ok m → a ≡ m.subarray
unfolding predecode
predecode-subarray c bits a m h = ground arith

subarray_initialize-same :
    (g : Context) (a a' : SubArray) → subarray_initialize g a ≡ ok a' → a ≡ a'
unfolding subarray_initialize
subarray_initialize-same g a a' h = ground arith

-- The subarray of a mat is the one that the geometry asks for.
pub mat_initialize-geometry :
    (g : Context) (c : MatConfig) (m : Mat)
    → mat_initialize g c ≡ ok m
    → (bits : ℕ) × (geometry (clamped c) ≡ ok (m.subarray.num_row, m.subarray.num_column, bits))
unfolding mat_initialize
mat_initialize-geometry g c m h =
    let (found, e1, h1) = >>=-ok (geometry (clamped c)) _ h in
    let (rows, columns, bits) = found in
    let (a, e2, h2) = >>=-ok (subarray_initialize g (subarray_of (clamped c) rows columns)) _ h1 in
    let same = subarray_initialize-same g _ a e2 ∙ predecode-subarray (clamped c) bits a m h2 in
    (bits, e1 ∙ ap (λ (s : SubArray). ok (s.num_row, s.num_column, bits)) same)
