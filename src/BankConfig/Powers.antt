-- ===== src/BankConfig/Powers.antt =====
-- The configurations that the search visits: counts that are powers of two, and active parts that
-- do not exceed what there is.
use destiny_3d_cache.Prelude.{
  ℕ, ◌+◌, ◌-◌, ◌*◌, ◌^◌, ◌≤◌, ◌≡◌, refl, sym, ap, ◌∙◌, arith, pos, Bool-cases, inl, inr, ltb,
  IsPowerOfTwo, min, pow-add, pow-pos, pow-lt, log2_ratio-pow,
}
use native.Mathlib.Decide.{dec_lt}
use destiny_3d_cache.Prelude.Outcome.{ok}
use destiny_3d_cache.Mat.{clamp}
use destiny_3d_cache.BankConfig.{BankConfig, bank_clamped, bank_address_bits}

pub record IsPowers (c : BankConfig) : Type 0 where
  pub row_mat : IsPowerOfTwo c.num_row_mat
  pub column_mat : IsPowerOfTwo c.num_column_mat
  pub active_mat_row : c.num_active_mat_per_row ≤ c.num_column_mat
  pub active_mat_column : c.num_active_mat_per_column ≤ c.num_row_mat
  pub row_subarray : IsPowerOfTwo c.num_row_subarray
  pub column_subarray : IsPowerOfTwo c.num_column_subarray
  pub active_row : IsPowerOfTwo c.num_active_subarray_per_row
  pub active_column : IsPowerOfTwo c.num_active_subarray_per_column
  pub active_row_le : c.num_active_subarray_per_row ≤ c.num_column_subarray
  pub active_column_le : c.num_active_subarray_per_column ≤ c.num_row_subarray
  pub sense_amp : IsPowerOfTwo c.mux_sense_amp
  pub lev1 : IsPowerOfTwo c.mux_output_lev1
  pub lev2 : IsPowerOfTwo c.mux_output_lev2
  pub ways : IsPowerOfTwo c.associativity
  pub row_per_set : IsPowerOfTwo c.num_row_per_set

-- The capacity is 2^n words of the block size for each way and die.
pub record HoldsWords (c : BankConfig) (n : ℕ) : Type 0 where
  pub block : 1 ≤ c.block_size
  pub die : 1 ≤ c.stacked_die_count
  pub words : c.capacity ≡ 2 ^ n * (c.block_size * c.associativity * c.stacked_die_count)

pub clamp-eq_self : (a b : ℕ) → a ≤ b → clamp a b ≡ a
clamp-eq_self a b h = ground arith

pub bank_clamped-eq_self : (c : BankConfig) → IsPowers c → bank_clamped c ≡ c
bank_clamped-eq_self c p =
    rw
      (
        clamp-eq_self _ _ p.active_mat_row,
        clamp-eq_self _ _ p.active_mat_column,
        clamp-eq_self _ _ p.active_row_le,
        clamp-eq_self _ _ p.active_column_le,
      )
      refl

-- The smaller of two powers of two divides the other.
pub power_multiple : (x y : ℕ) → IsPowerOfTwo x → IsPowerOfTwo y → y ≤ x → (i : ℕ) × (x ≡ 2 ^ i * y)
power_multiple x y (p, ex) (b, ey) h = elim (dec_lt p b) [
  | yes less ↦ absurd (omega (arith, pow-lt less))
  | no more ↦
      let e : p ≡ p - b + b = omega arith in
      (p - b, ex ∙ (ap (λ (t : ℕ). 2 ^ t) e ∙ rw ey (pow-add (p - b) b)))
]

pub IsPowerOfTwo-pos : (x : ℕ) → IsPowerOfTwo x → 1 ≤ x
IsPowerOfTwo-pos x (k, e) = omega (arith, pow-pos k)

pub IsPowerOfTwo-mul : (x y : ℕ) → IsPowerOfTwo x → IsPowerOfTwo y → IsPowerOfTwo (x * y)
IsPowerOfTwo-mul x y (a, ea) (b, eb) = (a + b, rw (ea, eb) (sym (pow-add a b)))

pub bank_address_bits-eq :
    (c : BankConfig) (n : ℕ) → IsPowers c → HoldsWords c n → bank_address_bits c ≡ ok (pos n)
unfolding bank_address_bits
bank_address_bits-eq c n p w =
    let positive : 1 ≤ c.block_size * c.associativity =
      grind (arith, w.block, IsPowerOfTwo-pos _ p.ways) in
    elim (Bool-cases (ltb 1 c.stacked_die_count)) [
      | inl many ↦
          let full : 1 ≤ c.block_size * c.associativity * c.stacked_die_count =
            grind (arith, w.die) in
          rw (many, w.words, log2_ratio-pow n _ full) refl
      | inr single ↦
          let one : c.stacked_die_count ≡ 1 = ground (arith, w.die) in
          let e : 2 ^ n * (c.block_size * c.associativity * c.stacked_die_count)
              ≡ 2 ^ n * (c.block_size * c.associativity) =
            rw one (omega arith) in
          rw (single, w.words, e, log2_ratio-pow n _ positive) refl
    ]

pub pow-le_iff : (a b : ℕ) → 2 ^ b ≤ 2 ^ a → b ≤ a
pow-le_iff a b h = elim (dec_lt a b) [
  | yes less ↦ absurd (omega (arith, pow-lt less))
  | no more ↦ omega arith
]

-- What `min` does to a bound that doubles.
pub IsPowerOfTwo-min : (x y : ℕ) → IsPowerOfTwo x → IsPowerOfTwo y → IsPowerOfTwo (min x y)
IsPowerOfTwo-min x y px py = elim (dec_lt x y) [
  | yes less ↦ let e : min x y ≡ x = omega arith in rw e px
  | no more ↦ let e : min x y ≡ y = omega arith in rw e py
]
