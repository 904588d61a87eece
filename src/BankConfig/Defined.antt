-- ===== src/BankConfig/Defined.antt =====
-- The parts of both kinds of `Initialize` are free of undefined behaviour for powers of two.
use destiny_3d_cache.Prelude.{
  ℕ, ◌+◌, ◌-◌, ◌*◌, ◌/◌, ◌^◌, ◌≤◌, ◌<◌, ◌≡◌, refl, sym, ap, ◌∙◌, subst, arith, IsPowerOfTwo, ltb,
  Bool-cases, inl, inr, ℤ, pow-add, log2_int-pow,
}
use native.Mathlib.Nat.{mul-div_cancel}
use destiny_3d_cache.Prelude.Outcome.{ok, quotient, reject_if, reject_if-ok}
use destiny_3d_cache.TypeDef.{MemCellType, dram, edram}
use destiny_3d_cache.Mat.{clamped, positive_part}
use destiny_3d_cache.Mat.Defined.{IsSafe}
use destiny_3d_cache.BankConfig.{
  BankConfig, Muxes, Share, given_muxes, extra_muxes, way_muxes, mat_config,
}
use destiny_3d_cache.BankConfig.Products.{quotient-pow}
use destiny_3d_cache.BankConfig.Powers.{
  IsPowers, pow-le_iff, IsPowerOfTwo-mul, IsPowerOfTwo-pos, power_multiple,
}
use destiny_3d_cache.BankConfig.Capacity.{mat_config-clamped}

pub record ArePowers (m : Muxes) : Type 0 where
  pub sense_amp : IsPowerOfTwo m.sense_amp
  pub lev1 : IsPowerOfTwo m.lev1
  pub lev2 : IsPowerOfTwo m.lev2

-- More muxes for a power of two of ways are powers of two.
extra_muxes-ArePowers :
    (t : MemCellType) (w : ℕ) (m : Muxes)
    → ArePowers m
    → (m' : Muxes) × (extra_muxes t (2 ^ w) m ≡ ok m') × ArePowers m'
unfolding extra_muxes
extra_muxes-ArePowers dram w m p = (
  _,
  rw (log2_int-pow w, quotient-pow w (w / 2) (omega arith)) refl,
  record {
    sense_amp = p.sense_amp;
    lev1 = IsPowerOfTwo-mul _ _ p.lev1 (w - w / 2, refl);
    lev2 = IsPowerOfTwo-mul _ _ p.lev2 (w / 2, refl);
  },
)
extra_muxes-ArePowers edram w m p = (
  _,
  rw (log2_int-pow w, quotient-pow w (w / 2) (omega arith)) refl,
  record {
    sense_amp = p.sense_amp;
    lev1 = IsPowerOfTwo-mul _ _ p.lev1 (w - w / 2, refl);
    lev2 = IsPowerOfTwo-mul _ _ p.lev2 (w / 2, refl);
  },
)
extra_muxes-ArePowers _ w m p = (
  _,
  rw
      (
        log2_int-pow w,
        quotient-pow w (w / 3) (omega arith),
        quotient-pow (w - w / 3) (w / 3) (omega arith),
      )
      refl,
  record {
    sense_amp = IsPowerOfTwo-mul _ _ p.sense_amp (w - w / 3 - w / 3, refl);
    lev1 = IsPowerOfTwo-mul _ _ p.lev1 (w / 3, refl);
    lev2 = IsPowerOfTwo-mul _ _ p.lev2 (w / 3, refl);
  },
)

pub way_muxes-ArePowers :
    (t : MemCellType) (w : ℕ) (m : Muxes)
    → ArePowers m
    → (m' : Muxes) × (way_muxes t (2 ^ w) m ≡ ok m') × ArePowers m'
unfolding way_muxes
way_muxes-ArePowers t w m p = elim (Bool-cases (ltb 1 (2 ^ w))) [
  | inl more ↦ let (m', e, p') = extra_muxes-ArePowers t w m p in (m', rw more e, p')
  | inr one ↦ (m, rw one refl, p)
]

idle_power : (i j a b : ℕ) → 1 ≤ a → 1 ≤ b → 2 ^ i * b * (2 ^ j * a) / b / a ≡ 2 ^ (i + j)
idle_power i j a b ha hb =
    let e : 2 ^ i * b * (2 ^ j * a) ≡ 2 ^ i * 2 ^ j * a * b = omega arith in
    rw (e, mul-div_cancel (2 ^ i * 2 ^ j * a) hb, mul-div_cancel (2 ^ i * 2 ^ j) ha, pow-add i j)
      refl

-- What a mat is given in a bank of powers of two.
pub mat_config-IsSafe :
    (c : BankConfig) (address : ℤ) (share : Share)
    → IsPowers c
    → positive_part address < 31
    → ArePowers share.muxes
    → IsSafe (clamped (mat_config c address share))
mat_config-IsSafe c address share p few m =
    let (i, ei) = power_multiple _ _ p.row_subarray p.active_column p.active_column_le in
    let (j, ej) = power_multiple _ _ p.column_subarray p.active_row p.active_row_le in
    let row = IsPowerOfTwo-pos _ p.active_row in
    let column = IsPowerOfTwo-pos _ p.active_column in
    let mux = IsPowerOfTwo-mul _ _ (IsPowerOfTwo-mul _ _ m.sense_amp m.lev1) m.lev2 in
    subst IsSafe (sym (mat_config-clamped c address share p)) (record {
      address = few;
      idle = (i + j, rw (ei, ej) (idle_power i j _ _ row column));
      active_column = column;
      active_row = row;
      sense_amp = m.sense_amp;
      lev1 = m.lev1;
      lev2 = m.lev2;
      mux = mux;
      mux_pos = IsPowerOfTwo-pos _ mux;
    })

pub given-ArePowers : (c : BankConfig) → IsPowers c → ArePowers (given_muxes c)
given-ArePowers c p = record { sense_amp = p.sense_amp; lev1 = p.lev1; lev2 = p.lev2 }

-- If 2^w ways fill the rows of a set, then the muxes of a row are there and are powers of two.
pub row_muxes-ArePowers :
    (t : MemCellType) (c : BankConfig) (w : ℕ) {e : Unit}
    → IsPowers c
    → reject_if (ltb (2 ^ w) c.num_row_per_set) ≡ ok e
    → (ways : ℕ) × (muxes : Muxes) × (quotient (2 ^ w) c.num_row_per_set ≡ ok ways)
      × (way_muxes t ways (given_muxes c) ≡ ok muxes)
      × ArePowers muxes
row_muxes-ArePowers t c w p h =
    let (r, er) = p.row_per_set in
    let fits : 2 ^ r ≤ 2 ^ w =
      rw (← er) (ground (arith, reject_if-ok (ltb (2 ^ w) c.num_row_per_set) h)) in
    let exact = ap (quotient (2 ^ w)) er ∙ quotient-pow w r (pow-le_iff _ _ fits) in
    let (muxes, made, power) =
      way_muxes-ArePowers t (w - r) (given_muxes c) (given-ArePowers c p) in
    (2 ^ (w - r), muxes, exact, made, power)
