-- ===== src/Double.antt =====
-- All that the modelled code does with a `double`: decimal constants, the four operations, functions
-- of <math.h> and the comparisons. The type and its operations are an interface; nothing is assumed
-- of the arithmetic.
pub mod Whole
use destiny_3d_cache.Prelude.{ℕ, ◌^◌, ◌≡◌, Bool, true, false, ◌&&◌, ◌⊎◌, if◌then◌else◌}

pub record Double (D : Type 0) : Type 0 where
  -- `lit m e` is the double nearest to m / 10^e
  pub lit : ℕ → ℕ → D
  pub add : D → D → D
  pub sub : D → D → D
  pub mul : D → D → D
  pub div : D → D → D
  pub sqrt : D → D
  pub exp : D → D
  pub log : D → D
  pub log2 : D → D
  pub pow : D → D → D
  pub fabs : D → D
  pub lt : D → D → Bool
  pub le : D → D → Bool

module _ {D : Type 0} ⦃d : Double D⦄ where
  infixl 65 ◌⊕◌ ◌⊖◌
  infixl 70 ◌⊗◌ ◌⊘◌
  infix 50 ◌<?◌ ◌≤?◌
  infix 4 ◌≼◌
  abbrev pub ◌⊕◌ : D → D → D
  ◌⊕◌ = d.add

  abbrev pub ◌⊖◌ : D → D → D
  ◌⊖◌ = d.sub

  abbrev pub ◌⊗◌ : D → D → D
  ◌⊗◌ = d.mul

  abbrev pub ◌⊘◌ : D → D → D
  ◌⊘◌ = d.div

  abbrev pub ◌<?◌ : D → D → Bool
  ◌<?◌ = d.lt

  abbrev pub ◌≤?◌ : D → D → Bool
  ◌≤?◌ = d.le

  abbrev pub ◌≼◌ : D → D → Type 0
  x ≼ y = d.le x y ≡ true

  -- `==`
  abbrev pub same_double : D → D → Bool
  same_double x y = d.le x y && d.le y x

  -- an `int` in a `double` expression
  abbrev pub of_int : ℕ → D
  of_int n = d.lit n 0

  -- `invalid_value` is 1e41, of global.h.
  abbrev pub invalid_value : D
  invalid_value = of_int (10 ^ 41)

  -- `std::max`
  abbrev pub std_max : D → D → D
  std_max a b = if a <? b then b else a

  -- NaN is the value that is not `<=` itself.
  abbrev pub IsNumber : D → Type 0
  IsNumber x = x ≼ x

-- The order of IEEE 754: total away from NaN, and every comparison with NaN fails.
pub record IsOrdered (D : Type 0) ⦃d : Double D⦄ : Type 0 where
  pub number_of_le : (x y : D) → x ≼ y → IsNumber x × IsNumber y
  pub le_trans : (x y z : D) → x ≼ y → y ≼ z → x ≼ z
  pub le_of_lt : (x y : D) → d.lt x y ≡ true → x ≼ y
  pub not_le_of_lt : (x y : D) → d.lt x y ≡ true → d.le y x ≡ false
  pub le_of_not_lt : (x y : D) → IsNumber x → IsNumber y → d.lt x y ≡ false → y ≼ x
