-- ===== src/Prelude/Int.antt =====
-- A C++ `int` that can be negative. `negsuc n` is -(n + 1).
use Prim.Native.Nat.{ℕ, zero, suc, ◌+◌}
use mathlib.Core.Path.{◌≡◌, ap}
use native.Mathlib.Omega.{arith}
use mathlib.Core.Bool.{Bool, true, false}

pub data ℤ : Type 0 where
  pos : ℕ → ℤ
  negsuc : ℕ → ℤ

-- `x--`
abbrev pub pred_int : ℤ → ℤ
pred_int (pos zero) = negsuc 0
pred_int (pos (suc n)) = pos n
pred_int (negsuc n) = negsuc (suc n)

-- `x - n`
abbrev pub sub_int : ℤ → ℕ → ℤ
sub_int x zero = x
sub_int x (suc n) = sub_int (pred_int x) n

-- `x == 0`
abbrev pub is_zero_int : ℤ → Bool
is_zero_int (pos zero) = true
is_zero_int _ = false

-- `-n`
abbrev pub neg_int : ℕ → ℤ
neg_int zero = pos 0
neg_int (suc n) = negsuc n

pub sub_int_pos : (m n : ℕ) → sub_int (pos (m + n)) n ≡ pos m
sub_int_pos m zero = ap pos (omega arith)
sub_int_pos m (suc n) = let e : m + suc n ≡ suc (m + n) = omega arith in rw e (sub_int_pos m n)
