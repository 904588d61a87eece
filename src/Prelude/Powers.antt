-- ===== src/Prelude/Powers.antt =====
-- Powers of two.
use Prim.Native.Nat.{ℕ, zero, suc, ◌+◌, ◌-◌, ◌*◌, ◌/◌, ◌^◌, ◌≤◌, ◌<◌}
use mathlib.Core.Path.{◌≡◌, ap}
use native.Mathlib.Omega.{arith}
use native.Mathlib.Nat.{pow-zero, pow-suc, mul-div_cancel, div-eq_of_lt, pow-le-pow_right}
use native.Mathlib.Decide.{dec_lt}

pub pow-pos : (k : ℕ) → 1 ≤ 2 ^ k
pow-pos zero = omega (arith, pow-zero 2)
pow-pos (suc k) = omega (arith, pow-pos k, pow-suc 2 k)

pub le-mul-pow : (x k : ℕ) → x ≤ x * 2 ^ k
le-mul-pow x zero = omega (arith, pow-zero 2)
le-mul-pow x (suc k) = omega (arith, le-mul-pow x k, ap (λ (t : ℕ). x * t) (pow-suc 2 k))

pub mul-pow-suc : (x k : ℕ) → 2 * x * 2 ^ k ≡ x * 2 ^ suc k
mul-pow-suc x k = omega (arith, ap (λ (t : ℕ). x * t) (pow-suc 2 k))

pub pow-add : (m n : ℕ) → 2 ^ (m + n) ≡ 2 ^ m * 2 ^ n
pow-add zero n = let e : zero + n ≡ n = omega arith in rw e (omega (arith, pow-zero 2))
pow-add (suc m) n =
    let e : suc m + n ≡ suc (m + n) = omega arith in
    rw e (omega (arith, pow-suc 2 (m + n), pow-add m n, ap (λ (t : ℕ). t * 2 ^ n) (pow-suc 2 m)))

pub lt-pow : (k : ℕ) → k < 2 ^ k
lt-pow zero = omega (arith, pow-zero 2)
lt-pow (suc k) = omega (arith, lt-pow k, pow-suc 2 k)

pub pow-lt : {m k : ℕ} → m < k → 2 ^ m < 2 ^ k
pow-lt {m} {k} h =
    omega
      (arith, pow-pos m, pow-suc 2 m, pow-le-pow_right {n = 2} (omega arith) {i = suc m} {j = k} h)

abbrev pub IsPowerOfTwo : ℕ → Type 0
IsPowerOfTwo x = (k : ℕ) × (x ≡ 2 ^ k)

-- A quotient of powers of two is exact, or 0.
pub div-pow : (m k : ℕ) → 2 ^ (m + k) / 2 ^ k ≡ 2 ^ m
div-pow m k = rw (pow-add m k) (mul-div_cancel (2 ^ m) (pow-pos k))

pub div-pow_exact : (m k : ℕ) → 1 ≤ 2 ^ m / 2 ^ k → (j : ℕ) × (m ≡ j + k)
div-pow_exact m k h = elim (dec_lt m k) [
  | yes p ↦ absurd (omega (arith, div-eq_of_lt (pow-lt p), h))
  | no p ↦ (m - k, omega arith)
]
