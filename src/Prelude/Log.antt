-- ===== src/Prelude/Log.antt =====
-- `(int)(log2(p / q) + 0.1)` for whole numbers p and q. The real number log2 (p / q) + 1/10 is at
-- least m exactly if (2^m q)^10 <= 2 p^10, which is a test on whole numbers. The program's `log2`
-- gives the same unless p / q lies within its rounding error of a number 2^(m - 1/10).
use Prim.Native.Nat.{ℕ, zero, suc, ◌+◌, ◌*◌, ◌^◌, ◌≤◌}
use mathlib.Core.Path.{◌≡◌, refl, ap}
use mathlib.Core.Bool.{Bool, true, false, ◌||◌}
use mathlib.Core.Option.{Option, none, some}
use native.Mathlib.Omega.{arith}
use native.Mathlib.Decide.{dec_lt}
use native.Mathlib.Nat.{pow-zero, pow-suc, pow-le-pow_left, pow-le-pow_right}
use destiny_3d_cache.Prelude.Tests.{leb, ◌==◌, if◌then◌else◌, le→leb, lt→leb_false}
use destiny_3d_cache.Prelude.Int.{ℤ, pos, neg_int}
use destiny_3d_cache.Prelude.Powers.{pow-pos, lt-pow}

-- The last number from m on before the test fails, `fuel` numbers further at most.
pub search_up : (ℕ → Bool) → ℕ → ℕ → ℕ
search_up test zero m = m
search_up test (suc fuel) m =
    let rest = search_up test fuel (suc m) in if test (suc m) then rest else m

-- log2 (p / q) + 1/10 >= m, and log2 (q / p) - 1/10 >= m
abbrev pub log2_up : ℕ → ℕ → ℕ → Bool
log2_up p q m = leb ((2 ^ m * q) ^ 10) (2 * p ^ 10)

abbrev pub log2_down : ℕ → ℕ → ℕ → Bool
log2_down p q m = leb (2 * (2 ^ m * p) ^ 10) (q ^ 10)

-- `none` where the logarithm is infinite, and its conversion to `int` undefined.
unfoldable pub log2_ratio : ℕ → ℕ → Option ℤ
unfolding search_up
log2_ratio p q =
    if p == 0 || q == 0
    then none
    else if log2_up p q 0
    then some (pos (search_up (log2_up p q) p 0))
    else some (neg_int (search_up (log2_down p q) q 0))

-- `(int)(log2(n) + 0.1)`
unfoldable pub log2_int : ℕ → Option ℕ
unfolding search_up
log2_int n = if n == 0 then none else some (search_up (log2_up n 1) n 0)

-- `(int)(log2(n))`
unfoldable pub log2_floor : ℕ → Option ℕ
unfolding search_up
log2_floor n = if n == 0 then none else some (search_up (λ m. leb (2 ^ m) n) n 0)

search_up_lem :
    (test : ℕ → Bool) (k fuel m : ℕ)
    → ((j : ℕ) → j ≤ k → test j ≡ true)
    → test (suc k) ≡ false
    → m ≤ k
    → k ≤ m + fuel
    → search_up test fuel m ≡ k
unfolding search_up
search_up_lem test k zero m up stop lo hi = omega arith
search_up_lem test k (suc fuel) m up stop lo hi = elim (dec_lt m k) [
  | yes p ↦ rw (up (suc m) p) (search_up_lem test k fuel (suc m) up stop p (omega arith))
  | no p ↦ let e : m ≡ k = omega arith in rw (e, stop) refl
]

double-pow : (x n : ℕ) → (2 * x) ^ n ≡ 2 ^ n * x ^ n
double-pow x zero = omega (arith, pow-zero (2 * x), pow-zero x, pow-zero 2)
double-pow x (suc n) = omega (
  arith,
  pow-suc (2 * x) n,
  ap (λ (t : ℕ). t * x) (double-pow x n),
  ap (λ (t : ℕ). t * x ^ suc n) (pow-suc 2 n),
  ap (λ (t : ℕ). 2 ^ n * t) (pow-suc x n),
)

-- A ratio that is 2^k exactly passes the test up to k, and not at k + 1.
log2_up-pow : (k q j : ℕ) → j ≤ k → log2_up (2 ^ k * q) q j ≡ true
log2_up-pow k q j h =
    let below : 2 ^ j * q ≤ 2 ^ k * q = grind (arith, pow-le-pow_right {n = 2} (omega arith) h) in
    le→leb _ _ (omega (arith, pow-le-pow_left below 10))

log2_up-pow_stop : (k q : ℕ) → 1 ≤ q → log2_up (2 ^ k * q) q (suc k) ≡ false
log2_up-pow_stop k q h =
    let x = 2 ^ k * q in
    let pos_x : 1 ≤ x = grind (arith, pow-pos k) in
    let e : 2 ^ suc k * q ≡ 2 * x = omega (arith, ap (λ (t : ℕ). t * q) (pow-suc 2 k)) in
    rw e (lt→leb_false _ _ (omega (arith, double-pow x 10, pow-le-pow_left pos_x 10)))

search_log2 : (k q : ℕ) → 1 ≤ q → search_up (log2_up (2 ^ k * q) q) (2 ^ k * q) 0 ≡ k
search_log2 k q h =
    search_up_lem (log2_up (2 ^ k * q) q) k (2 ^ k * q) 0 (log2_up-pow k q) (log2_up-pow_stop k q h)
      (omega arith) (grind (arith, lt-pow k))

-- Of a power of two the logarithm is exact.
pub log2_int-pow : (k : ℕ) → log2_int (2 ^ k) ≡ some k
unfolding log2_int
log2_int-pow k =
    let one : 2 ^ k * 1 ≡ 2 ^ k = omega arith in
    let found = rw one at (search_log2 k 1 (omega arith)) in ground (arith, pow-pos k)

pub log2_ratio-pow : (k q : ℕ) → 1 ≤ q → log2_ratio (2 ^ k * q) q ≡ some (pos k)
unfolding log2_ratio
log2_ratio-pow k q h =
    let positive : 1 ≤ 2 ^ k * q = grind (arith, pow-pos k) in
    ground (arith, search_log2 k q h, log2_up-pow k q 0 (omega arith))

pub log2_floor-pow : (k : ℕ) → log2_floor (2 ^ k) ≡ some k
unfolding log2_floor
log2_floor-pow k =
    let found =
      search_up_lem (λ m. leb (2 ^ m) (2 ^ k)) k (2 ^ k) 0
        (λ j h. le→leb _ _ (pow-le-pow_right {n = 2} (omega arith) {i = j} {j = k} h))
        (lt→leb_false _ _ (omega (arith, pow-suc 2 k, pow-pos k))) (omega arith)
        (omega (arith, lt-pow k)) in
    ground (arith, pow-pos k)
