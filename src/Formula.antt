-- ===== src/Formula.antt =====
-- formula.cpp: `isPow2`, with which `applyConstraint` warns of an associativity.
use destiny_3d_cache.Prelude.{
  ℕ, zero, suc, ◌+◌, ◌-◌, ◌*◌, ◌/◌, ◌%◌, ◌^◌, ◌≤◌, ◌<◌, ◌≡◌, refl, sym, subst, ap, pow-pos, Bool,
  true, false, ◌==◌, arith, ℤ, pos, negsuc, ◌↔◌, IsPowerOfTwo, ltb, if◌then◌else◌, ◌⊎◌, inl, inr,
  Bool-cases,
}
use destiny_3d_cache.Mat.{positive_part}
use native.Mathlib.Nat.{pow-suc, pow-zero}

-- `a & b` on the lowest w bits.
unfoldable pub bit_and : ℕ → ℕ → ℕ → ℕ
bit_and zero a b = 0
bit_and (suc w) a b = a % 2 * (b % 2) + 2 * bit_and w (a / 2) (b / 2)

-- `n & (n - 1)` of a positive `int`, which has 31 bits.
unfoldable pub is_pow2 : ℤ → Bool
is_pow2 (negsuc n) = false
is_pow2 (pos n) = if ltb n 1 then false else bit_and 31 n (n - 1) == 0

parity : (a : ℕ) → ((k : ℕ) × (a ≡ 2 * k)) ⊎ ((k : ℕ) × (a ≡ 2 * k + 1))
parity a = elim (Bool-cases (a % 2 == 0)) [
  | inl even ↦ let e : a % 2 ≡ 0 = ground (arith, even) in inl (a / 2, omega arith)
  | inr odd ↦ let e : 1 ≤ a % 2 = ground (arith, odd) in inr (a / 2, omega arith)
]

bit_and-same : (w a : ℕ) → a < 2 ^ w → bit_and w a a ≡ a
unfolding bit_and
bit_and-same zero a h = omega (arith, pow-zero 2)
bit_and-same (suc w) a h =
    let lower : a / 2 < 2 ^ w = omega (arith, pow-suc 2 w) in
    let rest = bit_and-same w (a / 2) lower in
    elim (parity a) [
      | inl (k, e) ↦ let bit : a % 2 ≡ 0 = omega arith in rw (bit, rest) (omega arith)
      | inr (k, e) ↦ let bit : a % 2 ≡ 1 = omega arith in rw (bit, rest) (omega arith)
    ]

twice-IsPowerOfTwo : (m : ℕ) → IsPowerOfTwo (2 * m) ↔ IsPowerOfTwo m
twice-IsPowerOfTwo m = (to, λ (k, e). (suc k, omega (arith, pow-suc 2 k)))
  where
    to : IsPowerOfTwo (2 * m) → IsPowerOfTwo m
    to (zero, e) = absurd (omega (arith, pow-zero 2))
    to (suc k, e) = (k, omega (arith, pow-suc 2 k))

odd-IsPowerOfTwo : (m : ℕ) → IsPowerOfTwo (2 * m + 1) ↔ (2 * m ≡ 0)
odd-IsPowerOfTwo m = (to, λ e. (0, omega (arith, pow-zero 2)))
  where
    to : IsPowerOfTwo (2 * m + 1) → 2 * m ≡ 0
    to (zero, e) = omega (arith, pow-zero 2)
    to (suc k, e) = absurd (omega (arith, pow-suc 2 k))

bit_and-pred : (w n : ℕ) → 1 ≤ n → n < 2 ^ w → (bit_and w n (n - 1) ≡ 0) ↔ IsPowerOfTwo n
unfolding bit_and
bit_and-pred zero n some h = absurd (omega (arith, pow-zero 2))
bit_and-pred (suc w) n some h = elim (parity n) [
  | inl (k, e) ↦
      let bit : n % 2 ≡ 0 = omega arith in
      let half : n / 2 ≡ k = omega arith in
      let half' : (n - 1) / 2 ≡ k - 1 = omega arith in
      let (to, from) = bit_and-pred w k (omega arith) (omega (arith, pow-suc 2 w)) in
      let (up, down) = twice-IsPowerOfTwo k in
      rw (bit, half, half', e) (λ z. down (to (omega (arith, z))), λ q. omega (arith, from (up q)))
  | inr (k, e) ↦
      let bit : (n - 1) % 2 ≡ 0 = omega arith in
      let half : n / 2 ≡ k = omega arith in
      let half' : (n - 1) / 2 ≡ k = omega arith in
      let same = bit_and-same w k (omega (arith, pow-suc 2 w)) in
      let (to, from) = odd-IsPowerOfTwo k in
      rw (bit, half, half', same, e) (λ z. from (omega (arith, z)), λ q. omega (arith, to q))
]

test_zero : (x : ℕ) → (x == 0 ≡ true) ↔ (x ≡ 0)
test_zero x = ground arith

-- For every `int`, `isPow2` is true exactly for the powers of two.
pub is_pow2_lem :
    (x : ℤ)
    → positive_part x < 2 ^ 31
    → (is_pow2 x ≡ true) ↔ ((n : ℕ) × (x ≡ pos n) × IsPowerOfTwo n)
unfolding is_pow2
is_pow2_lem (negsuc n) h = (λ e. cc, λ (m, e, _). cc)
is_pow2_lem (pos n) h =
    let back : ((m : ℕ) × (pos n ≡ pos m) × IsPowerOfTwo m) → IsPowerOfTwo n =
      λ (m, e, q). subst IsPowerOfTwo (sym (ap positive_part e)) q in
    elim (Bool-cases (ltb n 1)) [
      | inl small ↦
          rw small
            (λ e. cc, λ q. let (k, e) = back q in absurd (ground (arith, small, e, pow-pos k)))
      | inr large ↦
          let (zero_if, if_zero) = test_zero (bit_and 31 n (n - 1)) in
          let (to, from) = bit_and-pred 31 n (ground (arith, large)) h in
          rw large (λ e. (n, refl, to (zero_if e)), λ q. if_zero (from (back q)))
    ]
