-- ===== src/Text/Decimal.antt =====
-- Numbers in decimal, and that `sscanf` reads them back.
use destiny_3d_cache.Prelude.{
  ℕ, zero, suc, ◌+◌, ◌-◌, ◌*◌, ◌/◌, ◌%◌, ◌<◌, ◌≤◌, true, false, [], ◌∷◌, some, ◌≡◌, refl, sym, ap,
  ◌∙◌, arith, ltb, ◌==◌, if◌then◌else◌, inl, inr, Bool-cases,
}
use destiny_3d_cache.Prelude.Run.{returns}
use destiny_3d_cache.Text.{Text, is_space}
use destiny_3d_cache.Text.Scan.{is_digit, digits_value, scan_number, starts_with_digit, skip_spaces}

-- The digits of `n`, with fuel, in front of `out`.
abbrev digits_from : ℕ → ℕ → Text → Text
digits_from zero n out = out
digits_from (suc fuel) n out =
    let rest = digits_from fuel (n / 10) ((b'0' + n % 10) ∷ out) in
    if ltb n 10 then (b'0' + n) ∷ out else rest

-- The number `n`, and what follows it.
unfoldable pub decimal_then : ℕ → Text → Text
decimal_then n rest = digits_from (suc n) n rest

-- A number starts with a digit.
digits_from-digit :
    (fuel n : ℕ) (out : Text)
    → n < fuel
    → (c : ℕ) × (s : Text) × (digits_from fuel n out ≡ c ∷ s) × (b'0' ≤ c) × (c ≤ b'9')
digits_from-digit zero n out h = elim h [ ]
digits_from-digit (suc fuel) n out h = elim (Bool-cases (ltb n 10)) [
  | inl last ↦ (b'0' + n, out, rw last refl, omega arith, ground (arith, last))
  | inr more ↦
      let (c, s, e, low, high) =
        digits_from-digit fuel (n / 10) ((b'0' + n % 10) ∷ out) (ground (arith, more)) in
      (c, s, rw more e, low, high)
]

digits_value-digit :
    (c n : ℕ) (s : Text)
    → b'0' ≤ c
    → c ≤ b'9'
    → digits_value n (c ∷ s) ≡ digits_value (n * 10 + (c - b'0')) s
unfolding digits_value
digits_value-digit c n s low high =
    let digit : is_digit c ≡ true = ground arith in rw (digit, digits_value) refl

digits_value-digits_from :
    (fuel n : ℕ) (out : Text)
    → n < fuel
    → digits_value 0 (digits_from fuel n out) ≡ digits_value n out
digits_value-digits_from zero n out h = elim h [ ]
digits_value-digits_from (suc fuel) n out h = elim (Bool-cases (ltb n 10)) [
  | inl last ↦
      let few : n < 10 = ground (arith, last) in
      rw (last, digits_value-digit (b'0' + n) 0 out (omega arith) (omega arith))
        (ap (λ k. digits_value k out) (omega arith))
  | inr more ↦
      let many : 10 ≤ n = ground (arith, more) in
      let d = b'0' + n % 10 in
      rw more (
        digits_value-digits_from fuel (n / 10) (d ∷ out) (omega arith)
        ∙ (digits_value-digit d (n / 10) out (omega arith) (omega arith)
            ∙ ap (λ k. digits_value k out) (omega arith)))
]

digits_value-stop : (n : ℕ) (s : Text) → starts_with_digit s ≡ false → digits_value n s ≡ (n, s)
unfolding digits_value
digits_value-stop n [] h = refl
digits_value-stop n (c ∷ s) h = rw (h, digits_value) refl

scan_number-digit :
    (bound c n : ℕ) (s rest : Text)
    → b'0' ≤ c
    → c ≤ b'9'
    → n < bound
    → digits_value 0 (c ∷ s) ≡ (n, rest)
    → scan_number bound (c ∷ s) ≡ returns (some (n, rest))
unfolding scan_number
scan_number-digit bound c n s rest low high small value =
    let dull : is_space c ≡ false = ground arith in
    let minus : (c == b'-') ≡ false = ground arith in
    let plus : (c == b'+') ≡ false = ground arith in
    let digit : is_digit c ≡ true = ground arith in
    let fit : ltb n bound ≡ true = ground arith in
    rw (dull, skip_spaces, minus, plus, digit, value, fit) refl

pub scan_number-decimal_then :
    (bound n : ℕ) (rest : Text)
    → n < bound
    → starts_with_digit rest ≡ false
    → scan_number bound (decimal_then n rest) ≡ returns (some (n, rest))
unfolding decimal_then
scan_number-decimal_then bound n rest h stop =
    let (c, s, shape, low, high) = digits_from-digit (suc n) n rest (omega arith) in
    let value : digits_value 0 (c ∷ s) ≡ (n, rest) =
      ap (digits_value 0) (sym shape)
      ∙ (digits_value-digits_from (suc n) n rest (omega arith) ∙ digits_value-stop n rest stop) in
    ap (scan_number bound) shape ∙ scan_number-digit bound c n s rest low high h value

-- A number has no spaces in front of it.
pub skip_spaces-decimal_then :
    (n : ℕ) (rest : Text) → skip_spaces (decimal_then n rest) ≡ decimal_then n rest
unfolding decimal_then
skip_spaces-decimal_then n rest =
    let (c, s, shape, low, high) = digits_from-digit (suc n) n rest (omega arith) in
    let dull : is_space c ≡ false = ground arith in
    let kept : skip_spaces (c ∷ s) ≡ c ∷ s = rw (dull, skip_spaces) refl in
    ap skip_spaces shape ∙ (kept ∙ sym shape)

digits_from-keeps :
    (P : Text → Type 0)
    → ((c : ℕ) (t : Text) → b'0' ≤ c → c ≤ b'9' → P t → P (c ∷ t))
    → (fuel n : ℕ) (out : Text) → P out
    → P (digits_from fuel n out)
digits_from-keeps P step zero n out h = h
digits_from-keeps P step (suc fuel) n out h = elim (Bool-cases (ltb n 10)) [
  | inl last ↦ rw last (step (b'0' + n) out (omega arith) (ground (arith, last)) h)
  | inr more ↦
      let d = b'0' + n % 10 in
      rw more (
        digits_from-keeps P step fuel (n / 10) (d ∷ out) (step d out (omega arith) (omega arith) h))
]

-- What a digit in front of a text keeps, a number in front of it keeps.
pub decimal_then-keeps :
    (P : Text → Type 0)
    → ((c : ℕ) (t : Text) → b'0' ≤ c → c ≤ b'9' → P t → P (c ∷ t))
    → (n : ℕ) (rest : Text) → P rest
    → P (decimal_then n rest)
unfolding decimal_then
decimal_then-keeps P step n rest = digits_from-keeps P step (suc n) n rest
