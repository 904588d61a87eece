-- ===== src/Text/Scan.antt =====
-- `sscanf`, with the conversions that the program uses: `%s`, `%d` and `%ld`, and `%lf`.
use destiny_3d_cache.Prelude.{
  ℕ, zero, suc, ◌+◌, ◌-◌, ◌*◌, ◌^◌, Bool, true, false, ◌&&◌, List, [], ◌∷◌, Option, none, some,
  ◌==◌, leb, ltb, if◌then◌else◌,
}
use destiny_3d_cache.Prelude.Run.{Run, returns, outside, ◌>>=◌}
use destiny_3d_cache.Text.{Text, is_space}

abbrev pub skip_spaces : Text → Text
skip_spaces [] = []
skip_spaces (c ∷ s) = elim (is_space c) [ true ↦ skip_spaces s | false ↦ c ∷ s ]

-- A byte of the format that is no space stands for itself.
abbrev pub match_byte : ℕ → (Text → Option Text) → Text → Option Text
match_byte f next [] = none
match_byte f next (c ∷ s) = if f == c then next s else none

-- The part of a format before its conversion. A space stands for any number of them.
abbrev pub match_format : Text → Text → Option Text
match_format [] s = some s
match_format (f ∷ format) s = elim (is_space f) [
  | true ↦ match_format format (skip_spaces s)
  | false ↦ match_byte f (match_format format) s
]

-- `%s`: up to the next space, and at least one byte.
abbrev pub first_word : Text → Text
first_word [] = []
first_word (c ∷ s) = elim (is_space c) [ true ↦ [] | false ↦ c ∷ first_word s ]

abbrev pub some_word : Text → Option Text
some_word [] = none
some_word (c ∷ s) = some (c ∷ s)

unfoldable pub scan_word : Text → Text → Option Text
scan_word format line = elim (match_format format line) [
  | none ↦ none
  | some s ↦ some_word (first_word (skip_spaces s))
]

abbrev pub is_digit : ℕ → Bool
is_digit c = leb b'0' c && leb c b'9'

abbrev pub starts_with_digit : Text → Bool
starts_with_digit [] = false
starts_with_digit (c ∷ s) = is_digit c

-- The number that the first digits spell behind `n`, and what follows them.
unfoldable pub digits_value : ℕ → Text → ℕ × Text
digits_value n [] = (n, [])
digits_value n (c ∷ s) = elim (is_digit c) [
  | true ↦ digits_value (n * 10 + (c - b'0')) s
  | false ↦ (n, c ∷ s)
]

-- A number that does not fit its type is undefined behaviour.
abbrev pub fits : ℕ → ℕ × Text → Run (Option (ℕ × Text))
fits bound (n, rest) = if ltb n bound then returns (some (n, rest)) else outside

abbrev pub unsigned_number : ℕ → Text → Run (Option (ℕ × Text))
unsigned_number bound s =
    if starts_with_digit s then fits bound (digits_value 0 s) else returns none

-- `%d` and `%ld` of a type with this bound. A negative number is outside of the model.
abbrev pub signed_number : ℕ → Text → Run (Option (ℕ × Text))
signed_number bound [] = returns none
signed_number bound (c ∷ s) =
    if c == b'-'
    then (if starts_with_digit s then outside else returns none)
    else if c == b'+'
    then unsigned_number bound s
    else unsigned_number bound (c ∷ s)

unfoldable pub scan_number : ℕ → Text → Run (Option (ℕ × Text))
unfolding digits_value
scan_number bound s = signed_number bound (skip_spaces s)

-- A format with several numbers, each with what stands before it: the numbers that are assigned
-- until one does not match.
abbrev pub scan_numbers : ℕ → List Text → Text → Run (List ℕ)
scan_numbers bound [] s = returns []
scan_numbers bound (format ∷ formats) s = elim (match_format format s) [
  | none ↦ returns []
  | some at ↦ scan_number bound at >>= λ found. elim found [
    | none ↦ returns []
    | some (n, rest) ↦ scan_numbers bound formats rest >>= λ ns. returns (n ∷ ns)
  ]
]

-- The i-th number that was assigned, or the old value.
abbrev pub get_or : ℕ → List ℕ → ℕ → ℕ
get_or old [] i = old
get_or old (n ∷ ns) zero = n
get_or old (n ∷ ns) (suc i) = get_or old ns i

abbrev pub int_bound : ℕ
int_bound = 2 ^ 31

abbrev pub long_bound : ℕ
long_bound = 2 ^ 63
