-- ===== src/Text/Lines/Print.antt =====
-- A file that is printed line by line is read line by line.
use destiny_3d_cache.Prelude.{
  ℕ, Bool, true, false, ◌&&◌, not, List, [], ◌∷◌, ◌++◌, ◌==◌, ◌≡◌, refl, ap, ◌∙◌, arith, All,
}
use destiny_3d_cache.Prelude.Run.{returns}
use destiny_3d_cache.Text.{Text, is_space}
use destiny_3d_cache.Text.Words.{has_no_space, IsWord}
use destiny_3d_cache.Text.Decimal.{decimal_then, decimal_then-keeps}
use destiny_3d_cache.Text.Lines.{onto, rest_of_line, next_line, file_lines}

abbrev pub no_newline : Text → Bool
no_newline [] = true
no_newline (c ∷ s) = not (c == b'\n') && no_newline s

-- A line that starts with no space.
abbrev pub is_line : Text → Bool
is_line [] = false
is_line (c ∷ s) = not (is_space c) && no_newline (c ∷ s)

abbrev pub IsLine : Text → Type 0
IsLine l = is_line l ≡ true

abbrev pub print_lines : List Text → Text
print_lines [] = []
print_lines (l ∷ ls) = l ++ (b'\n' ∷ print_lines ls)

rest_of_line-append :
    (l t : Text) → no_newline l ≡ true → rest_of_line (l ++ (b'\n' ∷ t)) ≡ l ∷ next_line t
rest_of_line-append [] t h = refl
rest_of_line-append (c ∷ l) t h =
    let other : (c == b'\n') ≡ false = ground (arith, h) in
    let later : no_newline l ≡ true = ground (arith, h) in
    rw (other, rest_of_line) (ap (onto c) (rest_of_line-append l t later))

next_line-append : (l t : Text) → IsLine l → next_line (l ++ (b'\n' ∷ t)) ≡ l ∷ next_line t
next_line-append [] t h = cc
next_line-append (c ∷ l) t h =
    let dull : is_space c ≡ false = ground (arith, h) in
    let later : no_newline l ≡ true = ground (arith, h) in
    rw (dull, next_line) (ap (onto c) (rest_of_line-append l t later))

next_line-print_lines : (ls : List Text) → All IsLine ls → next_line (print_lines ls) ≡ ls
next_line-print_lines [] h = refl
next_line-print_lines (l ∷ ls) (here, later) =
    next_line-append l (print_lines ls) here ∙ ap (◌∷◌ l) (next_line-print_lines ls later)

-- Lines that start with no space are read as they were printed.
pub file_lines-print_lines :
    (ls : List Text) → All IsLine ls → file_lines (print_lines ls) ≡ returns ls
file_lines-print_lines [] h = refl
file_lines-print_lines ([] ∷ ls) (here, later) = cc
file_lines-print_lines ((c ∷ l) ∷ ls) (here, later) =
    let other : (c == b'\n') ≡ false = ground (arith, here) in
    let rest : no_newline l ≡ true = ground (arith, here) in
    rw other (
      ap (λ x. returns (onto c x)) (rest_of_line-append l (print_lines ls) rest)
      ∙ ap (λ x. returns ((c ∷ l) ∷ x)) (next_line-print_lines ls later))

pub no_newline-has_no_space : (w : Text) → has_no_space w ≡ true → no_newline w ≡ true
no_newline-has_no_space [] h = refl
no_newline-has_no_space (c ∷ w) h =
    let later = no_newline-has_no_space w in ground (arith, h, later)

pub no_newline-IsWord : (w : Text) → IsWord w → no_newline w ≡ true
no_newline-IsWord [] h = cc
no_newline-IsWord (c ∷ w) h = no_newline-has_no_space (c ∷ w) h

pub no_newline-decimal_then :
    (n : ℕ) (rest : Text) → no_newline rest ≡ true → no_newline (decimal_then n rest) ≡ true
no_newline-decimal_then n rest =
    decimal_then-keeps (λ t. no_newline t ≡ true) (λ c t low high h. ground (arith, low, high, h)) n
      rest
