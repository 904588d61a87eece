-- ===== src/Text/Lines.antt =====
-- `while (fscanf(fp, "%[^\n]\n", line) != EOF)`: the lines of a file.
pub mod Print
use destiny_3d_cache.Prelude.{
  ℕ, Bool, true, false, List, [], ◌∷◌, ◌++◌, ◌==◌, ◌≡◌, refl, ap, ◌∙◌, arith, All, if◌then◌else◌,
  Option, none, some,
}
use destiny_3d_cache.Prelude.Run.{Run, returns, exits, never_ends, outside, ◌>>=◌, run_all}
use destiny_3d_cache.Text.{Text, is_space}
use destiny_3d_cache.Text.Rules.{Rule, Reading, run_rules}

-- The byte is put in front of the first line.
abbrev pub onto : ℕ → List Text → List Text
onto c [] = (c ∷ []) ∷ []
onto c (l ∷ ls) = (c ∷ l) ∷ ls

-- Within a line, or behind its end: the `\n` of the format passes over any spaces, with the empty
-- lines and the indentation of the next line.
abbrev mutual
  pub rest_of_line : Text → List Text
  rest_of_line [] = [] ∷ []
  rest_of_line (c ∷ s) = elim (c == b'\n') [
    | true ↦ [] ∷ next_line s
    | false ↦ onto c (rest_of_line s)
  ]

  pub next_line : Text → List Text
  next_line [] = []
  next_line (c ∷ s) = elim (is_space c) [ true ↦ next_line s | false ↦ onto c (rest_of_line s) ]

-- A file that starts with `\n` is never read: nothing is assigned, and that is not `EOF`.
abbrev pub file_lines : Text → Run (List Text)
file_lines [] = returns []
file_lines (c ∷ s) = if c == b'\n' then never_ends else returns (onto c (rest_of_line s))

-- The whole file. Without a file the program ends.
abbrev pub read_file : {A : Type 0} → List (Rule A) → Option Text → Reading A → Run (Reading A)
read_file rules none r = exits
read_file rules (some text) r = file_lines text >>= λ lines. run_all (run_rules rules) lines r
