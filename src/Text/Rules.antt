-- ===== src/Text/Rules.antt =====
-- How both readers go through a line: one `if (!strncmp(key, line, strlen(key)))` after the other.
use destiny_3d_cache.Prelude.{ℕ, Bool, true, false, List, [], ◌∷◌, Option, none, some}
use destiny_3d_cache.Prelude.Run.{Run, returns, outside, ◌>>=◌}
use destiny_3d_cache.Text.{Text, starts_with}
use destiny_3d_cache.Text.Scan.{match_format, scan_word, scan_numbers}

-- The object that is read, and the buffer `tmp`, which holds the word that was read last.
pub record Reading (A : Type 0) : Type 0 where
  pub object : A
  pub tmp : Option Text

-- A branch: its key, what it does, and whether it goes on to the next branch, without `continue`.
pub record Rule (A : Type 0) : Type 0 where
  pub key : Text
  pub goes_on : Bool
  pub action : Text → Reading A → Run (Reading A)

abbrev pub word_or : Option Text → Option Text → Option Text
word_or old none = old
word_or old (some w) = some w

-- `%lf`: `strtod` is given.
abbrev pub scan_double : {D : Type 0} → (Text → Option D) → Text → Text → Option D
scan_double strtod format line = elim (match_format format line) [ none ↦ none | some s ↦ strtod s ]

module _ {A : Type 0} where
  -- `sscanf(line, format, tmp)`, and then comparisons of `tmp`, also if nothing was assigned.
  abbrev pub with_tmp : (Text → A → A) → Option Text → A → Run (Reading A)
  with_tmp set none x = outside
  with_tmp set (some w) x = returns (record { object = set w x; tmp = some w })

  abbrev pub on_word : Text → (Text → A → A) → Text → Reading A → Run (Reading A)
  on_word format set line r = with_tmp set (word_or r.tmp (scan_word format line)) r.object

  -- Numbers of a type with the bound, and what is done with those that were assigned.
  abbrev pub on_numbers : ℕ → List Text → (List ℕ → A → A) → Text → Reading A → Run (Reading A)
  on_numbers bound formats set line r =
      scan_numbers bound formats line >>= λ ns. returns (record r { object = set ns r.object })

  abbrev pub on_double :
      {D : Type 0}
      → (Text → Option D)
      → Text
      → (Option D → A → A)
      → Text
      → Reading A
      → Run (Reading A)
  on_double strtod format set line r =
      returns (record r { object = set (scan_double strtod format line) r.object })

  abbrev pub word_rule : Text → Text → (Text → A → A) → Rule A
  word_rule key format set = record { key = key; goes_on = false; action = on_word format set }

  abbrev pub number_rule : ℕ → Text → List Text → (List ℕ → A → A) → Rule A
  number_rule bound key formats set = record {
    key = key;
    goes_on = false;
    action = on_numbers bound formats set;
  }

  abbrev pub double_rule :
      {D : Type 0} → (Text → Option D) → Text → Text → (Option D → A → A) → Rule A
  double_rule strtod key format set = record {
    key = key;
    goes_on = false;
    action = on_double strtod format set;
  }

  -- A rule whose branch does not end in `continue`
  abbrev pub going_on : Rule A → Rule A
  going_on rule = record rule { goes_on = true }

  -- The chain of branches, for one line. A line without a key is passed over.
  unfoldable pub run_rules : List (Rule A) → Text → Reading A → Run (Reading A)
  run_rules [] line r = returns r
  run_rules (rule ∷ rules) line r = elim (starts_with rule.key line) [
    | true ↦ elim rule.goes_on [
      | true ↦ rule.action line r >>= run_rules rules line
      | false ↦ rule.action line r
    ]
    | false ↦ run_rules rules line r
  ]

-- The value of a double that was assigned, or the old one.
abbrev pub double_or : {D : Type 0} → D → Option D → D
double_or old none = old
double_or old (some x) = x
