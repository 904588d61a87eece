-- ===== src/InputParameter/Read.antt =====
-- InputParameter.cpp: `ReadInputParameterFromFile`. Its branches are rules in the order of the code;
-- `strtod` is what `%lf` makes of a text.
pub mod Design
pub mod Wires
pub mod Spaces
pub mod Limits
use destiny_3d_cache.Prelude.{ℕ, false, List, ◌++◌, Option, none}
use destiny_3d_cache.Prelude.Run.{Run, returns, ◌>>=◌}
use destiny_3d_cache.Text.{Text}
use destiny_3d_cache.Text.Rules.{Rule, Reading}
use destiny_3d_cache.Text.Lines.{read_file}
use destiny_3d_cache.InputParameter.{InputParameter}
use Design.{design_rules}
use Wires.{wire_rules}
use Spaces.{sensing_rules, bank_rules, tag_rules, option_rules}
use Limits.{limit_rules, stack_rules}

module _ {D : Type 0} (strtod : Text → Option D) where
  abbrev pub parameter_rules : List (Rule (InputParameter D))
  parameter_rules =
      design_rules strtod
      ++ (wire_rules
          ++ (sensing_rules strtod
              ++ (bank_rules
                  ++ (tag_rules ++ (option_rules ++ (limit_rules strtod ++ stack_rules strtod))))))

  unfoldable pub read_parameter : Option Text → InputParameter D → Run (InputParameter D)
  read_parameter file p =
      read_file parameter_rules file
        (record { object = record p { forced_stack_layers = false }; tmp = none })
      >>= λ r. returns r.object
