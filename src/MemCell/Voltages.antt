-- ===== src/MemCell/Voltages.antt =====
-- What the line `-SetVoltage` does behind the line `-ResetVoltage`.
use destiny_3d_cache.Prelude.{
  ◌≡◌, refl, ap, ◌∙◌, Option, some, ◌++◌, [], ◌∷◌, if◌then◌else◌, Bool-cases, inl, inr,
}
use destiny_3d_cache.Prelude.Run.{returns, run_all, ◌>>=◌}
use destiny_3d_cache.Double.{Double}
use destiny_3d_cache.Text.{Text, codes, same_text}
use destiny_3d_cache.Text.Scan.{scan_word, skip_spaces}
use destiny_3d_cache.Text.Words.{IsWord, scanned-IsWord}
use destiny_3d_cache.Text.Rules.{Reading, run_rules, double_or, word_or}
use destiny_3d_cache.MemCell.{MemCell}
use destiny_3d_cache.MemCell.Read.{cell_rules, voltage_or_vdd}

module _ {D : Type 0} ⦃d : Double D⦄ (vdd : D) (strtod : Text → Option D) where
  -- The line is read by the word of an earlier line.
  read-set_voltage :
      (value w : Text) (r : Reading (MemCell D))
      → r.tmp ≡ some w
      → run_rules (cell_rules vdd strtod) (codes "-SetVoltage (V): " ++ value) r
        ≡ returns (record r {
          object =
              if same_text w (codes "vdd")
              then record r.object { reset_voltage = vdd }
              else record r.object {
                set_voltage = double_or r.object.set_voltage (strtod (skip_spaces value));
              };
        })
  unfolding run_rules scan_word
  read-set_voltage value w r e = rw e refl

  read-reset_voltage :
      (w : Text) (r : Reading (MemCell D))
      → IsWord w
      → run_rules (cell_rules vdd strtod) (codes "-ResetVoltage (V): " ++ w) r
        ≡ returns (record {
          object =
              if same_text w (codes "vdd")
              then record r.object { reset_voltage = vdd }
              else record r.object {
                reset_voltage = double_or r.object.reset_voltage (strtod (skip_spaces w));
              };
          tmp = some w;
        })
  unfolding run_rules scan_word
  read-reset_voltage w r h =
      ap
        (λ found.
          voltage_or_vdd vdd (strtod (skip_spaces w))
            (λ x c. record c { reset_voltage = double_or c.reset_voltage x }) (word_or r.tmp found)
            r.object)
        (scanned-IsWord w h)

  -- Behind the line `-ResetVoltage` it is the word of that line that decides what the line
  -- `-SetVoltage` does: if it was `vdd` then the set voltage stays as it was, whatever the line says,
  -- `vdd` included; otherwise the set voltage is what `strtod` reads, or stays if it reads nothing.
  pub read-set_voltage_after_reset_voltage :
      (w value : Text) (r : Reading (MemCell D))
      → IsWord w
      → run_all
          (run_rules (cell_rules vdd strtod))
          ((codes "-ResetVoltage (V): " ++ w) ∷ (codes "-SetVoltage (V): " ++ value) ∷ [])
          r
        ≡ returns (record {
          object =
              if same_text w (codes "vdd")
              then record r.object { reset_voltage = vdd }
              else record r.object {
                reset_voltage = double_or r.object.reset_voltage (strtod (skip_spaces w));
                set_voltage = double_or r.object.set_voltage (strtod (skip_spaces value));
              };
          tmp = some w;
        })
  read-set_voltage_after_reset_voltage w value r h =
      ap
        (λ m. m >>= λ s.
          run_rules (cell_rules vdd strtod) (codes "-SetVoltage (V): " ++ value) s >>= λ s.
          returns s)
        (read-reset_voltage w r h)
      ∙ (ap (λ m. m >>= λ s. returns s) (read-set_voltage value w _ refl)
          ∙ elim (Bool-cases (same_text w (codes "vdd"))) [
            | inl is_vdd ↦ rw is_vdd refl
            | inr other ↦ rw other refl
          ])
