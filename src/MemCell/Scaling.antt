-- ===== src/MemCell/Scaling.antt =====
-- MemCell.cpp: `ApplyPVT` and `CellScaling`.
use destiny_3d_cache.Prelude.{
  ℕ, Bool, true, false, not, ◌&&◌, ◌==◌, ltb, ◌≡◌, refl, if◌then◌else◌, arith, inl, inr, Bool-cases,
}
use destiny_3d_cache.Double.{Double, ◌⊗◌, ◌⊘◌, ◌⊖◌, of_int, same_double, invalid_value}
use destiny_3d_cache.TypeDef.{MemCellType, pcram, mram, CellAccessType, diode_access}
use destiny_3d_cache.MemCell.{MemCell}
use destiny_3d_cache.MemCell.Words.{is_edram}

abbrev pub is_diode_access : CellAccessType → Bool
is_diode_access diode_access = true
is_diode_access _ = false

module _ {D : Type 0} ⦃d : Double D⦄ where
  -- `-0.0268 * (temperature of the chip - temperature of the cell)` is the exponent.
  unfoldable pub apply_pvt : ℕ → MemCell D → MemCell D
  apply_pvt chip_temperature c =
      if same_double c.retention_time invalid_value
      then c
      else if is_edram c.mem_cell_type
      then record c {
        retention_time =
            c.retention_time
            ⊗ d.exp ((of_int 0 ⊖ d.lit 268 4) ⊗ (of_int chip_temperature ⊖ c.temperature));
      }
      else c

  abbrev scaled_capacitance : D → MemCell D → MemCell D
  scaled_capacitance factor c =
      if is_diode_access c.access_type
      then record c {
        capacitance_on = c.capacitance_on ⊘ factor;
        capacitance_off = c.capacitance_off ⊘ factor;
      }
      else c

  -- Currents are divided, and voltages multiplied by `voltage`, by the mode of the write.
  abbrev scaled_set : D → D → MemCell D → MemCell D
  scaled_set factor voltage c =
      if not c.set_mode
      then record c { set_current = c.set_current ⊘ factor }
      else record c { set_voltage = c.set_voltage ⊗ voltage }

  abbrev scaled_reset : D → D → MemCell D → MemCell D
  scaled_reset factor voltage c =
      if not c.reset_mode
      then record c { reset_current = c.reset_current ⊘ factor }
      else record c { reset_voltage = c.reset_voltage ⊗ voltage }

  abbrev scaled_resistance : D → MemCell D → MemCell D
  scaled_resistance factor c = record c {
    resistance_on = c.resistance_on ⊗ factor;
    resistance_off = c.resistance_off ⊗ factor;
  }

  abbrev pub scaled : MemCellType → D → MemCell D → MemCell D
  scaled pcram factor c =
      scaled_capacitance factor
        (scaled_reset factor (of_int 1) (scaled_set factor (of_int 1) (scaled_resistance factor c)))
  scaled mram factor c = scaled_capacitance factor (
      scaled_reset factor factor (scaled_set factor factor (scaled_resistance (factor ⊗ factor) c)))
  scaled _ factor c = c

  unfoldable pub cell_scaling : ℕ → MemCell D → MemCell D
  cell_scaling target c =
      if ltb 0 c.process_node && not (c.process_node == target)
      then record (scaled c.mem_cell_type (of_int c.process_node ⊘ of_int target) c) {
        process_node = target;
      }
      else c

  -- A cell that is scaled to a process node is not scaled again by scaling it to the same node.
  pub cell_scaling-idempotent :
      (target : ℕ) (c : MemCell D)
      → cell_scaling target (cell_scaling target c) ≡ cell_scaling target c
  unfolding cell_scaling
  cell_scaling-idempotent target c =
      elim (Bool-cases (ltb 0 c.process_node && not (c.process_node == target))) [
        | inl scales ↦
            let again : (ltb 0 target && not (target == target)) ≡ false = ground arith in
            rw (scales, again) refl
        | inr keeps ↦ rw (keeps, keeps) refl
      ]
