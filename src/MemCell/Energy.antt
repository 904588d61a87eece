-- ===== src/MemCell/Energy.antt =====
-- MemCell.cpp: `CalculateWriteEnergy`, `CalculateReadPower` and `GetMemristance`.
use destiny_3d_cache.Prelude.{Bool, if◌then◌else◌}
use destiny_3d_cache.Double.{Double, ◌⊗◌, ◌⊘◌, ◌⊖◌, ◌⊕◌, of_int, same_double}
use destiny_3d_cache.TypeDef.{MemCellType, memristor, fbram, CellAccessType, none_access}
use destiny_3d_cache.MemCell.{MemCell}

module _ {D : Type 0} ⦃d : Double D⦄ where
  abbrev is_zero : D → Bool
  is_zero x = same_double x (of_int 0)

  -- The energy of a write by a voltage, over a resistance, and by a current.
  abbrev over_resistance : D → D → D → D → D
  over_resistance voltage drop resistance pulse =
      d.fabs voltage ⊗ (d.fabs voltage ⊖ drop) ⊘ resistance ⊗ pulse

  abbrev by_current : D → D → D → D
  by_current voltage current pulse = voltage ⊗ d.fabs current ⊗ pulse

  abbrev on_resistance : CellAccessType → D → D → D
  on_resistance none_access at_write on = at_write
  on_resistance _ at_write on = on

  abbrev voltage_energy : MemCellType → CellAccessType → D → D → D → D → D → D → D
  voltage_energy memristor access drop on voltage current pulse at_write =
      over_resistance voltage drop (on_resistance access at_write on) pulse
  voltage_energy fbram access drop on voltage current pulse at_write =
      by_current (d.fabs voltage) current pulse
  voltage_energy _ access drop on voltage current pulse at_write =
      over_resistance voltage drop on pulse

  -- Without a reset voltage the supply voltage drives the current, of a reset and of a set.
  abbrev current_energy : D → MemCell D → D → D → D → D
  current_energy vdd c voltage current pulse =
      if is_zero c.reset_voltage
      then by_current vdd current pulse
      else by_current (d.fabs voltage) current pulse

  abbrev reset_energy_of : D → MemCell D → D
  reset_energy_of vdd c =
      if c.reset_mode
      then voltage_energy c.mem_cell_type c.access_type c.voltage_drop_access_device c.resistance_on
          c.reset_voltage c.reset_current c.reset_pulse c.resistance_on_at_reset_voltage
      else current_energy vdd c c.reset_voltage c.reset_current c.reset_pulse

  abbrev set_energy_of : D → MemCell D → D
  set_energy_of vdd c =
      if c.set_mode
      then voltage_energy c.mem_cell_type c.access_type c.voltage_drop_access_device c.resistance_on
          c.set_voltage c.set_current c.set_pulse c.resistance_on_at_set_voltage
      else current_energy vdd c c.set_voltage c.set_current c.set_pulse

  -- An energy that the cell file gives is kept.
  unfoldable pub calculate_write_energy : D → MemCell D → MemCell D
  calculate_write_energy vdd c = record c {
    reset_energy = if is_zero c.reset_energy then reset_energy_of vdd c else c.reset_energy;
    set_energy = if is_zero c.set_energy then set_energy_of vdd c else c.set_energy;
  }

  -- -1 where the cell file gives the read power or the mode needs what it does not give. The read
  -- mode is that of the global `cell`.
  unfoldable pub calculate_read_power : D → Bool → MemCell D → D
  calculate_read_power vdd read_mode c =
      if is_zero c.read_power
      then (if read_mode
          then (if is_zero c.read_voltage
              then vdd ⊗ c.read_current
              else if is_zero c.read_current
              then vdd
                ⊗ ((c.read_voltage ⊖ c.voltage_drop_access_device)
                    ⊘ (c.resistance_on ⊕ d.sqrt (c.resistance_on ⊗ c.resistance_off)))
              else of_int 0 ⊖ of_int 1)
          else vdd ⊗ ((c.read_voltage ⊖ c.voltage_drop_access_device) ⊘ c.resistance_on))
      else of_int 0 ⊖ of_int 1

  -- Between the full and the half read voltage the logarithm of the current is linear.
  abbrev interpolated : D → D → D → D → D → D
  interpolated x1 x2 x3 y1 y2 = (y2 ⊖ y1) ⊘ (x2 ⊖ x1) ⊗ x3 ⊕ (x2 ⊗ y1 ⊖ x1 ⊗ y2) ⊘ (x2 ⊖ x1)

  abbrev memristor_resistance : D → MemCell D → D
  memristor_resistance relative c =
      let x1 =
        if is_zero c.read_voltage
        then c.read_current ⊗ c.resistance_on_at_read_voltage
        else c.read_voltage in
      let x2 = c.read_voltage ⊘ of_int 2 in
      let x3 = relative ⊗ c.read_voltage in
      let y1 = d.log2 (x1 ⊘ c.resistance_on_at_read_voltage) in
      let y2 = d.log2 (x2 ⊘ c.resistance_on_at_half_read_voltage) in
      x3 ⊘ d.pow (of_int 2) (interpolated x1 x2 x3 y1 y2)

  abbrev memristance : MemCellType → D → MemCell D → D
  memristance memristor relative c = memristor_resistance relative c
  memristance _ relative c = of_int 0 ⊖ of_int 1

  unfoldable pub get_memristance : D → MemCell D → D
  get_memristance relative c = memristance c.mem_cell_type relative c
