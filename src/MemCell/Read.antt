-- ===== src/MemCell/Read.antt =====
-- MemCell.cpp: `ReadCellFromFile`. `tech->vdd` and `strtod` are given.
use destiny_3d_cache.Prelude.{
  ◌^◌, Bool, false, List, [], ◌∷◌, ◌++◌, Option, none, some, if◌then◌else◌,
}
use destiny_3d_cache.Prelude.Run.{Run, returns, outside, ◌>>=◌}
use destiny_3d_cache.Double.{Double, of_int, ◌⊘◌, ◌⊗◌}
use destiny_3d_cache.Text.{Text, codes, same_text}
use destiny_3d_cache.Text.Scan.{scan_word, get_or, int_bound}
use destiny_3d_cache.Text.Rules.{
  Rule, Reading, word_or, scan_double, word_rule, number_rule, double_rule, double_or,
}
use destiny_3d_cache.Text.Lines.{read_file}
use destiny_3d_cache.MemCell.{MemCell}
use destiny_3d_cache.MemCell.Words.{
  mem_cell_type_of, access_type_of, is_flash, is_edram, is_dram, is_sram, is_cmos_access,
}

module _ {D : Type 0} ⦃d : Double D⦄ where
  abbrev pub with_aspect_ratio : D → MemCell D → MemCell D
  with_aspect_ratio ratio c = record c {
    aspect_ratio = ratio;
    height_in_feature_size = d.sqrt (c.area ⊗ ratio);
    width_in_feature_size = d.sqrt (c.area ⊘ ratio);
  }

  -- A line that is ignored, with a warning, for other cells.
  abbrev pub only_if : (MemCell D → Bool) → Rule (MemCell D) → Rule (MemCell D)
  only_if test rule = record rule {
    action = λ line r. if test r.object then rule.action line r else returns r;
  }

  -- The voltages of both writes: `vdd` is looked for by the format of the reset voltage.
  abbrev pub voltage_or_vdd :
      D
      → Option D
      → (Option D → MemCell D → MemCell D)
      → Option Text
      → MemCell D
      → Run (Reading (MemCell D))
  voltage_or_vdd vdd value set none c = outside
  voltage_or_vdd vdd value set (some w) c = returns (record {
    object = if same_text w (codes "vdd") then record c { reset_voltage = vdd } else set value c;
    tmp = some w;
  })

  abbrev pub on_voltage :
      D
      → (Text → Option D)
      → Text
      → (Option D → MemCell D → MemCell D)
      → Text
      → Reading (MemCell D)
      → Run (Reading (MemCell D))
  on_voltage vdd strtod format set line r =
      voltage_or_vdd vdd (scan_double strtod format line) set
        (word_or r.tmp (scan_word (codes "-ResetVoltage (V): ") line)) r.object

  abbrev pub basic_rules : (Text → Option D) → List (Rule (MemCell D))
  basic_rules strtod =
      word_rule (codes "-MemCellType") (codes "-MemCellType: ")
        (λ w c. record c { mem_cell_type = mem_cell_type_of w })
      ∷ number_rule int_bound (codes "-ProcessNode") (codes "-ProcessNode: " ∷ [])
          (λ ns c. record c { process_node = get_or c.process_node ns 0 })
      ∷ double_rule strtod (codes "-CellArea") (codes "-CellArea (F^2): ")
          (λ x c. record c { area = double_or c.area x })
      ∷ double_rule strtod (codes "-CellAspectRatio") (codes "-CellAspectRatio: ")
          (λ x c. with_aspect_ratio (double_or c.aspect_ratio x) c)
      ∷ double_rule strtod (codes "-ResistanceOnAtSetVoltage")
          (codes "-ResistanceOnAtSetVoltage (ohm): ")
          (λ x c. record c {
            resistance_on_at_set_voltage = double_or c.resistance_on_at_set_voltage x;
          })
      ∷ double_rule strtod (codes "-ResistanceOffAtSetVoltage")
          (codes "-ResistanceOffAtSetVoltage (ohm): ")
          (λ x c. record c {
            resistance_off_at_set_voltage = double_or c.resistance_off_at_set_voltage x;
          })
      ∷ double_rule strtod (codes "-ResistanceOnAtResetVoltage")
          (codes "-ResistanceOnAtResetVoltage (ohm): ")
          (λ x c. record c {
            resistance_on_at_reset_voltage = double_or c.resistance_on_at_reset_voltage x;
          })
      ∷ double_rule strtod (codes "-ResistanceOffAtResetVoltage")
          (codes "-ResistanceOffAtResetVoltage (ohm): ")
          (λ x c. record c {
            resistance_off_at_reset_voltage = double_or c.resistance_off_at_reset_voltage x;
          })
      ∷ double_rule strtod (codes "-ResistanceOnAtReadVoltage")
          (codes "-ResistanceOnAtReadVoltage (ohm): ")
          (λ x c.
            let value = double_or c.resistance_on_at_read_voltage x in
            record c { resistance_on_at_read_voltage = value; resistance_on = value })
      ∷ double_rule strtod (codes "-ResistanceOffAtReadVoltage")
          (codes "-ResistanceOffAtReadVoltage (ohm): ")
          (λ x c.
            let value = double_or c.resistance_off_at_read_voltage x in
            record c { resistance_off_at_read_voltage = value; resistance_off = value })
      ∷ double_rule strtod (codes "-ResistanceOnAtHalfReadVoltage")
          (codes "-ResistanceOnAtHalfReadVoltage (ohm): ")
          (λ x c. record c {
            resistance_on_at_half_read_voltage = double_or c.resistance_on_at_half_read_voltage x;
          })
      ∷ double_rule strtod (codes "-ResistanceOffAtHalfReadVoltage")
          (codes "-ResistanceOffAtHalfReadVoltage (ohm): ")
          (λ x c. record c {
            resistance_off_at_half_read_voltage = double_or c.resistance_off_at_half_read_voltage x;
          })
      ∷ double_rule strtod (codes "-ResistanceOnAtHalfResetVoltage")
          (codes "-ResistanceOnAtHalfResetVoltage (ohm): ")
          (λ x c. record c {
            resistance_on_at_half_reset_voltage = double_or c.resistance_on_at_half_reset_voltage x;
          })
      ∷ double_rule strtod (codes "-ResistanceOn") (codes "-ResistanceOn (ohm): ")
          (λ x c. record c { resistance_on = double_or c.resistance_on x })
      ∷ double_rule strtod (codes "-ResistanceOff") (codes "-ResistanceOff (ohm): ")
          (λ x c. record c { resistance_off = double_or c.resistance_off x })
      ∷ double_rule strtod (codes "-CapacitanceOn") (codes "-CapacitanceOn (F): ")
          (λ x c. record c { capacitance_on = double_or c.capacitance_on x })
      ∷ double_rule strtod (codes "-CapacitanceOff") (codes "-CapacitanceOff (F): ")
          (λ x c. record c { capacitance_off = double_or c.capacitance_off x })
      ∷ double_rule strtod (codes "-GateOxThicknessFactor") (codes "-GateOxThicknessFactor: ")
          (λ x c. record c { gate_ox_thickness_factor = double_or c.gate_ox_thickness_factor x })
      ∷ double_rule strtod (codes "-SOIDeviceWidth (F)") (codes "-SOIDeviceWidth (F): ")
          (λ x c. record c { width_soi_device = double_or c.width_soi_device x })
      ∷ []

  abbrev pub read_rules : (Text → Option D) → List (Rule (MemCell D))
  read_rules strtod =
      word_rule (codes "-ReadMode") (codes "-ReadMode: ")
        (λ w c. record c { read_mode = same_text w (codes "voltage") })
      ∷ double_rule strtod (codes "-ReadVoltage") (codes "-ReadVoltage (V): ")
          (λ x c. record c { read_voltage = double_or c.read_voltage x })
      ∷ double_rule strtod (codes "-ReadCurrent") (codes "-ReadCurrent (uA): ")
          (λ x c. record c { read_current = double_or c.read_current x ⊘ of_int (10 ^ 6) })
      ∷ double_rule strtod (codes "-ReadPower") (codes "-ReadPower (uW): ")
          (λ x c. record c { read_power = double_or c.read_power x ⊘ of_int (10 ^ 6) })
      ∷ double_rule strtod (codes "-WordlineBoostRatio") (codes "-WordlineBoostRatio: ")
          (λ x c. record c { wordline_boost_ratio = double_or c.wordline_boost_ratio x })
      ∷ double_rule strtod (codes "-MinSenseVoltage") (codes "-MinSenseVoltage (mV): ") (λ x c.
        record c { min_sense_voltage = double_or c.min_sense_voltage x ⊘ of_int (10 ^ 3) })
      ∷ []

  abbrev pub write_rules : D → (Text → Option D) → List (Rule (MemCell D))
  write_rules vdd strtod =
      word_rule (codes "-ResetMode") (codes "-ResetMode: ")
        (λ w c. record c { reset_mode = same_text w (codes "voltage") })
      ∷ record {
        key = codes "-ResetVoltage";
        goes_on = false;
        action =
            on_voltage vdd strtod (codes "-ResetVoltage (V): ")
              λ x c. record c { reset_voltage = double_or c.reset_voltage x };
      }
      ∷ double_rule strtod (codes "-ResetCurrent") (codes "-ResetCurrent (uA): ")
          (λ x c. record c { reset_current = double_or c.reset_current x ⊘ of_int (10 ^ 6) })
      ∷ double_rule strtod (codes "-ResetPulse") (codes "-ResetPulse (ns): ")
          (λ x c. record c { reset_pulse = double_or c.reset_pulse x ⊘ of_int (10 ^ 9) })
      ∷ double_rule strtod (codes "-ResetEnergy") (codes "-ResetEnergy (pJ): ")
          (λ x c. record c { reset_energy = double_or c.reset_energy x ⊘ of_int (10 ^ 12) })
      ∷ word_rule (codes "-SetMode") (codes "-SetMode: ")
          (λ w c. record c { set_mode = same_text w (codes "voltage") })
      ∷ record {
        key = codes "-SetVoltage";
        goes_on = false;
        action =
            on_voltage vdd strtod (codes "-SetVoltage (V): ")
              λ x c. record c { set_voltage = double_or c.set_voltage x };
      }
      ∷ double_rule strtod (codes "-SetCurrent") (codes "-SetCurrent (uA): ")
          (λ x c. record c { set_current = double_or c.set_current x ⊘ of_int (10 ^ 6) })
      ∷ double_rule strtod (codes "-SetPulse") (codes "-SetPulse (ns): ")
          (λ x c. record c { set_pulse = double_or c.set_pulse x ⊘ of_int (10 ^ 9) })
      ∷ double_rule strtod (codes "-SetEnergy") (codes "-SetEnergy (pJ): ")
          (λ x c. record c { set_energy = double_or c.set_energy x ⊘ of_int (10 ^ 12) })
      ∷ number_rule int_bound (codes "-Stitching") (codes "-Stitching: " ∷ [])
          (λ ns c. record c { stitching = get_or c.stitching ns 0 })
      ∷ word_rule (codes "-AccessType") (codes "-AccessType: ")
          (λ w c. record c { access_type = access_type_of w })
      ∷ []

  abbrev pub optional_rules : (Text → Option D) → List (Rule (MemCell D))
  optional_rules strtod =
      only_if (λ c. is_cmos_access c.access_type)
        (double_rule strtod (codes "-AccessCMOSWidth") (codes "-AccessCMOSWidth (F): ")
          (λ x c. record c { width_access_cmos = double_or c.width_access_cmos x }))
      ∷ double_rule strtod (codes "-VoltageDropAccessDevice")
          (codes "-VoltageDropAccessDevice (V): ")
          (λ x c. record c {
            voltage_drop_access_device = double_or c.voltage_drop_access_device x;
          })
      ∷ double_rule strtod (codes "-LeakageCurrentAccessDevice")
          (codes "-LeakageCurrentAccessDevice (uA): ")
          (λ x c. record c {
            leakage_current_access_device =
                double_or c.leakage_current_access_device x ⊘ of_int (10 ^ 6);
          })
      ∷ only_if (λ c. is_dram c.mem_cell_type)
          (double_rule strtod (codes "-DRAMCellCapacitance") (codes "-DRAMCellCapacitance (F): ")
            (λ x c. record c { cap_dram_cell = double_or c.cap_dram_cell x }))
      ∷ only_if (λ c. is_sram c.mem_cell_type)
          (double_rule strtod (codes "-SRAMCellNMOSWidth") (codes "-SRAMCellNMOSWidth (F): ")
            (λ x c. record c { width_sram_cell_nmos = double_or c.width_sram_cell_nmos x }))
      ∷ only_if (λ c. is_sram c.mem_cell_type)
          (double_rule strtod (codes "-SRAMCellPMOSWidth") (codes "-SRAMCellPMOSWidth (F): ")
            (λ x c. record c { width_sram_cell_pmos = double_or c.width_sram_cell_pmos x }))
      ∷ word_rule (codes "-ReadFloating") (codes "-ReadFloating: ")
          (λ w c. record c { read_floating = same_text w (codes "true") })
      ∷ only_if (λ c. is_flash c.mem_cell_type)
          (double_rule strtod (codes "-FlashEraseVoltage (V)") (codes "-FlashEraseVoltage (V): ")
            (λ x c. record c { flash_erase_voltage = double_or c.flash_erase_voltage x }))
      ∷ only_if (λ c. is_flash c.mem_cell_type)
          (double_rule strtod (codes "-FlashProgramVoltage (V)")
            (codes "-FlashProgramVoltage (V): ")
            (λ x c. record c { flash_program_voltage = double_or c.flash_program_voltage x }))
      ∷ only_if (λ c. is_flash c.mem_cell_type)
          (double_rule strtod (codes "-FlashPassVoltage (V)") (codes "-FlashPassVoltage (V): ")
            (λ x c. record c { flash_pass_voltage = double_or c.flash_pass_voltage x }))
      ∷ only_if (λ c. is_flash c.mem_cell_type)
          (double_rule strtod (codes "-FlashEraseTime") (codes "-FlashEraseTime (ms): ") (λ x c.
            record c { flash_erase_time = double_or c.flash_erase_time x ⊘ of_int (10 ^ 3) }))
      ∷ only_if (λ c. is_flash c.mem_cell_type)
          (double_rule strtod (codes "-FlashProgramTime") (codes "-FlashProgramTime (us): ") (λ x c.
            record c { flash_program_time = double_or c.flash_program_time x ⊘ of_int (10 ^ 6) }))
      ∷ only_if (λ c. is_flash c.mem_cell_type)
          (double_rule strtod (codes "-GateCouplingRatio") (codes "-GateCouplingRatio: ")
            (λ x c. record c { gate_coupling_ratio = double_or c.gate_coupling_ratio x }))
      ∷ only_if (λ c. is_edram c.mem_cell_type)
          (double_rule strtod (codes "-RetentionTime") (codes "-RetentionTime (us): ")
            (λ x c. record c { retention_time = double_or c.retention_time x ⊘ of_int (10 ^ 6) }))
      ∷ only_if (λ c. is_edram c.mem_cell_type)
          (double_rule strtod (codes "-Temperature") (codes "-Temperature (K): ")
            (λ x c. record c { temperature = double_or c.temperature x }))
      ∷ []

  abbrev pub cell_rules : D → (Text → Option D) → List (Rule (MemCell D))
  cell_rules vdd strtod =
      basic_rules strtod ++ (read_rules strtod ++ (write_rules vdd strtod ++ optional_rules strtod))

  unfoldable pub read_cell : D → (Text → Option D) → Option Text → MemCell D → Run (MemCell D)
  read_cell vdd strtod file c =
      read_file (cell_rules vdd strtod) file (record { object = c; tmp = none }) >>= λ r.
      returns r.object
