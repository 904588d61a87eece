-- ===== src/Examples/Files.antt =====
-- The files that the program reads, on small texts.
use destiny_3d_cache.Prelude.{◌≡◌, refl, false, List, [], ◌∷◌, ◌++◌, Option, none, some, arith, All}
use destiny_3d_cache.Prelude.Run.{returns, run_all}
use destiny_3d_cache.Double.Whole.{Whole, whole_double}
use destiny_3d_cache.Text.{Text, codes}
use destiny_3d_cache.Text.Rules.{run_rules}
use destiny_3d_cache.TypeDef.{cache, mram, pcram, cmos_access}
use destiny_3d_cache.InputParameter.{InputParameter}
use destiny_3d_cache.InputParameter.Read.{read_parameter}
use destiny_3d_cache.InputParameter.Settings.{
  Setting, of_data, of_tag, IsWritable, design_target, memory_cell_input_file, capacity_kb,
  word_width, stacked_die_count, force_bank, local_wire_type,
}
use destiny_3d_cache.InputParameter.Settings.Files.{
  print_settings, apply_settings, read_parameter-print_settings,
}
use destiny_3d_cache.MemCell.{MemCell, new_cell}
use destiny_3d_cache.MemCell.Read.{cell_rules}
use destiny_3d_cache.MemCell.Voltages.{read-set_voltage_after_reset_voltage}
use destiny_3d_cache.Examples.{parameter}

-- a 64 KiB cache on two dies
abbrev settings : List Setting
settings =
    design_target cache
    ∷ capacity_kb 64
    ∷ word_width 512
    ∷ memory_cell_input_file (codes "sample_SRAM.cell")
    ∷ stacked_die_count 2
    ∷ local_wire_type of_tag 3
    ∷ force_bank of_data 4 2 1 2
    ∷ []

settings-IsWritable : All IsWritable settings
settings-IsWritable = (
  tt,
  (
    omega arith,
    (
      omega arith,
      (
        refl,
        (omega arith, (omega arith, ((omega arith, omega arith, omega arith, omega arith), tt))),
      ),
    ),
  ),
)

abbrev no_double : Text → Option Whole
no_double t = none

read_parameter_example :
    read_parameter no_double (some (print_settings settings)) parameter
    ≡ returns (apply_settings settings (record parameter { forced_stack_layers = false }))
read_parameter_example =
    read_parameter-print_settings no_double settings parameter settings-IsWritable

-- what `malloc` left
abbrev memory : MemCell Whole
memory = record {
  mem_cell_type = pcram;
  process_node = 0;
  area = some 0;
  aspect_ratio = some 0;
  width_in_feature_size = some 0;
  height_in_feature_size = some 0;
  resistance_on = some 0;
  resistance_off = some 0;
  capacitance_on = some 0;
  capacitance_off = some 0;
  read_mode = false;
  read_voltage = some 0;
  read_current = some 0;
  min_sense_voltage = some 0;
  wordline_boost_ratio = some 0;
  read_power = some 0;
  reset_mode = false;
  reset_voltage = some 0;
  reset_current = some 0;
  reset_pulse = some 0;
  reset_energy = some 0;
  set_mode = false;
  set_voltage = some 0;
  set_current = some 0;
  set_pulse = some 0;
  set_energy = some 0;
  access_type = cmos_access;
  stitching = 0;
  gate_ox_thickness_factor = some 0;
  width_soi_device = some 0;
  width_access_cmos = some 0;
  voltage_drop_access_device = some 0;
  leakage_current_access_device = some 0;
  cap_dram_cell = some 0;
  width_sram_cell_nmos = some 0;
  width_sram_cell_pmos = some 0;
  read_floating = false;
  resistance_on_at_set_voltage = some 0;
  resistance_off_at_set_voltage = some 0;
  resistance_on_at_reset_voltage = some 0;
  resistance_off_at_reset_voltage = some 0;
  resistance_on_at_read_voltage = some 0;
  resistance_off_at_read_voltage = some 0;
  resistance_on_at_half_read_voltage = some 0;
  resistance_off_at_half_read_voltage = some 0;
  resistance_on_at_half_reset_voltage = some 0;
  flash_erase_voltage = some 0;
  flash_pass_voltage = some 0;
  flash_program_voltage = some 0;
  flash_erase_time = some 0;
  flash_program_time = some 0;
  gate_coupling_ratio = some 0;
  retention_time = some 0;
  temperature = some 0;
}

-- an MRAM cell of 45 nm
abbrev pub cell : MemCell Whole
cell = record (new_cell memory) { mem_cell_type = mram; process_node = 45; set_voltage = some 3 }

read-set_voltage_example :
    run_all
      (run_rules (cell_rules (some 1) no_double))
      ((codes "-ResetVoltage (V): " ++ codes "vdd")
        ∷ (codes "-SetVoltage (V): " ++ codes "0.8")
        ∷ [])
      (record { object = cell; tmp = none })
    ≡ returns (record { object = record cell { reset_voltage = some 1 }; tmp = some (codes "vdd") })
read-set_voltage_example =
    read-set_voltage_after_reset_voltage (some 1) no_double (codes "vdd") (codes "0.8")
      (record { object = cell; tmp = none }) refl
