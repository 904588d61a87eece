-- ===== src/MemCell.antt =====
-- MemCell.h, and the constructor of MemCell.cpp.
pub mod Words
pub mod Read
pub mod Voltages
pub mod Scaling
pub mod Energy
use destiny_3d_cache.Prelude.{ℕ, Bool, true, false}
use destiny_3d_cache.Double.{Double, of_int, invalid_value}
use destiny_3d_cache.TypeDef.{MemCellType, pcram, CellAccessType, cmos_access}

pub record MemCell (D : Type 0) : Type 0 where
  pub mem_cell_type : MemCellType
  pub process_node : ℕ
  pub area : D
  pub aspect_ratio : D
  pub width_in_feature_size : D
  pub height_in_feature_size : D
  pub resistance_on : D
  pub resistance_off : D
  pub capacitance_on : D
  pub capacitance_off : D
  pub read_mode : Bool
  pub read_voltage : D
  pub read_current : D
  pub min_sense_voltage : D
  pub wordline_boost_ratio : D
  pub read_power : D
  pub reset_mode : Bool
  pub reset_voltage : D
  pub reset_current : D
  pub reset_pulse : D
  pub reset_energy : D
  pub set_mode : Bool
  pub set_voltage : D
  pub set_current : D
  pub set_pulse : D
  pub set_energy : D
  pub access_type : CellAccessType
  pub stitching : ℕ
  pub gate_ox_thickness_factor : D
  pub width_soi_device : D
  pub width_access_cmos : D
  pub voltage_drop_access_device : D
  pub leakage_current_access_device : D
  pub cap_dram_cell : D
  pub width_sram_cell_nmos : D
  pub width_sram_cell_pmos : D
  pub read_floating : Bool
  pub resistance_on_at_set_voltage : D
  pub resistance_off_at_set_voltage : D
  pub resistance_on_at_reset_voltage : D
  pub resistance_off_at_reset_voltage : D
  pub resistance_on_at_read_voltage : D
  pub resistance_off_at_read_voltage : D
  pub resistance_on_at_half_read_voltage : D
  pub resistance_off_at_half_read_voltage : D
  pub resistance_on_at_half_reset_voltage : D
  pub flash_erase_voltage : D
  pub flash_pass_voltage : D
  pub flash_program_voltage : D
  pub flash_erase_time : D
  pub flash_program_time : D
  pub gate_coupling_ratio : D
  pub retention_time : D
  pub temperature : D

module _ {D : Type 0} ⦃d : Double D⦄ where
  -- The members that the constructor does not set keep what was in memory.
  unfoldable pub new_cell : MemCell D → MemCell D
  new_cell memory = record memory {
    mem_cell_type = pcram;
    area = of_int 0;
    aspect_ratio = of_int 0;
    resistance_on = of_int 0;
    resistance_off = of_int 0;
    read_mode = true;
    read_voltage = of_int 0;
    read_current = of_int 0;
    read_power = of_int 0;
    wordline_boost_ratio = of_int 1;
    reset_mode = true;
    reset_voltage = of_int 0;
    reset_current = of_int 0;
    min_sense_voltage = d.lit 8 2;
    reset_pulse = of_int 0;
    reset_energy = of_int 0;
    set_mode = true;
    set_voltage = of_int 0;
    set_current = of_int 0;
    set_pulse = of_int 0;
    access_type = cmos_access;
    process_node = 0;
    set_energy = of_int 0;
    stitching = 0;
    gate_ox_thickness_factor = of_int 2;
    width_soi_device = of_int 0;
    width_access_cmos = of_int 0;
    voltage_drop_access_device = of_int 0;
    leakage_current_access_device = of_int 0;
    cap_dram_cell = of_int 0;
    width_sram_cell_nmos = d.lit 208 2;
    width_sram_cell_pmos = d.lit 123 2;
    read_floating = false;
    resistance_on_at_set_voltage = of_int 0;
    resistance_off_at_set_voltage = of_int 0;
    resistance_on_at_reset_voltage = of_int 0;
    resistance_off_at_reset_voltage = of_int 0;
    resistance_on_at_read_voltage = of_int 0;
    resistance_off_at_read_voltage = of_int 0;
    resistance_on_at_half_read_voltage = of_int 0;
    resistance_off_at_half_read_voltage = of_int 0;
    retention_time = invalid_value;
  }
