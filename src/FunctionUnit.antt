-- ===== src/FunctionUnit.antt =====
-- FunctionUnit.h: what every component of the memory reports.
pub record FunctionUnit (D : Type 0) : Type 0 where
  pub height : D
  pub width : D
  pub area : D
  pub read_latency : D
  pub write_latency : D
  pub read_dynamic_energy : D
  pub write_dynamic_energy : D
  pub leakage : D
  pub set_latency : D
  pub reset_latency : D
  pub refresh_latency : D
  pub set_dynamic_energy : D
  pub reset_dynamic_energy : D
  pub cell_read_energy : D
  pub cell_set_energy : D
  pub cell_reset_energy : D
  pub refresh_dynamic_energy : D
