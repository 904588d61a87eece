-- ===== src/Result.antt =====
-- Result.cpp: a candidate design, the best one kept for an optimization target, and its update.
pub mod Best
pub mod Csv
use destiny_3d_cache.Prelude.{
  ℕ, ◌^◌, Bool, false, ◌&&◌, Option, none, List, [], ◌∷◌, map, if◌then◌else◌,
}
use destiny_3d_cache.Double.{Double, ◌⊗◌, ◌<?◌, ◌≤?◌}
use destiny_3d_cache.TypeDef.{
  OptimizationTarget, read_latency_optimized, write_latency_optimized, read_energy_optimized,
  write_energy_optimized, read_edp_optimized, write_edp_optimized, leakage_optimized,
  area_optimized, full_exploration,
}
use destiny_3d_cache.FunctionUnit.{FunctionUnit}
use destiny_3d_cache.Wire.{Wire}
use destiny_3d_cache.Bank.{Bank}

-- The limits that a design must keep to be kept.
pub record Limits (D : Type 0) : Type 0 where
  pub limit_read_latency : D
  pub limit_write_latency : D
  pub limit_read_dynamic_energy : D
  pub limit_write_dynamic_energy : D
  pub limit_read_edp : D
  pub limit_write_edp : D
  pub limit_area : D
  pub limit_leakage : D

-- `cell_tech` is the index of the memory cell in `sweepCells`.
pub record Result (D : Type 0) : Type 0 where
  pub optimization_target : OptimizationTarget
  pub bank : Bank D
  pub local_wire : Wire D
  pub global_wire : Wire D
  pub limits : Limits D
  pub open limits use *
  pub cell_tech : Option ℕ

module _ {D : Type 0} ⦃d : Double D⦄ where
  abbrev pub invalid_value : D
  invalid_value = d.lit (10 ^ 41) 0

  -- The members of the bank that the constructor and `reset` write.
  unfoldable pub worst_case : FunctionUnit D → FunctionUnit D
  worst_case u = record u {
    read_latency = invalid_value;
    write_latency = invalid_value;
    read_dynamic_energy = invalid_value;
    write_dynamic_energy = invalid_value;
    leakage = invalid_value;
    height = invalid_value;
    width = invalid_value;
    area = invalid_value;
  }

  pub no_constraints : Limits D
  no_constraints = record {
    limit_read_latency = invalid_value;
    limit_write_latency = invalid_value;
    limit_read_dynamic_energy = invalid_value;
    limit_write_dynamic_energy = invalid_value;
    limit_read_edp = invalid_value;
    limit_write_edp = invalid_value;
    limit_area = invalid_value;
    limit_leakage = invalid_value;
  }

  -- `Result::Result()`; the bank and the wires are what `new` returns.
  unfoldable pub new_result : Bank D → Wire D → Wire D → Result D
  unfolding worst_case no_constraints
  new_result bank local global = record {
    optimization_target = read_latency_optimized;
    bank = record bank { unit = worst_case bank.unit };
    local_wire = local;
    global_wire = global;
    limits = no_constraints;
    cell_tech = none;
  }

  unfoldable pub reset : Result D → Result D
  unfolding worst_case
  reset r = record r { bank = record r.bank { unit = worst_case r.bank.unit } }

  abbrev pub read_edp : Bank D → D
  read_edp b = b.read_latency ⊗ b.read_dynamic_energy

  abbrev pub write_edp : Bank D → D
  write_edp b = b.write_latency ⊗ b.write_dynamic_energy

  unfoldable pub within_limits : Limits D → Bank D → Bool
  within_limits l new =
      new.read_latency ≤? l.limit_read_latency
      && new.write_latency ≤? l.limit_write_latency
      && new.read_dynamic_energy ≤? l.limit_read_dynamic_energy
      && new.write_dynamic_energy ≤? l.limit_write_dynamic_energy
      && read_edp new ≤? l.limit_read_edp
      && write_edp new ≤? l.limit_write_edp
      && new.area ≤? l.limit_area
      && new.leakage ≤? l.limit_leakage

  -- the `switch` of `compareAndUpdate`
  unfoldable pub improves : OptimizationTarget → Bank D → Bank D → Bool
  improves read_latency_optimized new bank = new.read_latency <? bank.read_latency
  improves write_latency_optimized new bank = new.write_latency <? bank.write_latency
  improves read_energy_optimized new bank = new.read_dynamic_energy <? bank.read_dynamic_energy
  improves write_energy_optimized new bank = new.write_dynamic_energy <? bank.write_dynamic_energy
  improves read_edp_optimized new bank = read_edp new <? read_edp bank
  improves write_edp_optimized new bank = write_edp new <? write_edp bank
  improves area_optimized new bank = new.area <? bank.area
  improves leakage_optimized new bank = new.leakage <? bank.leakage
  improves full_exploration new bank = false

  -- `compareAndUpdate`, with the flag `toUpdate` that it returns
  unfoldable pub compare_and_update : Result D → Result D → Result D × Bool
  unfolding within_limits improves
  compare_and_update r new =
      let to_update =
        within_limits r.limits new.bank && improves r.optimization_target new.bank r.bank in
      (
        if to_update
            then record r {
              bank = new.bank;
              local_wire = new.local_wire;
              global_wire = new.global_wire;
            }
            else r,
        to_update,
      )
