-- ===== src/Result/Csv/Figures.antt =====
-- Result.cpp: the latencies and energies of a cache, of its two arrays.
use destiny_3d_cache.Prelude.{if◌then◌else◌}
use destiny_3d_cache.Double.{Double, ◌⊕◌, ◌⊖◌, ◌<?◌}
use destiny_3d_cache.TypeDef.{
  CacheAccessMode, normal_access_mode, fast_access_mode, sequential_access_mode,
}
use destiny_3d_cache.FunctionUnit.{FunctionUnit}
use destiny_3d_cache.Bank.{Bank}

-- What the analog models compute of the mat of a bank and of its subarray.
pub record MatUnits (D : Type 0) : Type 0 where
  pub mat : FunctionUnit D
  pub subarray : FunctionUnit D
  pub column_decoder_latency : D

pub record CacheFigures (D : Type 0) : Type 0 where
  pub hit_latency : D
  pub miss_latency : D
  pub write_latency : D
  pub hit_dynamic_energy : D
  pub miss_dynamic_energy : D
  pub write_dynamic_energy : D

module _ {D : Type 0} ⦃d : Double D⦄ where
  -- the macro `MAX`
  abbrev pub maximum : D → D → D
  maximum a b = if b <? a then a else b

  -- The accesses of a cache: the data array waits for the tag array in sequential mode, and only for
  -- its hit signal in normal mode.
  abbrev pub cache_figures : CacheAccessMode → MatUnits D → Bank D → Bank D → CacheFigures D
  cache_figures normal_access_mode u b t = record {
    hit_latency =
        maximum t.read_latency u.mat.read_latency
        ⊕ u.column_decoder_latency
        ⊕ (b.read_latency ⊖ u.mat.read_latency);
    miss_latency = t.read_latency;
    write_latency = maximum t.write_latency b.write_latency;
    hit_dynamic_energy = t.read_dynamic_energy ⊕ b.read_dynamic_energy;
    miss_dynamic_energy = t.read_dynamic_energy ⊕ b.read_dynamic_energy;
    write_dynamic_energy = t.write_dynamic_energy ⊕ b.write_dynamic_energy;
  }
  cache_figures fast_access_mode u b t = record {
    hit_latency = maximum t.read_latency b.read_latency;
    miss_latency = t.read_latency;
    write_latency = maximum t.write_latency b.write_latency;
    hit_dynamic_energy = t.read_dynamic_energy ⊕ b.read_dynamic_energy;
    miss_dynamic_energy = t.read_dynamic_energy ⊕ b.read_dynamic_energy;
    write_dynamic_energy = t.write_dynamic_energy ⊕ b.write_dynamic_energy;
  }
  cache_figures sequential_access_mode u b t = record {
    hit_latency = t.read_latency ⊕ b.read_latency;
    miss_latency = t.read_latency;
    write_latency = maximum t.write_latency b.write_latency;
    hit_dynamic_energy = t.read_dynamic_energy ⊕ b.read_dynamic_energy;
    miss_dynamic_energy = t.read_dynamic_energy;
    write_dynamic_energy = t.write_dynamic_energy ⊕ b.write_dynamic_energy;
  }
