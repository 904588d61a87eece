-- ===== src/Examples/Technology.antt =====
-- A technology with small numbers, and its TSVs.
use destiny_3d_cache.Prelude.{ℕ, ◌≤◌, ◌-◌, ◌↔◌, ◌≡◌, refl, true, [], ◌∷◌, ◌++◌, some, arith}
use destiny_3d_cache.Prelude.Run.{returns, run_all}
use destiny_3d_cache.Double.Whole.{Whole, whole_double}
use destiny_3d_cache.TypeDef.{hp}
use destiny_3d_cache.Technology.{
  Technology, Tsv, TsvTable, TsvFigures, recalculate, set_layer_count,
}
use destiny_3d_cache.Technology.Layers.{IsCurrent, run_all-set_layer_count}
use destiny_3d_cache.Nvsim.Setup.Node.{Between, table_above, table_above-weight}
use destiny_3d_cache.Examples.{parameter}

abbrev tsv : ℕ → Tsv Whole
tsv len = record {
  pitch = some 40;
  diameter = some 2;
  length = some len;
  dielec_thickness = some 40;
  contact_resistance = some 2;
  depletion_width = some 40;
  liner_dielectric_constant = some 2;
  parasitic_res = some 2;
  parasitic_cap = some 2;
  occupation_area = some 2;
}

abbrev table : TsvTable Whole
table = record {
  fine_itrs = tsv 1;
  coarse_itrs = tsv 2;
  fine_industry = tsv 3;
  coarse_industry = tsv 4;
}

abbrev no_figures : TsvFigures Whole
no_figures = record { res_tsv = some 0; cap_tsv = some 0; area_tsv = some 0 }

abbrev tables : Technology Whole
tables = record {
  initialized = true;
  feature_size_in_nano = 0;
  feature_size = some 1;
  device_roadmap = hp;
  vdd = some 1;
  vpp = some 1;
  vth = some 1;
  vdsat_nmos = some 1;
  vdsat_pmos = some 1;
  phy_gate_length = some 1;
  cap_ideal_gate = some 1;
  cap_fringe = some 1;
  cap_junction = some 1;
  cap_overlap = some 1;
  cap_sidewall = some 1;
  cap_drain_to_channel = some 1;
  cap_ox = some 1;
  build_in_potential = some 1;
  effective_electron_mobility = some 1;
  effective_hole_mobility = some 1;
  pn_size_ratio = some 1;
  effective_resistance_multiplier = some 1;
  current_on_nmos = [];
  current_on_pmos = [];
  current_off_nmos = [];
  current_off_pmos = [];
  cap_polywire = some 1;
  fine_tsv = no_figures;
  coarse_tsv = no_figures;
  layer_count = 0;
  tsv = table;
}

-- as `Initialize` leaves it
abbrev technology : Technology Whole
technology = recalculate parameter 2 tables

technology-IsCurrent : IsCurrent parameter technology
unfolding recalculate
technology-IsCurrent = refl

set_layer_count_example :
    run_all (set_layer_count parameter) ((1 ∷ 4 ∷ 4 ∷ []) ++ 2 ∷ []) technology
    ≡ returns (recalculate parameter 2 technology)
set_layer_count_example =
    run_all-set_layer_count parameter (1 ∷ 4 ∷ 4 ∷ []) 2 technology (omega arith) (omega arith)
      technology-IsCurrent

table_above_example :
    (b : Between) × (table_above 190 ≡ some b)
    × (b.base ≤ 190)
    × (190 ≤ b.high)
    × (190 - b.base ≤ b.width ↔ 190 ≤ 180)
table_above_example = table_above-weight 190 (omega arith) (omega arith)
