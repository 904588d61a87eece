-- ===== src/Technology.antt =====
-- Technology.cpp: what changes a technology after its tables are loaded, `InterpolateWith` and
-- `SetLayerCount`.
pub mod Layers
use destiny_3d_cache.Prelude.{ℕ, ◌^◌, Bool, ◌&&◌, List, [], ◌∷◌, ◌==◌, ltb, if◌then◌else◌}
use destiny_3d_cache.Prelude.Run.{Run, returns, outside}
use destiny_3d_cache.Double.{Double, ◌⊕◌, ◌⊖◌, ◌⊗◌, ◌⊘◌, of_int}
use destiny_3d_cache.TypeDef.{
  DeviceRoadmap, TsvType, fine, coarse, WireType, local_conservative, semi_conservative,
  global_conservative, dram_wordline,
}
use destiny_3d_cache.InputParameter.{InputParameter}

-- The ten arrays `tsv_...` at one pair of indices.
pub record Tsv (D : Type 0) : Type 0 where
  pub pitch : D
  pub diameter : D
  pub length : D
  pub dielec_thickness : D
  pub contact_resistance : D
  pub depletion_width : D
  pub liner_dielectric_constant : D
  pub parasitic_res : D
  pub parasitic_cap : D
  pub occupation_area : D

-- The arrays, by the type and then the projection: 0 is that of ITRS and 1 that of industry.
pub record TsvTable (D : Type 0) : Type 0 where
  pub fine_itrs : Tsv D
  pub coarse_itrs : Tsv D
  pub fine_industry : Tsv D
  pub coarse_industry : Tsv D

-- `resTSV`, `capTSV` and `areaTSV` at one type
pub record TsvFigures (D : Type 0) : Type 0 where
  pub res_tsv : D
  pub cap_tsv : D
  pub area_tsv : D

pub record Technology (D : Type 0) : Type 0 where
  pub initialized : Bool
  pub feature_size_in_nano : ℕ
  pub feature_size : D
  pub device_roadmap : DeviceRoadmap
  pub vdd : D
  pub vpp : D
  pub vth : D
  pub vdsat_nmos : D
  pub vdsat_pmos : D
  pub phy_gate_length : D
  pub cap_ideal_gate : D
  pub cap_fringe : D
  pub cap_junction : D
  pub cap_overlap : D
  pub cap_sidewall : D
  pub cap_drain_to_channel : D
  pub cap_ox : D
  pub build_in_potential : D
  pub effective_electron_mobility : D
  pub effective_hole_mobility : D
  pub pn_size_ratio : D
  pub effective_resistance_multiplier : D
  pub current_on_nmos : List D
  pub current_on_pmos : List D
  pub current_off_nmos : List D
  pub current_off_pmos : List D
  pub cap_polywire : D
  pub fine_tsv : TsvFigures D
  pub coarse_tsv : TsvFigures D
  pub layer_count : ℕ
  pub tsv : TsvTable D

-- `WireTypeToTSVType`
abbrev pub wire_type_to_tsv_type : WireType → TsvType
wire_type_to_tsv_type w =
    if w == local_conservative
    then coarse
    else if w == semi_conservative
    then coarse
    else if w == global_conservative
    then coarse
    else if w == dram_wordline
    then coarse
    else fine

module _ {D : Type 0} ⦃d : Double D⦄ where
  -- Entry by entry; the arrays have the same length.
  abbrev mixed : (D → D → D) → List D → List D → List D
  mixed f [] ys = []
  mixed f (x ∷ xs) [] = x ∷ xs
  mixed f (x ∷ xs) (y ∷ ys) = f x y ∷ mixed f xs ys

  abbrev linear : D → D → D → D
  linear alpha x y = (of_int 1 ⊖ alpha) ⊗ x ⊕ alpha ⊗ y

  abbrev geometric : D → D → D → D
  geometric alpha x y = d.pow x (of_int 1 ⊖ alpha) ⊗ d.pow y alpha

  -- A capacitance of a junction, by its coefficient and the supply voltage.
  abbrev graded : D → D → D → D → D
  graded capacitance coefficient supply potential =
      capacitance ⊘ d.pow (of_int 1 ⊕ supply ⊘ potential) coefficient

  -- What is computed from the mixed values.
  abbrev with_junctions : Technology D → Technology D
  with_junctions t =
      let potential = d.lit 9 1 in
      record t {
        build_in_potential = potential;
        cap_junction = graded (d.lit 1 3) (d.lit 5 1) t.vdd potential;
        cap_sidewall = graded (d.lit 25 11) (d.lit 33 2) t.vdd potential;
        cap_drain_to_channel = graded (d.lit 5 11) (d.lit 33 2) t.vdd potential;
        vdsat_nmos = t.phy_gate_length ⊗ of_int (10 ^ 5) ⊘ t.effective_electron_mobility;
        vdsat_pmos = t.phy_gate_length ⊗ of_int (10 ^ 5) ⊘ t.effective_hole_mobility;
      }

  abbrev with_mixed : Technology D → D → Technology D → Technology D
  with_mixed rhs alpha t = record t {
    vdd = linear alpha t.vdd rhs.vdd;
    vth = linear alpha t.vth rhs.vth;
    phy_gate_length = linear alpha t.phy_gate_length rhs.phy_gate_length;
    cap_ideal_gate = linear alpha t.cap_ideal_gate rhs.cap_ideal_gate;
    cap_fringe = linear alpha t.cap_fringe rhs.cap_fringe;
    cap_junction = linear alpha t.cap_junction rhs.cap_junction;
    cap_ox = linear alpha t.cap_ox rhs.cap_ox;
    effective_electron_mobility =
        linear alpha t.effective_electron_mobility rhs.effective_electron_mobility;
    effective_hole_mobility = linear alpha t.effective_hole_mobility rhs.effective_hole_mobility;
    pn_size_ratio = linear alpha t.pn_size_ratio rhs.pn_size_ratio;
    effective_resistance_multiplier =
        linear alpha t.effective_resistance_multiplier rhs.effective_resistance_multiplier;
    current_on_nmos = mixed (linear alpha) t.current_on_nmos rhs.current_on_nmos;
    current_on_pmos = mixed (linear alpha) t.current_on_pmos rhs.current_on_pmos;
    current_off_nmos = mixed (geometric alpha) t.current_off_nmos rhs.current_off_nmos;
    current_off_pmos = mixed (geometric alpha) t.current_off_pmos rhs.current_off_pmos;
  }

  unfoldable pub interpolate_with : Technology D → D → Technology D → Technology D
  interpolate_with rhs alpha t =
      if t.feature_size_in_nano == rhs.feature_size_in_nano
      then t
      else with_junctions (with_mixed rhs alpha t)

  abbrev pi : D
  pi = d.lit 31416 4

  abbrev permittivity_free_space : D
  permittivity_free_space = d.lit 8854 21

  abbrev bulk_cu_resistivity : D
  bulk_cu_resistivity = d.lit 18 3

  abbrev tsv_resistance : D → D → D → D → D
  tsv_resistance resistivity len diam contact =
      resistivity ⊗ len ⊘ (pi ⊗ (diam ⊘ of_int 2) ⊗ (diam ⊘ of_int 2)) ⊕ contact

  -- The coupling to the TSVs at a distance.
  abbrev coupling_cap : D → D → D → D
  coupling_cap len diam distance =
      d.lit 4 1
      ⊗ (d.lit 225 3 ⊗ d.log (d.lit 97 2 ⊗ len ⊘ diam) ⊕ d.lit 53 2)
      ⊗ (permittivity_free_space ⊗ d.lit 119 1)
      ⊘ (distance ⊖ diam)
      ⊗ pi
      ⊗ diam
      ⊗ len

  abbrev self_cap : D → D → D → D → D → D
  self_cap len diam dielec liner depletion =
      let liner_cap =
        of_int 2
        ⊗ pi
        ⊗ permittivity_free_space
        ⊗ liner
        ⊗ len
        ⊘ d.log (of_int 1 ⊕ dielec ⊘ (diam ⊘ of_int 2)) in
      let depletion_cap =
        of_int 2
        ⊗ pi
        ⊗ (permittivity_free_space ⊗ d.lit 119 1)
        ⊗ len
        ⊘ d.log (of_int 1 ⊕ depletion ⊘ (dielec ⊕ diam ⊘ of_int 2)) in
      of_int 1 ⊘ (of_int 1 ⊘ liner_cap ⊕ of_int 1 ⊘ depletion_cap)

  abbrev tsv_capacitance : D → D → D → D → D → D → D
  tsv_capacitance len diam pitch dielec liner depletion =
      self_cap len diam dielec liner depletion
      ⊕ d.lit 41 1 ⊗ coupling_cap len diam pitch
      ⊕ d.lit 53 1 ⊗ coupling_cap len diam (d.lit 1414 3 ⊗ pitch)

  abbrev tsv_area : D → D
  tsv_area pitch = d.pow pitch (of_int 2)

  abbrev with_layers : ℕ → Tsv D → Tsv D
  with_layers layers t =
      let len = t.length ⊗ of_int layers in
      record t {
        parasitic_res = tsv_resistance bulk_cu_resistivity len t.diameter t.contact_resistance;
        parasitic_cap =
            tsv_capacitance len t.diameter t.pitch t.dielec_thickness t.liner_dielectric_constant
              t.depletion_width;
        occupation_area = tsv_area t.pitch;
      }

  abbrev table_with_layers : ℕ → TsvTable D → TsvTable D
  table_with_layers layers t = record {
    fine_itrs = with_layers layers t.fine_itrs;
    coarse_itrs = with_layers layers t.coarse_itrs;
    fine_industry = with_layers layers t.fine_industry;
    coarse_industry = with_layers layers t.coarse_industry;
  }

  -- A table at a type and a projection, which is below 2.
  abbrev entry : TsvTable D → TsvType → ℕ → Tsv D
  entry t fine projection = if projection == 0 then t.fine_itrs else t.fine_industry
  entry t coarse projection = if projection == 0 then t.coarse_itrs else t.coarse_industry

  abbrev figures_of : Tsv D → TsvFigures D
  figures_of t = record {
    res_tsv = t.parasitic_res;
    cap_tsv = t.parasitic_cap;
    area_tsv = t.occupation_area;
  }

  -- What `SetLayerCount` computes.
  unfoldable pub recalculate : InputParameter D → ℕ → Technology D → Technology D
  recalculate p layers t =
      let table = table_with_layers layers t.tsv in
      record t {
        tsv = table;
        fine_tsv = figures_of (
            entry table (wire_type_to_tsv_type p.data_space.local_wire_type.hi)
              p.local_tsv_projection);
        coarse_tsv = figures_of (
            entry table (wire_type_to_tsv_type p.data_space.global_wire_type.hi)
              p.global_tsv_projection);
        layer_count = layers;
      }

  -- `SetLayerCount`. A projection of the configuration beyond the arrays is undefined behaviour.
  unfoldable pub set_layer_count : InputParameter D → ℕ → Technology D → Run (Technology D)
  unfolding recalculate
  set_layer_count p layers t =
      if layers == t.layer_count
      then returns t
      else if ltb p.local_tsv_projection 2 && ltb p.global_tsv_projection 2
      then returns (recalculate p layers t)
      else outside
