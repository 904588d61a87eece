-- ===== src/Nvsim/Wires.antt =====
-- macros.h: the wires that the search starts with, and those that it tries in its refinement.
pub mod Choices
use destiny_3d_cache.Prelude.{ℕ, Bool, true, false, List, ◌==◌, ◌||◌, leb, not, if◌then◌else◌}
use destiny_3d_cache.TypeDef.{
  WireType, WireRepeaterType, repeated_none, local_aggressive, global_aggressive,
}
use destiny_3d_cache.Wire.{Wire}
use destiny_3d_cache.InputParameter.{InputParameter, ArraySpace, Range}
use destiny_3d_cache.Search.Loops.{Loop, yield_point, counting, ◌>>=◌}
use destiny_3d_cache.Prelude.{some, []}
use destiny_3d_cache.Nvsim.{Simulator, Globals}

-- `(bool)n`
abbrev to_bool : ℕ → Bool
to_bool n = not (n == 0)

-- The one value of a range, or the default one of a range of several.
abbrev pub only_or : ℕ → Range → ℕ
only_or default r = if r.lo == r.hi then r.lo else default

-- A choice of `Wire::Initialize`.
pub record WireChoice : Type 0 where
  pub wire_type : WireType
  pub wire_repeater_type : WireRepeaterType
  pub is_low_swing : ℕ

-- A low swing wire has no repeaters.
abbrev pub possible_wire : WireChoice → Bool
possible_wire w = w.wire_repeater_type == repeated_none || not (to_bool w.is_low_swing)

abbrev pub when_possible : WireChoice → Loop WireChoice
when_possible w = if possible_wire w then yield_point w else some []

-- `REFINE_LOCAL_WIRE_FORLOOP` and the three loops like it.
unfoldable pub refine_wires : Range → Range → Range → Loop WireChoice
refine_wires types repeaters swings = do
  wire_type ← counting types.lo types.hi
  repeater ← counting repeaters.lo repeaters.hi
  swing ← counting swings.lo swings.hi
  when_possible
      (record { wire_type = wire_type; wire_repeater_type = repeater; is_low_swing = swing })

abbrev pub refine_local_wires : ArraySpace → Loop WireChoice
refine_local_wires s =
    refine_wires s.local_wire_type s.local_wire_repeater_type s.is_local_wire_low_swing

abbrev pub refine_global_wires : ArraySpace → Loop WireChoice
refine_global_wires s =
    refine_wires s.global_wire_type s.global_wire_repeater_type s.is_global_wire_low_swing

module _ {D : Type 0} (sim : Simulator D) (p : InputParameter D) where
  abbrev pub wire_of : WireChoice → Wire D
  wire_of w =
      sim.wire_initialize p.process_node w.wire_type w.wire_repeater_type p.temperature
        (to_bool w.is_low_swing)

  -- `INITIAL_BASIC_WIRE`; the ranges are those of the data array, also for the tag array.
  unfoldable pub initial_basic_wire : Globals D → Globals D
  initial_basic_wire g =
      let s = p.data_space in
      record g {
        local_wire = wire_of (record {
          wire_type = only_or local_aggressive s.local_wire_type;
          wire_repeater_type = only_or repeated_none s.local_wire_repeater_type;
          is_low_swing = only_or 0 s.is_local_wire_low_swing;
        });
        global_wire = wire_of (record {
          wire_type = only_or global_aggressive s.global_wire_type;
          wire_repeater_type = only_or repeated_none s.global_wire_repeater_type;
          is_low_swing = only_or 0 s.is_global_wire_low_swing;
        });
      }

  -- `LOAD_GLOBAL_WIRE` and `LOAD_LOCAL_WIRE`: the wire of a kept result, made anew.
  abbrev pub reload : Wire D → Wire D
  reload w =
      sim.wire_initialize p.process_node w.wire_type w.wire_repeater_type p.temperature
        w.is_low_swing
