-- ===== src/InputParameter/Read/Wires.antt =====
-- The branches for the wires, of the data array and then of the tag array.
use destiny_3d_cache.Prelude.{List, [], ◌∷◌, ◌++◌}
use destiny_3d_cache.Text.{codes}
use destiny_3d_cache.Text.Rules.{Rule, word_rule}
use destiny_3d_cache.InputParameter.{InputParameter, ArraySpace, fixed}
use destiny_3d_cache.InputParameter.Words.{wire_type_of, repeater_type_of, low_swing_of}

module _ {D : Type 0} where
  abbrev pub in_data_space : (ArraySpace → ArraySpace) → InputParameter D → InputParameter D
  in_data_space f p = record p { data_space = f p.data_space }

  abbrev pub in_tag_space : (ArraySpace → ArraySpace) → InputParameter D → InputParameter D
  in_tag_space f p = record p { tag_space = f p.tag_space }

  abbrev data_wire_rules : List (Rule (InputParameter D))
  data_wire_rules =
      word_rule (codes "-LocalWireType") (codes "-LocalWireType: ")
        (λ w. in_data_space λ s. record s { local_wire_type = fixed (wire_type_of w) })
      ∷ word_rule (codes "-LocalWireRepeaterType") (codes "-LocalWireRepeaterType: ") (λ w.
        in_data_space λ s. record s { local_wire_repeater_type = fixed (repeater_type_of w) })
      ∷ word_rule (codes "-LocalWireUseLowSwing") (codes "-LocalWireUseLowSwing: ")
          (λ w. in_data_space λ s. record s { is_local_wire_low_swing = fixed (low_swing_of w) })
      ∷ word_rule (codes "-GlobalWireType") (codes "-GlobalWireType: ")
          (λ w. in_data_space λ s. record s { global_wire_type = fixed (wire_type_of w) })
      ∷ word_rule (codes "-GlobalWireRepeaterType") (codes "-GlobalWireRepeaterType: ") (λ w.
        in_data_space λ s. record s { global_wire_repeater_type = fixed (repeater_type_of w) })
      ∷ word_rule (codes "-GlobalWireUseLowSwing") (codes "-GlobalWireUseLowSwing: ")
          (λ w. in_data_space λ s. record s { is_global_wire_low_swing = fixed (low_swing_of w) })
      ∷ []

  abbrev tag_wire_rules : List (Rule (InputParameter D))
  tag_wire_rules =
      word_rule (codes "-TagLocalWireType") (codes "-TagLocalWireType: ")
        (λ w. in_tag_space λ s. record s { local_wire_type = fixed (wire_type_of w) })
      ∷ word_rule (codes "-TagLocalWireRepeaterType") (codes "-TagLocalWireRepeaterType: ") (λ w.
        in_tag_space λ s. record s { local_wire_repeater_type = fixed (repeater_type_of w) })
      ∷ word_rule (codes "-TagLocalWireUseLowSwing") (codes "-TagLocalWireUseLowSwing: ")
          (λ w. in_tag_space λ s. record s { is_local_wire_low_swing = fixed (low_swing_of w) })
      ∷ word_rule (codes "-TagGlobalWireType") (codes "-TagGlobalWireType: ")
          (λ w. in_tag_space λ s. record s { global_wire_type = fixed (wire_type_of w) })
      ∷ word_rule (codes "-TagGlobalWireRepeaterType") (codes "-TagGlobalWireRepeaterType: ") (λ w.
        in_tag_space λ s. record s { global_wire_repeater_type = fixed (repeater_type_of w) })
      ∷ word_rule (codes "-TagGlobalWireUseLowSwing") (codes "-TagGlobalWireUseLowSwing: ")
          (λ w. in_tag_space λ s. record s { is_global_wire_low_swing = fixed (low_swing_of w) })
      ∷ []

  abbrev pub wire_rules : List (Rule (InputParameter D))
  wire_rules = data_wire_rules ++ tag_wire_rules
