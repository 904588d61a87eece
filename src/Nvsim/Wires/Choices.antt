-- ===== src/Nvsim/Wires/Choices.antt =====
-- The wires that the refinement tries.
use destiny_3d_cache.Prelude.{
  ℕ, ◌≡◌, refl, sym, ◌∙◌, subst, true, false, some, [], Bool-cases, inl, inr,
}
use destiny_3d_cache.InputParameter.{Range}
use destiny_3d_cache.Search.Loops.{
  yield_point, Enumerates, Enumerates-iff, yield_point-Enumerates, bind-Enumerates, IsBetween, Ends,
  Yields, counting,
}
use destiny_3d_cache.Search.Doubling.{counting-Enumerates}
use destiny_3d_cache.Nvsim.Wires.{WireChoice, possible_wire, when_possible, refine_wires}

pub record InWires (types repeaters swings : Range) (w : WireChoice) : Type 0 where
  pub wire_type : IsBetween types.lo types.hi w.wire_type
  pub repeater : IsBetween repeaters.lo repeaters.hi w.wire_repeater_type
  pub swing : IsBetween swings.lo swings.hi w.is_low_swing
  pub possible : possible_wire w ≡ true

when_possible-Enumerates :
    (w : WireChoice) → Enumerates (when_possible w) (λ v. (w ≡ v) × (possible_wire w ≡ true))
unfolding Ends Yields
when_possible-Enumerates w = elim (Bool-cases (possible_wire w)) [
  | inl can ↦
      let e : when_possible w ≡ yield_point w = rw can refl in
      subst (λ m. Enumerates m (λ v. (w ≡ v) × (possible_wire w ≡ true))) (sym e)
        (Enumerates-iff (yield_point w) (λ v. (λ h. (h, can), λ h. h.0)) (yield_point-Enumerates w))
  | inr cannot ↦
      let e : when_possible w ≡ some [] = rw cannot refl in
      subst (λ m. Enumerates m (λ v. (w ≡ v) × (possible_wire w ≡ true))) (sym e)
        (record {
          ends = tt;
          sound = λ v h. absurd h;
          complete = λ v h. absurd (true≢false (sym h.1 ∙ cannot));
        })
]
  where
    true≢false : ¬ (true ≡ false)
    true≢false h = cc

-- The values of the inner loops, from the outside in.
abbrev Swings : Range → ℕ → ℕ → WireChoice → Type 0
Swings swings t r w =
    (s : ℕ) × IsBetween swings.lo swings.hi s
    × ((record { wire_type = t; wire_repeater_type = r; is_low_swing = s } ≡ w)
        × (possible_wire (record { wire_type = t; wire_repeater_type = r; is_low_swing = s })
            ≡ true))

abbrev Repeaters : Range → Range → ℕ → WireChoice → Type 0
Repeaters repeaters swings t w =
    (r : ℕ) × IsBetween repeaters.lo repeaters.hi r × Swings swings t r w

-- The loops of the refinement end and try exactly the wires in their ranges that have no repeaters
-- or no low swing.
pub refine_wires-Enumerates :
    (types repeaters swings : Range)
    → Enumerates (refine_wires types repeaters swings) (InWires types repeaters swings)
unfolding refine_wires
refine_wires-Enumerates types repeaters swings =
    Enumerates-iff _
      (λ w. (
        λ (t, ht, (r, hr, (s, hs, (e, can)))).
            subst (InWires types repeaters swings) e
              (record { wire_type = ht; repeater = hr; swing = hs; possible = can }),
        λ h. (
          w.wire_type,
          h.wire_type,
          (w.wire_repeater_type, h.repeater, (w.is_low_swing, h.swing, (refl, h.possible))),
        ),
      ))
      (bind-Enumerates _ _ {Q = Repeaters repeaters swings} (counting-Enumerates types.lo types.hi)
        λ t ht.
          bind-Enumerates (counting repeaters.lo repeaters.hi) _ {Q = Swings swings t}
            (counting-Enumerates repeaters.lo repeaters.hi)
            λ r hr.
              bind-Enumerates (counting swings.lo swings.hi) _
                (counting-Enumerates swings.lo swings.hi)
                λ s hs.
                  when_possible-Enumerates
                    (record { wire_type = t; wire_repeater_type = r; is_low_swing = s }))
