-- ===== src/Nvsim/Setup/Node.antt =====
-- main.cpp: the technology of a process node between two nodes that the tables know.
use destiny_3d_cache.Prelude.{
  ℕ, ◌-◌, ◌≤◌, ◌↔◌, true, false, Option, none, some, ltb, leb, ◌≡◌, refl, arith, Bool-cases, inl,
  inr, if◌then◌else◌,
}
use destiny_3d_cache.Double.{Double, ◌⊖◌, ◌⊘◌, of_int}
use destiny_3d_cache.TypeDef.{DeviceRoadmap}
use destiny_3d_cache.InputParameter.{InputParameter}
use destiny_3d_cache.Technology.{Technology, interpolate_with}

-- The table above a process node, and `alpha`, `process_node - base` over `width`.
pub record Between : Type 0 where
  pub high : ℕ
  pub base : ℕ
  pub width : ℕ

unfoldable pub table_above : ℕ → Option Between
table_above n =
    if ltb 200 n
    then none
    else if ltb 120 n
    then some (record { high = 200; base = 120; width = 60 })
    else if ltb 90 n
    then some (record { high = 120; base = 90; width = 30 })
    else if ltb 65 n
    then some (record { high = 90; base = 65; width = 25 })
    else if ltb 45 n
    then some (record { high = 65; base = 45; width = 20 })
    else if leb 32 n
    then some (record { high = 45; base = 32; width = 13 })
    else if leb 22 n
    then some (record { high = 32; base = 22; width = 10 })
    else none

-- `initialize` loads the tables, and `fresh` is the object `techHigh` if nothing is loaded into it.
module _ {D : Type 0} ⦃d : Double D⦄
    (initialize : ℕ → DeviceRoadmap → InputParameter D → Technology D) (fresh : Technology D) where
  abbrev tech_high : InputParameter D → Option Between → Technology D
  tech_high p none = fresh
  tech_high p (some b) = initialize b.high p.device_roadmap p

  abbrev alpha : ℕ → Option Between → D
  alpha n none = of_int 0
  alpha n (some b) = (of_int n ⊖ of_int b.base) ⊘ of_int b.width

  unfoldable pub setup_technology : InputParameter D → Technology D
  unfolding table_above interpolate_with
  setup_technology p =
      interpolate_with (tech_high p (table_above p.process_node))
        (alpha p.process_node (table_above p.process_node))
        (initialize p.process_node p.device_roadmap p)

-- For a process node from 22 nm to 200 nm there is a table above it, and the weight of that table is
-- at most 1 up to 180 nm, and above 1 from there on, where it extrapolates.
pub table_above-weight :
    (n : ℕ)
    → 22 ≤ n
    → n ≤ 200
    → (b : Between) × (table_above n ≡ some b)
      × (b.base ≤ n)
      × (n ≤ b.high)
      × (n - b.base ≤ b.width ↔ n ≤ 180)
unfolding table_above
table_above-weight n low high =
    let no : ltb 200 n ≡ false = ground arith in
    elim (Bool-cases (ltb 120 n)) [
      | inl a ↦ (
        record { high = 200; base = 120; width = 60 },
        rw (no, a) refl,
        ground (arith, a),
        ground (arith, a),
        ground (arith, a),
      )
      | inr a ↦ elim (Bool-cases (ltb 90 n)) [
        | inl b ↦ (
          record { high = 120; base = 90; width = 30 },
          rw (no, a, b) refl,
          ground (arith, b),
          ground (arith, a),
          ground (arith, a),
        )
        | inr b ↦ elim (Bool-cases (ltb 65 n)) [
          | inl c ↦ (
            record { high = 90; base = 65; width = 25 },
            rw (no, a, b, c) refl,
            ground (arith, c),
            ground (arith, b),
            ground (arith, b),
          )
          | inr c ↦ elim (Bool-cases (ltb 45 n)) [
            | inl e ↦ (
              record { high = 65; base = 45; width = 20 },
              rw (no, a, b, c, e) refl,
              ground (arith, e),
              ground (arith, c),
              ground (arith, c),
            )
            | inr e ↦ elim (Bool-cases (leb 32 n)) [
              | inl f ↦ (
                record { high = 45; base = 32; width = 13 },
                rw (no, a, b, c, e, f) refl,
                ground (arith, f),
                ground (arith, e),
                ground (arith, e),
              )
              | inr f ↦
                  let last : leb 22 n ≡ true = ground arith in
                  (
                    record { high = 32; base = 22; width = 10 },
                    rw (no, a, b, c, e, f, last) refl,
                    ground (arith, low),
                    ground (arith, f),
                    ground (arith, f),
                  )
            ]
          ]
        ]
      ]
    ]
