-- ===== src/BankWithHtree/Routing.antt =====
-- The routing part of `BankWithHtree::Initialize`. The arrays that hold a value for each level are
-- filled from index 0 on and read only at the index written last, so they are lists of levels, the
-- latest one first.
pub mod Halving
use destiny_3d_cache.Prelude.{
  ℕ, zero, suc, ◌+◌, ◌-◌, ◌*◌, ◌/◌, Bool, ◌||◌, List, [], ◌∷◌, ltb, ◌==◌, if◌then◌else◌, ℤ, pos,
  pred_int, is_zero_int, min,
}
use destiny_3d_cache.Prelude.Outcome.{Outcome, ok, ◌>>=◌, ◌>>◌, reject_if}

pub record Level : Type 0 where
  pub address_bit : ℤ
  pub distribute_bit : ℕ
  pub broadcast_bit : ℕ
  pub wire : ℕ
  pub sum_wire : ℕ
  pub active_wire : ℕ

-- The local variables of the routing; `broadcast` and the two counts of levels do not change.
pub record Route : Type 0 where
  pub level_horizontal : ℕ
  pub level_vertical : ℕ
  pub broadcast : ℕ
  pub row_to_active : ℕ
  pub column_to_active : ℕ
  pub address : ℤ
  pub distribute : ℕ
  pub horizontal : List Level
  pub vertical : List Level
  pub h_temp : ℕ
  pub v_temp : ℕ

abbrev latest_active : List Level → ℕ
latest_active [] = 0
latest_active (l ∷ _) = l.active_wire

abbrev latest_sum : List Level → ℕ
latest_sum [] = 0
latest_sum (l ∷ _) = l.sum_wire

-- no data bit or no address bit is left to route
unfoldable pub check_bits : Route → Outcome (Unit {0})
check_bits s = reject_if (s.distribute + s.broadcast == 0 || is_zero_int s.address)

-- A cut between columns of mats: it halves the data bits while several columns are active, and
-- takes an address bit otherwise.
abbrev pub cut_columns : Route → Route
cut_columns s =
    if ltb 1 s.column_to_active
    then record s { distribute = s.distribute / 2; column_to_active = s.column_to_active / 2 }
    else record s { address = pred_int s.address }

abbrev pub cut_rows : Route → Route
cut_rows s =
    if ltb 1 s.row_to_active
    then record s { distribute = s.distribute / 2; row_to_active = s.row_to_active / 2 }
    else record s { address = pred_int s.address }

-- the active wires, twice as many after a cut between active mats
abbrev fan_out : ℕ → ℕ → ℕ
fan_out to_active n = if ltb 1 to_active then 2 * n else n

abbrev new_level : Route → ℕ → ℕ → ℕ → Level
new_level s wire sum active = record {
  address_bit = s.address;
  distribute_bit = s.distribute;
  broadcast_bit = s.broadcast;
  wire = wire;
  sum_wire = sum;
  active_wire = active;
}

-- `if (h > 0) { ... h--; }`: the first level, which cuts nothing
unfoldable pub first_level : Route → Outcome Route
unfolding check_bits
first_level s =
    if ltb 0 s.level_horizontal
    then (check_bits s >> ok (record s { horizontal = new_level s 1 1 1 ∷ [] }))
    else ok s

-- the body of `while (h > v)`
unfoldable pub horizontal_step : Route → Outcome Route
unfolding check_bits
horizontal_step s = do
  check_bits s
  let s' = cut_columns s
  let level =
      new_level s' 1 (2 * latest_sum s.horizontal)
        (fan_out s.column_to_active (latest_active s.horizontal))
  ok (record s' { horizontal = level ∷ s.horizontal; v_temp = s.v_temp * 2 })

-- A vertical level on top of `n` wires. Below the first one, the level above counts.
abbrev vertical_base : Route → (List Level → ℕ) → ℕ
vertical_base s latest = elim s.vertical [ [] ↦ 1 | _ ∷ _ ↦ latest s.vertical ]

-- the body of `while (v > h)`
unfoldable pub vertical_step : Route → Outcome Route
unfolding check_bits
vertical_step s = do
  check_bits s
  let s' = cut_rows s
  let level =
      new_level s' 1 (2 * vertical_base s latest_sum)
        (fan_out s.row_to_active (vertical_base s latest_active))
  ok (record s' { vertical = level ∷ s.vertical; h_temp = s.h_temp * 2 })

-- the level that a horizontal one continues: a horizontal one before any vertical one, or vertical
abbrev horizontal_base : Route → (List Level → ℕ) → ℕ
horizontal_base s latest = elim s.vertical [ [] ↦ latest s.horizontal | _ ∷ _ ↦ latest s.vertical ]

-- the body of `while (h > 0)`, its horizontal and its vertical half
unfoldable pub both_horizontal : Route → Outcome Route
unfolding check_bits
both_horizontal s = do
  check_bits s
  let s' = cut_columns s
  let level =
      new_level s' s.h_temp (2 * horizontal_base s latest_sum)
        (fan_out s.column_to_active (horizontal_base s latest_active))
  ok (record s' { horizontal = level ∷ s.horizontal })

unfoldable pub both_vertical : Route → Outcome Route
unfolding check_bits
both_vertical s = do
  check_bits s
  let s' = cut_rows s
  let wires = if s.level_horizontal == 2 then s.v_temp else 2 * s.v_temp
  let level =
      new_level s' wires (2 * latest_sum s.horizontal)
        (fan_out s.row_to_active (latest_active s.horizontal))
  ok (record s' { vertical = level ∷ s.vertical; h_temp = s.h_temp * 2; v_temp = s.v_temp * 2 })

unfoldable pub both_step : Route → Outcome Route
both_step s = do s' ← both_horizontal s; both_vertical s'

-- A loop that counts its rounds down.
unfoldable pub rounds : ℕ → (Route → Outcome Route) → Route → Outcome Route
rounds zero step s = ok s
rounds (suc n) step s = do s' ← step s; rounds n step s'

-- the cut below the last level, with no level of its own
unfoldable pub last_cut : Route → Outcome Route
unfolding check_bits
last_cut s = do
  check_bits s
  ok (if ltb 1 s.column_to_active || ltb 0 s.level_horizontal then cut_columns s else s)

-- `h` is `levelHorizontal`, less 1 once the first level is routed. Of the first two loops one runs
-- until `h == v`, and the third reduces both to 0.
unfoldable pub route : Route → Outcome Route
route s = do
  s0 ← first_level s
  let h = s.level_horizontal - 1
  let v = s.level_vertical
  s1 ← rounds (h - v) horizontal_step s0
  s2 ← rounds (v - h) vertical_step s1
  s3 ← rounds (min h v) both_step s2
  last_cut s3
