-- ===== src/Nvsim/Explore/Verified.antt =====
-- The capacity checks of the search never end the program.
use native.Mathlib.Nat.{mod-add-div', mod-lt, div-le_self}
use destiny_3d_cache.Prelude.{
  ℕ, ◌+◌, ◌*◌, ◌/◌, ◌%◌, ◌^◌, ◌≤◌, ◌<◌, ◌≡◌, refl, ap, ◌∙◌, Bool, true, false, Option, none, ◌==◌,
  if◌then◌else◌, arith, inl, inr, IsPowerOfTwo, Bool-cases,
}
use destiny_3d_cache.Prelude.Run.{returns, exits}
use destiny_3d_cache.Double.{Double}
use destiny_3d_cache.TypeDef.{data_array, tag}
use destiny_3d_cache.BankConfig.Powers.{IsPowerOfTwo-pos, IsPowerOfTwo-mul}
use destiny_3d_cache.InputParameter.{InputParameter, ArraySpace, Range}
use destiny_3d_cache.Search.{Point}
use destiny_3d_cache.Search.Size.{data_points, tag_points}
use destiny_3d_cache.Search.Space.{InSpace, IsPositive, bigfor-Enumerates}
use destiny_3d_cache.Result.{Limits}
use destiny_3d_cache.Nvsim.{Simulator, calculate, design_config}
use destiny_3d_cache.Nvsim.Explore.{
  Exploration, Target, active_product, after_calculate, config_of, design_step, tag_step,
  tag_block_size, for_points,
}
use destiny_3d_cache.Nvsim.Explore.Sizes.{
  StartsAtPowers, design-IsPowers, active_mats-IsPowerOfTwo, design-HoldsWords,
}
use destiny_3d_cache.Nvsim.Explore.Exact.{
  IsExact, for_points-never_exits, after_calculate-never_exits, calculate-organised, returns≢exits,
}

pub StartsAtPowers-IsPositive :
    (s : ArraySpace) (rows layers : Range) → StartsAtPowers s rows layers → IsPositive s rows layers
StartsAtPowers-IsPositive s rows layers q = record {
  row_mat = IsPowerOfTwo-pos _ q.row_mat;
  column_mat = IsPowerOfTwo-pos _ q.column_mat;
  die = IsPowerOfTwo-pos _ q.die;
  active_mat_row = IsPowerOfTwo-pos _ q.active_mat_row;
  active_mat_column = IsPowerOfTwo-pos _ q.active_mat_column;
  row_subarray = IsPowerOfTwo-pos _ q.row_subarray;
  column_subarray = IsPowerOfTwo-pos _ q.column_subarray;
  active_subarray_row = IsPowerOfTwo-pos _ q.active_subarray_row;
  active_subarray_column = IsPowerOfTwo-pos _ q.active_subarray_column;
  sense_amp = IsPowerOfTwo-pos _ q.sense_amp;
  lev1 = IsPowerOfTwo-pos _ q.lev1;
  lev2 = IsPowerOfTwo-pos _ q.lev2;
  row_per_set = IsPowerOfTwo-pos _ q.row_per_set;
}

quotient-pos : (a b : ℕ) → (a / b == 0) ≡ false → 1 ≤ a
quotient-pos a b h = ground (arith, div-le_self a b)

-- The bits that a tag takes are the least multiple of the number of parts, which is not 0, that is
-- at least the bits of a tag.
pub tag_block_size_lem :
    (bits parts : ℕ)
    → 1 ≤ parts
    → ((k : ℕ) × (tag_block_size bits parts ≡ k * parts))
      × (bits ≤ tag_block_size bits parts)
      × (tag_block_size bits parts < bits + parts)
unfolding tag_block_size
tag_block_size_lem bits parts h = elim (Bool-cases (bits % parts == 0)) [
  | inl exact ↦
      let zero : bits % parts ≡ 0 = ground (arith, exact) in
      rw exact ((bits / parts, omega (arith, mod-add-div' bits parts)), omega arith, omega arith)
  | inr rest ↦
      let more : 1 ≤ bits % parts = ground (arith, rest) in
      rw rest (
        (bits / parts + 1, refl),
        omega (arith, mod-add-div' bits parts, mod-lt bits h),
        omega (arith, mod-add-div' bits parts, mod-lt bits h),
      )
]

module _ {D : Type 0} ⦃d : Double D⦄ (sim : Simulator D) (p : InputParameter D) where
  -- A step whose designs are exact does not exit.
  step-never_exits :
      (limits : Option (Limits D)) (t : Target) (x : Point) (s s' : Exploration D) (skip : Bool)
      → (skip ≡ false → IsExact (config_of sim p t x))
      → ¬ (
          (if skip
            then returns s'
            else after_calculate sim p limits t x
                (calculate sim p s.globals (config_of sim p t x))
                s)
          ≡ exits)
  step-never_exits limits t x s s' true exact e = returns≢exits e
  step-never_exits limits t x s s' false exact e =
      after_calculate-never_exits sim p limits t x _ s
        (λ bank made. calculate-organised sim p t x s.globals bank (exact refl) made) e

  -- Every design of the space is exact, with at most 2^total words for each way and die, in a data
  -- array of 2^total words of a power of two of bits.
  pub data_design-IsExact :
      (t : Target) (total : ℕ) (x : Point)
      → StartsAtPowers p.data_space p.num_row_per_set p.stack_layer
      → p.stack_layer.hi ≤ 2 ^ total
      → t.memory_type ≡ data_array
      → IsPowerOfTwo t.block_size
      → IsPowerOfTwo t.associativity
      → t.capacity ≡ 2 ^ total * (t.block_size * t.associativity)
      → InSpace p.data_space p.num_row_per_set p.stack_layer p.associativity x
      → (exact : IsExact (config_of sim p t x)) × (exact.words ≤ total)
  data_design-IsExact t total x q few et block ways words inside =
      let (n, holds, le) =
        design-HoldsWords p _ _ _ _ x t.memory_type t.capacity t.block_size t.associativity total
          (IsPowerOfTwo-pos _ block) few words q inside in
      let (column, row) = active_mats-IsPowerOfTwo p _ _ _ _ x q inside in
      (
        record {
          words = n;
          powers =
              design-IsPowers p _ _ _ _ x t.memory_type t.capacity t.block_size t.associativity ways
                q inside;
          holds = holds;
          active_column = column;
          active_row = row;
          array = inl (et, block);
        },
        le,
      )

  -- So is every design that the search of the tag array does not pass over.
  pub tag_design-IsExact :
      (bits total : ℕ) (x : Point)
      → StartsAtPowers p.tag_space p.num_row_per_set p.stack_layer
      → p.stack_layer.hi ≤ 2 ^ total
      → IsPowerOfTwo p.associativity
      → p.capacity * 8 / p.word_width ≡ 2 ^ total * p.associativity
      → InSpace p.tag_space p.num_row_per_set p.stack_layer p.associativity x
      → (bits / active_product x == 0) ≡ false
      → let block = tag_block_size bits (active_product x) in
        (exact : IsExact
          (design_config p tag (p.capacity * 8 / p.word_width * block) block p.associativity x))
        × (exact.words ≤ total)
  tag_design-IsExact bits total x q few ways words inside fits =
      let block = tag_block_size bits (active_product x) in
      let (column, row) = active_mats-IsPowerOfTwo p _ _ _ _ x q inside in
      let capacity = p.capacity * 8 / p.word_width * block in
      let powers = design-IsPowers p _ _ _ _ x tag capacity block p.associativity ways q inside in
      let parts : 1 ≤ active_product x = IsPowerOfTwo-pos _ (
        IsPowerOfTwo-mul _ _
          (IsPowerOfTwo-mul _ _ (IsPowerOfTwo-mul _ _ row column) powers.active_row)
          powers.active_column) in
      let ((k, multiple), enough, _) = tag_block_size_lem bits (active_product x) parts in
      let (n, holds, le) =
        design-HoldsWords p _ _ _ _ x tag capacity block p.associativity total
          (omega (arith, enough, quotient-pos bits (active_product x) fits)) few
          (omega (arith, ap (λ (n : ℕ). n * block) words)) q inside in
      (
        record {
          words = n;
          powers = powers;
          holds = holds;
          active_column = column;
          active_row = row;
          array = inr (
            refl,
            (k * (x.num_active_mat_per_row * x.num_active_mat_per_column), multiple ∙ omega arith),
          );
        },
        le,
      )

  -- If the bounds of the search start at powers of two, and the capacity is 2^total words of a
  -- power of two of bits for a power of two of ways, with at most 2^total dies, then the loop over
  -- the data array, with or without limits, never ends the program in `VERIFY_DATA_CAPACITY`: every
  -- bank that it does not reject holds the capacity exactly, with an H-tree or without.
  pub data_search-never_exits :
      (limits : Option (Limits D)) (t : Target) (total : ℕ) (s : Exploration D)
      → StartsAtPowers p.data_space p.num_row_per_set p.stack_layer
      → p.stack_layer.hi ≤ 2 ^ total
      → t.memory_type ≡ data_array
      → IsPowerOfTwo t.block_size
      → IsPowerOfTwo t.associativity
      → t.capacity ≡ 2 ^ total * (t.block_size * t.associativity)
      → ¬ (for_points (data_points p) (design_step sim p limits t) s ≡ exits)
  unfolding design_step
  data_search-never_exits limits t total s q few et block ways words =
      for_points-never_exits (data_points p) _ s
        (bigfor-Enumerates _ _ _ (StartsAtPowers-IsPositive _ _ _ q) p.associativity)
        λ x inside s'.
          step-never_exits limits t x s' s' _
            λ _. (data_design-IsExact t total x q few et block ways words inside).0

  -- If the bounds of the search start at powers of two, and the memory has 2^total sets of a power
  -- of two of ways, with at most 2^total dies, then the loop over the tag array never ends the
  -- program in `VERIFY_TAG_CAPACITY`, whatever the number of bits of a tag.
  pub tag_search-never_exits :
      (bits total : ℕ) (s : Exploration D)
      → StartsAtPowers p.tag_space p.num_row_per_set p.stack_layer
      → p.stack_layer.hi ≤ 2 ^ total
      → IsPowerOfTwo p.associativity
      → p.capacity * 8 / p.word_width ≡ 2 ^ total * p.associativity
      → ¬ (for_points (tag_points p) (tag_step sim p bits) s ≡ exits)
  unfolding tag_step
  tag_search-never_exits bits total s q few ways words =
      for_points-never_exits (tag_points p) _ s
        (bigfor-Enumerates _ _ _ (StartsAtPowers-IsPositive _ _ _ q) p.associativity)
        λ x inside s'.
          step-never_exits none _ x _ _ _
            λ fits. (tag_design-IsExact bits total x q few ways words inside fits).0
