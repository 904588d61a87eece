-- ===== src/Nvsim/Setup/Bounds/Spaces.antt =====
-- The bounds of one array that are powers of two, and the changes that keep them so.
use destiny_3d_cache.Prelude.{ℕ, refl, IsPowerOfTwo}
use destiny_3d_cache.InputParameter.{ArraySpace, Range, fixed}
use destiny_3d_cache.Nvsim.Explore.Sizes.{StartsAtPowers}

-- The lower bounds are powers of two, and so is the upper bound that `-UseCactiAssumption` reads.
pub record SpaceBounds (s : ArraySpace) (rows layers : Range) : Type 0 where
  pub starts : StartsAtPowers s rows layers
  pub column_hi : IsPowerOfTwo s.num_column_mat.hi

pub one_row :
    {s : ArraySpace} {rows layers : Range}
    → SpaceBounds s rows layers
    → SpaceBounds s (fixed 1) layers
one_row q = record {
  starts = record {
    row_mat = q.starts.row_mat;
    column_mat = q.starts.column_mat;
    die = q.starts.die;
    active_mat_row = q.starts.active_mat_row;
    active_mat_column = q.starts.active_mat_column;
    row_subarray = q.starts.row_subarray;
    column_subarray = q.starts.column_subarray;
    active_subarray_row = q.starts.active_subarray_row;
    active_subarray_column = q.starts.active_subarray_column;
    sense_amp = q.starts.sense_amp;
    lev1 = q.starts.lev1;
    lev2 = q.starts.lev2;
    row_per_set = (0, refl);
  };
  column_hi = q.column_hi;
}

pub stacked :
    {s : ArraySpace} {rows layers : Range} {n : ℕ}
    → IsPowerOfTwo n
    → SpaceBounds s rows layers
    → SpaceBounds s rows (fixed n)
stacked h q = record {
  starts = record {
    row_mat = q.starts.row_mat;
    column_mat = q.starts.column_mat;
    die = h;
    active_mat_row = q.starts.active_mat_row;
    active_mat_column = q.starts.active_mat_column;
    row_subarray = q.starts.row_subarray;
    column_subarray = q.starts.column_subarray;
    active_subarray_row = q.starts.active_subarray_row;
    active_subarray_column = q.starts.active_subarray_column;
    sense_amp = q.starts.sense_amp;
    lev1 = q.starts.lev1;
    lev2 = q.starts.lev2;
    row_per_set = q.starts.row_per_set;
  };
  column_hi = q.column_hi;
}

-- A change of an array keeps its bounds powers of two.
abbrev pub KeepsBounds : (ArraySpace → ArraySpace) → Type 0
KeepsBounds f =
    (s : ArraySpace) (rows layers : Range)
    → SpaceBounds s rows layers
    → SpaceBounds (f s) rows layers

-- The wires and the buffers bound nothing that has to be a power of two.
wires-KeepsBounds :
    (s : ArraySpace) {a b c d e f h : Range} {rows layers : Range}
    → SpaceBounds s rows layers
    → SpaceBounds
        (record s {
          local_wire_type = a;
          global_wire_type = b;
          local_wire_repeater_type = c;
          global_wire_repeater_type = d;
          is_local_wire_low_swing = e;
          is_global_wire_low_swing = f;
          area_optimization_level = h;
        })
        rows
        layers
wires-KeepsBounds s q = record {
  starts = record {
    row_mat = q.starts.row_mat;
    column_mat = q.starts.column_mat;
    die = q.starts.die;
    active_mat_row = q.starts.active_mat_row;
    active_mat_column = q.starts.active_mat_column;
    row_subarray = q.starts.row_subarray;
    column_subarray = q.starts.column_subarray;
    active_subarray_row = q.starts.active_subarray_row;
    active_subarray_column = q.starts.active_subarray_column;
    sense_amp = q.starts.sense_amp;
    lev1 = q.starts.lev1;
    lev2 = q.starts.lev2;
    row_per_set = q.starts.row_per_set;
  };
  column_hi = q.column_hi;
}

pub local_wire_type-KeepsBounds :
    (n : ℕ) → KeepsBounds (λ s. record s { local_wire_type = fixed n })
local_wire_type-KeepsBounds n s rows layers q = wires-KeepsBounds s q

pub global_wire_type-KeepsBounds :
    (n : ℕ) → KeepsBounds (λ s. record s { global_wire_type = fixed n })
global_wire_type-KeepsBounds n s rows layers q = wires-KeepsBounds s q

pub local_wire_repeater_type-KeepsBounds :
    (n : ℕ) → KeepsBounds (λ s. record s { local_wire_repeater_type = fixed n })
local_wire_repeater_type-KeepsBounds n s rows layers q = wires-KeepsBounds s q

pub global_wire_repeater_type-KeepsBounds :
    (n : ℕ) → KeepsBounds (λ s. record s { global_wire_repeater_type = fixed n })
global_wire_repeater_type-KeepsBounds n s rows layers q = wires-KeepsBounds s q

pub is_local_wire_low_swing-KeepsBounds :
    (n : ℕ) → KeepsBounds (λ s. record s { is_local_wire_low_swing = fixed n })
is_local_wire_low_swing-KeepsBounds n s rows layers q = wires-KeepsBounds s q

pub is_global_wire_low_swing-KeepsBounds :
    (n : ℕ) → KeepsBounds (λ s. record s { is_global_wire_low_swing = fixed n })
is_global_wire_low_swing-KeepsBounds n s rows layers q = wires-KeepsBounds s q

pub area_optimization_level-KeepsBounds :
    (n : ℕ) → KeepsBounds (λ s. record s { area_optimization_level = fixed n })
area_optimization_level-KeepsBounds n s rows layers q = wires-KeepsBounds s q
