-- ===== src/Nvsim/Setup/Bounds/Banks.antt =====
-- The bounds that a configuration forces keep the bounds of an array powers of two.
use destiny_3d_cache.Prelude.{ℕ, refl, IsPowerOfTwo}
use destiny_3d_cache.InputParameter.{fixed}
use destiny_3d_cache.InputParameter.Read.Spaces.{cacti_space}
use destiny_3d_cache.InputParameter.Settings.{bank_of, active_bank_of, mat_of, active_mat_of}
use destiny_3d_cache.Nvsim.Setup.Bounds.Spaces.{KeepsBounds}

pub mux_sense_amp-KeepsBounds :
    (n : ℕ) → IsPowerOfTwo n → KeepsBounds (λ s. record s { mux_sense_amp = fixed n })
mux_sense_amp-KeepsBounds n hn s rows layers q = record {
  starts = record {
    row_mat = q.starts.row_mat;
    column_mat = q.starts.column_mat;
    die = q.starts.die;
    active_mat_row = q.starts.active_mat_row;
    active_mat_column = q.starts.active_mat_column;
    row_subarray = q.starts.row_subarray;
    column_subarray = q.starts.column_subarray;
    active_subarray_row = q.starts.active_subarray_row;
    active_subarray_column = q.starts.active_subarray_column;
    sense_amp = hn;
    lev1 = q.starts.lev1;
    lev2 = q.starts.lev2;
    row_per_set = q.starts.row_per_set;
  };
  column_hi = q.column_hi;
}

pub mux_output_lev1-KeepsBounds :
    (n : ℕ) → IsPowerOfTwo n → KeepsBounds (λ s. record s { mux_output_lev1 = fixed n })
mux_output_lev1-KeepsBounds n hn s rows layers q = record {
  starts = record {
    row_mat = q.starts.row_mat;
    column_mat = q.starts.column_mat;
    die = q.starts.die;
    active_mat_row = q.starts.active_mat_row;
    active_mat_column = q.starts.active_mat_column;
    row_subarray = q.starts.row_subarray;
    column_subarray = q.starts.column_subarray;
    active_subarray_row = q.starts.active_subarray_row;
    active_subarray_column = q.starts.active_subarray_column;
    sense_amp = q.starts.sense_amp;
    lev1 = hn;
    lev2 = q.starts.lev2;
    row_per_set = q.starts.row_per_set;
  };
  column_hi = q.column_hi;
}

pub mux_output_lev2-KeepsBounds :
    (n : ℕ) → IsPowerOfTwo n → KeepsBounds (λ s. record s { mux_output_lev2 = fixed n })
mux_output_lev2-KeepsBounds n hn s rows layers q = record {
  starts = record {
    row_mat = q.starts.row_mat;
    column_mat = q.starts.column_mat;
    die = q.starts.die;
    active_mat_row = q.starts.active_mat_row;
    active_mat_column = q.starts.active_mat_column;
    row_subarray = q.starts.row_subarray;
    column_subarray = q.starts.column_subarray;
    active_subarray_row = q.starts.active_subarray_row;
    active_subarray_column = q.starts.active_subarray_column;
    sense_amp = q.starts.sense_amp;
    lev1 = q.starts.lev1;
    lev2 = hn;
    row_per_set = q.starts.row_per_set;
  };
  column_hi = q.column_hi;
}

pub bank_of-KeepsBounds : (r c : ℕ) → IsPowerOfTwo r → IsPowerOfTwo c → KeepsBounds (bank_of r c)
bank_of-KeepsBounds r c hr hc s rows layers q = record {
  starts = record {
    row_mat = hr;
    column_mat = hc;
    die = q.starts.die;
    active_mat_row = q.starts.active_mat_row;
    active_mat_column = q.starts.active_mat_column;
    row_subarray = q.starts.row_subarray;
    column_subarray = q.starts.column_subarray;
    active_subarray_row = q.starts.active_subarray_row;
    active_subarray_column = q.starts.active_subarray_column;
    sense_amp = q.starts.sense_amp;
    lev1 = q.starts.lev1;
    lev2 = q.starts.lev2;
    row_per_set = q.starts.row_per_set;
  };
  column_hi = hc;
}

pub active_bank_of-KeepsBounds :
    (r c y x : ℕ)
    → IsPowerOfTwo r
    → IsPowerOfTwo c
    → IsPowerOfTwo y
    → IsPowerOfTwo x
    → KeepsBounds (active_bank_of r c y x)
active_bank_of-KeepsBounds r c y x hr hc hy hx s rows layers q = record {
  starts = record {
    row_mat = hr;
    column_mat = hc;
    die = q.starts.die;
    active_mat_row = hx;
    active_mat_column = hy;
    row_subarray = q.starts.row_subarray;
    column_subarray = q.starts.column_subarray;
    active_subarray_row = q.starts.active_subarray_row;
    active_subarray_column = q.starts.active_subarray_column;
    sense_amp = q.starts.sense_amp;
    lev1 = q.starts.lev1;
    lev2 = q.starts.lev2;
    row_per_set = q.starts.row_per_set;
  };
  column_hi = hc;
}

pub mat_of-KeepsBounds : (r c : ℕ) → IsPowerOfTwo r → IsPowerOfTwo c → KeepsBounds (mat_of r c)
mat_of-KeepsBounds r c hr hc s rows layers q = record {
  starts = record {
    row_mat = q.starts.row_mat;
    column_mat = q.starts.column_mat;
    die = q.starts.die;
    active_mat_row = q.starts.active_mat_row;
    active_mat_column = q.starts.active_mat_column;
    row_subarray = hr;
    column_subarray = hc;
    active_subarray_row = q.starts.active_subarray_row;
    active_subarray_column = q.starts.active_subarray_column;
    sense_amp = q.starts.sense_amp;
    lev1 = q.starts.lev1;
    lev2 = q.starts.lev2;
    row_per_set = q.starts.row_per_set;
  };
  column_hi = q.column_hi;
}

pub active_mat_of-KeepsBounds :
    (r c y x : ℕ)
    → IsPowerOfTwo r
    → IsPowerOfTwo c
    → IsPowerOfTwo y
    → IsPowerOfTwo x
    → KeepsBounds (active_mat_of r c y x)
active_mat_of-KeepsBounds r c y x hr hc hy hx s rows layers q = record {
  starts = record {
    row_mat = q.starts.row_mat;
    column_mat = q.starts.column_mat;
    die = q.starts.die;
    active_mat_row = q.starts.active_mat_row;
    active_mat_column = q.starts.active_mat_column;
    row_subarray = hr;
    column_subarray = hc;
    active_subarray_row = hx;
    active_subarray_column = hy;
    sense_amp = q.starts.sense_amp;
    lev1 = q.starts.lev1;
    lev2 = q.starts.lev2;
    row_per_set = q.starts.row_per_set;
  };
  column_hi = q.column_hi;
}

pub cacti_space-KeepsBounds : KeepsBounds (cacti_space)
cacti_space-KeepsBounds s rows layers q = record {
  starts = record {
    row_mat = q.starts.row_mat;
    column_mat = q.starts.column_mat;
    die = q.starts.die;
    active_mat_row = q.column_hi;
    active_mat_column = (0, refl);
    row_subarray = (1, refl);
    column_subarray = (1, refl);
    active_subarray_row = (1, refl);
    active_subarray_column = (1, refl);
    sense_amp = q.starts.sense_amp;
    lev1 = q.starts.lev1;
    lev2 = q.starts.lev2;
    row_per_set = q.starts.row_per_set;
  };
  column_hi = q.column_hi;
}
