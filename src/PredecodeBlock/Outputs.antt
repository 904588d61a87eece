-- ===== src/PredecodeBlock/Outputs.antt =====
-- The decoders of a predecoder take its address bits, and its stages make all its outputs.
use destiny_3d_cache.Prelude.{
  ℕ, zero, suc, ◌+◌, ◌*◌, ◌^◌, ◌≤◌, ◌≡◌, Bool, true, false, Option, none, some, arith, ◌==◌, ◌&&◌,
  ◌||◌, not, ltb, leb,
}
use native.Mathlib.Nat.{mod-add-div', mod-lt}
use destiny_3d_cache.Prelude.Run.{Run, returns}
use destiny_3d_cache.PredecodeBlock.{PredecodeBlock, RowDecoderPlan, BasicDecoderPlan, decoders}

-- The address bits of the small decoders.
abbrev bits_of : Option BasicDecoderPlan → ℕ
bits_of none = 0
bits_of (some d) = d.count * d.num_address_bit

abbrev pub decoded_bits : PredecodeBlock → ℕ
decoded_bits b =
    bits_of b.basic_decoder_a1
    + bits_of b.basic_decoder_a2
    + bits_of b.basic_decoder_b
    + bits_of b.basic_decoder_c

abbrev outputs_of : Option RowDecoderPlan → ℕ
outputs_of none = 1
outputs_of (some r) = r.num_row

-- The combinations of the outputs of the first stages.
abbrev pub stage1_combinations : PredecodeBlock → ℕ
stage1_combinations b =
    outputs_of b.row_decoder_stage1a
    * outputs_of b.row_decoder_stage1b
    * outputs_of b.row_decoder_stage1c

-- The decoders of one, two and three bits that are chosen for n address bits, at least one, take n
-- bits.
pub decoders_lem :
    (n : ℕ)
    → 1 ≤ n
    → (decoders n).num_decoder12 + 2 * (decoders n).num_decoder24 + 3 * (decoders n).num_decoder38
      ≡ n
unfolding decoders
decoders_lem n h = ground (arith, mod-add-div' n 3, mod-lt n {m = 3})

-- A test of all numbers below a bound.
all_below : (ℕ → Bool) → ℕ → Bool
all_below test zero = true
all_below test (suc m) = all_below test m && test m

-- Whether the block for `n` address bits takes all bits and makes all outputs, if the first stage
-- A is shifted from 1, and has at most six decoders just for up to 18 bits.
is_right : Run PredecodeBlock → ℕ → Bool
is_right (returns b) n = decoded_bits b == n && (ltb n 4 || stage1_combinations b == 2 ^ n)
is_right _ n = false

is_small : ℕ → Bool → Bool
is_small n true = leb n 18
is_small n false = not (leb n 18)
