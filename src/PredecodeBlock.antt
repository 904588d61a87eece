-- ===== src/PredecodeBlock.antt =====
-- PredecodeBlock.cpp: `Initialize` composes a predecoder of small decoders and up to two stages of
-- NAND gates.
pub mod Outputs
use destiny_3d_cache.Prelude.{
  ℕ, ◌+◌, ◌-◌, ◌*◌, ◌/◌, ◌%◌, ◌^◌, Bool, true, false, Option, none, some, ltb, leb, ◌==◌,
  if◌then◌else◌,
}
use destiny_3d_cache.Prelude.Run.{Run, returns, exits}

-- The capacitive load of a decoder: that of the block, or a number of inputs of NAND gates of the
-- stage that follows.
pub data Load : Type 0 where
  block_load : Load
  nand_inputs : ℕ → Load

-- The arguments of `RowDecoder::Initialize`: the number of outputs, the load, and whether its NAND
-- gates have three inputs.
pub record RowDecoderPlan : Type 0 where
  pub num_row : ℕ
  pub load : Load
  pub nand3 : Bool

-- The arguments of `BasicDecoder::Initialize`, for `count` decoders.
pub record BasicDecoderPlan : Type 0 where
  pub count : ℕ
  pub num_address_bit : ℕ
  pub load : Load

-- `NULL` is `none`.
pub record PredecodeBlock : Type 0 where
  pub num_address_bit : ℕ
  pub num_output_address_bit : ℕ
  pub row_decoder_stage1a : Option RowDecoderPlan
  pub row_decoder_stage1b : Option RowDecoderPlan
  pub row_decoder_stage1c : Option RowDecoderPlan
  pub row_decoder_stage2 : Option RowDecoderPlan
  pub basic_decoder_a1 : Option BasicDecoderPlan
  pub basic_decoder_a2 : Option BasicDecoderPlan
  pub basic_decoder_b : Option BasicDecoderPlan
  pub basic_decoder_c : Option BasicDecoderPlan

-- The decoders of one, two and three address bits.
pub record Decoders : Type 0 where
  pub num_decoder12 : ℕ
  pub num_decoder24 : ℕ
  pub num_decoder38 : ℕ

abbrev num_24 : ℕ → ℕ
num_24 mod3 = if mod3 == 2 then 1 else if mod3 == 1 then 2 else 0

unfoldable pub decoders : ℕ → Decoders
decoders n =
    if n == 1 then record { num_decoder12 = 1; num_decoder24 = 0; num_decoder38 = 0 } else record {
      num_decoder12 = 0;
      num_decoder24 = num_24 (n % 3);
      num_decoder38 = (n - 2 * num_24 (n % 3)) / 3;
    }

abbrev pub num_basic_decoder : Decoders → ℕ
num_basic_decoder d = d.num_decoder12 + d.num_decoder24 + d.num_decoder38

abbrev row_decoder : ℕ → Load → ℕ → RowDecoderPlan
row_decoder num_row load nand = record { num_row = num_row; load = load; nand3 = nand == 3 }

-- The inputs of the NAND gates of the first stages, and the outputs of the first stages.
pub record Stages : Type 0 where
  pub nand_a : ℕ
  pub nand_b : ℕ
  pub nand_c : ℕ
  pub bits_a : ℕ
  pub bits_b : ℕ
  pub bits_c : ℕ

-- Two first stages, for four to six decoders.
abbrev pub two_stages : Decoders → Stages
two_stages d =
    let b = num_basic_decoder d / 2 in
    let a = num_basic_decoder d - b in
    record {
      nand_a = a;
      nand_b = b;
      nand_c = 0;
      bits_a = 2 ^ (3 * a - d.num_decoder24);
      bits_b = 2 ^ (3 * b);
      bits_c = 1;
    }

-- Three first stages, for seven to nine decoders. `numAddressBitStage1A` is shifted from the value
-- that it had before, `stale`.
abbrev pub three_stages : ℕ → Decoders → Stages
three_stages stale d = record {
  nand_a = 3;
  nand_b = if num_basic_decoder d == 7 then 2 else 3;
  nand_c = if num_basic_decoder d == 9 then 3 else 2;
  bits_a = stale * 2 ^ (3 * 3 - d.num_decoder24);
  bits_b = if num_basic_decoder d == 7 then 64 else 512;
  bits_c = if num_basic_decoder d == 9 then 512 else 64;
}

-- The decoders in front of a stage B or C.
abbrev side_decoders : ℕ → BasicDecoderPlan
side_decoders nand = record {
  count = nand;
  num_address_bit = 3;
  load = nand_inputs (if nand == 2 then 8 else 64);
}

-- The decoders in front of stage A, by the number of decoders of two address bits.
abbrev pub front_decoders : ℕ → ℕ → Option BasicDecoderPlan × Option BasicDecoderPlan
front_decoders nand_a num_24 =
    if num_24 == 0
    then (
      some (record {
        count = nand_a;
        num_address_bit = 3;
        load = nand_inputs (2 ^ (3 * (nand_a - 1)));
      }),
      none,
    )
    else if num_24 == 1
    then (
      some (record { count = 1; num_address_bit = 2; load = nand_inputs (2 ^ (3 * (nand_a - 1))) }),
      some (record {
        count = nand_a - 1;
        num_address_bit = 3;
        load = nand_inputs (2 ^ (2 + 3 * (nand_a - 1 - 1)));
      }),
    )
    else if nand_a == 2
    then (some (record { count = 2; num_address_bit = 2; load = nand_inputs 4 }), none)
    else (
      some (record { count = 2; num_address_bit = 2; load = nand_inputs 32 }),
      some (record { count = 1; num_address_bit = 3; load = nand_inputs 16 }),
    )

-- A block of one small decoder, which drives the load itself.
abbrev single_block : ℕ → Decoders → PredecodeBlock
single_block n d = record {
  num_address_bit = n;
  num_output_address_bit = 2 ^ n;
  row_decoder_stage1a = none;
  row_decoder_stage1b = none;
  row_decoder_stage1c = none;
  row_decoder_stage2 = none;
  basic_decoder_a1 = some (record {
    count = 1;
    num_address_bit = if d.num_decoder12 == 1 then 1 else if d.num_decoder24 == 1 then 2 else 3;
    load = block_load;
  });
  basic_decoder_a2 = none;
  basic_decoder_b = none;
  basic_decoder_c = none;
}

-- A block with one stage of NAND gates, of all its decoders.
abbrev one_stage_block : ℕ → Decoders → PredecodeBlock
one_stage_block n d =
    let front = front_decoders (num_basic_decoder d) d.num_decoder24 in
    record {
      num_address_bit = n;
      num_output_address_bit = 2 ^ n;
      row_decoder_stage1a = some (row_decoder (2 ^ n) block_load (num_basic_decoder d));
      row_decoder_stage1b = none;
      row_decoder_stage1c = none;
      row_decoder_stage2 = none;
      basic_decoder_a1 = front.0;
      basic_decoder_a2 = front.1;
      basic_decoder_b = none;
      basic_decoder_c = none;
    }

-- A block with two stages: each gate of a first stage drives the gates of the second one for all
-- outputs of the other first stages.
abbrev two_stage_block : ℕ → Decoders → PredecodeBlock
two_stage_block n d =
    let s = two_stages d in
    let front = front_decoders s.nand_a d.num_decoder24 in
    record {
      num_address_bit = n;
      num_output_address_bit = 2 ^ n;
      row_decoder_stage1a = some (row_decoder s.bits_a (nand_inputs s.bits_b) s.nand_a);
      row_decoder_stage1b = some (row_decoder s.bits_b (nand_inputs s.bits_a) s.nand_b);
      row_decoder_stage1c = none;
      row_decoder_stage2 = some (row_decoder (2 ^ n) block_load 2);
      basic_decoder_a1 = front.0;
      basic_decoder_a2 = front.1;
      basic_decoder_b = some (side_decoders s.nand_b);
      basic_decoder_c = none;
    }

abbrev pub three_stage_block : ℕ → ℕ → Decoders → PredecodeBlock
three_stage_block stale n d =
    let s = three_stages stale d in
    let front = front_decoders s.nand_a d.num_decoder24 in
    record {
      num_address_bit = n;
      num_output_address_bit = 2 ^ n;
      row_decoder_stage1a =
          some (row_decoder s.bits_a (nand_inputs (s.bits_b * s.bits_c)) s.nand_a);
      row_decoder_stage1b =
          some (row_decoder s.bits_b (nand_inputs (s.bits_a * s.bits_c)) s.nand_b);
      row_decoder_stage1c =
          some (row_decoder s.bits_c (nand_inputs (s.bits_a * s.bits_b)) s.nand_c);
      row_decoder_stage2 = some (row_decoder (2 ^ n) block_load 3);
      basic_decoder_a1 = front.0;
      basic_decoder_a2 = front.1;
      basic_decoder_b = some (side_decoders s.nand_b);
      basic_decoder_c = some (side_decoders s.nand_c);
    }

-- A block of no address bits has nothing.
abbrev empty_block : PredecodeBlock
empty_block = record {
  num_address_bit = 0;
  num_output_address_bit = 0;
  row_decoder_stage1a = none;
  row_decoder_stage1b = none;
  row_decoder_stage1c = none;
  row_decoder_stage2 = none;
  basic_decoder_a1 = none;
  basic_decoder_a2 = none;
  basic_decoder_b = none;
  basic_decoder_c = none;
}

-- `Initialize` on a new block, whose `numAddressBitStage1A` holds `stale`.
unfoldable pub predecode_initialize : ℕ → ℕ → Run PredecodeBlock
unfolding decoders
predecode_initialize stale n =
    let d = decoders n in
    if ltb 27 n
    then exits
    else if n == 0
    then returns empty_block
    else if leb (num_basic_decoder d) 1
    then returns (single_block n d)
    else if leb (num_basic_decoder d) 3
    then returns (one_stage_block n d)
    else if leb (num_basic_decoder d) 6
    then returns (two_stage_block n d)
    else returns (three_stage_block stale n d)
