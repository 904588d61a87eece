-- ===== src/BankWithHtree.antt =====
-- BankWithHtree.cpp: `Initialize` routes the address and the data bits from the bank to its mats,
-- halving the bank at each level of the H-tree, and derives the mat.
pub mod Routing
pub mod Shares
pub mod Capacity
pub mod Defined
use destiny_3d_cache.Prelude.{ℕ, ◌^◌, Bool, not, [], ltb, ◌==◌, ℤ, log2_int, log2_floor}
use destiny_3d_cache.Prelude.Outcome.{Outcome, ok, ◌>>=◌, ◌>>◌, reject_if, defined, quotient}
use destiny_3d_cache.TypeDef.{MemoryType, data_array, tag, cam}
use destiny_3d_cache.Mat.{Mat, MatConfig, Context, mat_initialize}
use destiny_3d_cache.BankConfig.{
  BankConfig, bank_clamped, bank_address_bits, Muxes, Share, given_muxes, mat_config, way_muxes,
}
use Routing.{Route, route}

-- The data bits that go to a mat, each to one mat, and those that go to all of them.
abbrev pub distribute_bits : MemoryType → BankConfig → ℕ
distribute_bits data_array c = c.block_size
distribute_bits tag c = c.associativity
distribute_bits cam c = 0

abbrev pub broadcast_bits : MemoryType → BankConfig → Outcome ℕ
broadcast_bits data_array c = defined (log2_floor c.associativity)
broadcast_bits tag c = ok c.block_size
broadcast_bits cam c = ok c.block_size

-- The state in which the routing starts, of a clamped configuration.
unfoldable pub route_start : BankConfig → Outcome Route
route_start c = do
  address ← bank_address_bits c
  broadcast ← broadcast_bits c.memory_type c
  level_horizontal ← defined (log2_int c.num_column_mat)
  level_vertical ← defined (log2_int c.num_row_mat)
  ok (record {
    level_horizontal = level_horizontal;
    level_vertical = level_vertical;
    broadcast = broadcast;
    row_to_active = c.num_active_mat_per_column;
    column_to_active = c.num_active_mat_per_row;
    address = address;
    distribute = distribute_bits c.memory_type c;
    horizontal = [];
    vertical = [];
    h_temp = 1;
    v_temp = 1;
  })

abbrev pub share_of : Context → MemoryType → BankConfig → Route → Outcome Share
share_of g data_array c s = do
  reject_if (ltb (2 ^ s.broadcast) c.num_row_per_set)
  way_per_row ← quotient (2 ^ s.broadcast) c.num_row_per_set
  muxes ← way_muxes g.mem_cell_type way_per_row (given_muxes c)
  ok (record { mat_block_size = s.distribute; num_way = 2 ^ s.broadcast; muxes = muxes })
share_of g tag c s = do
  reject_if (ltb 1 c.num_row_per_set)
  reject_if (s.distribute == 0)
  ok (record { mat_block_size = s.broadcast; num_way = s.distribute; muxes = given_muxes c })
share_of g cam c s =
    ok (record { mat_block_size = s.broadcast; num_way = 1; muxes = given_muxes c })

unfoldable pub mat_share : Context → BankConfig → Route → Outcome Share
unfolding way_muxes
mat_share g c s = share_of g c.memory_type c s

-- The bank that the search keeps: its mux degrees are the given ones again.
pub record HtreeBank : Type 0 where
  pub config : BankConfig
  pub routing : Route
  pub mat : Mat

unfoldable pub htree_initialize : Context → BankConfig → Outcome HtreeBank
htree_initialize g config = do
  reject_if (not config.internal_sense_amp)
  let c = bank_clamped config
  start ← route_start c
  end ← route start
  share ← mat_share g c end
  mat ← mat_initialize g (mat_config c end.address share)
  ok (record { config = c; routing = end; mat = mat })
