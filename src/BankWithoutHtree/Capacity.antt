-- ===== src/BankWithoutHtree/Capacity.antt =====
-- The mats of a bank without an H-tree together hold its capacity.
use destiny_3d_cache.Prelude.{
  ℕ, ◌*◌, ◌^◌, ◌≡◌, sym, ap, subst, ◌∙◌, arith, ℤ, not, ◌&&◌, IsPowerOfTwo,
}
use destiny_3d_cache.Prelude.Outcome.{ok, >>=-ok, ok-injective, reject_if, reject_if->>-ok}
use destiny_3d_cache.TypeDef.{data_array, tag}
use destiny_3d_cache.Mat.{Mat, mat_initialize}
use destiny_3d_cache.BankConfig.{BankConfig, bank_clamped, Share, mat_config}
use destiny_3d_cache.BankConfig.Powers.{IsPowers, HoldsWords, bank_clamped-eq_self}
use destiny_3d_cache.BankConfig.Capacity.{
  organised_bits, data_share-capacity, tag_share-capacity, data_columns,
}
use destiny_3d_cache.BankWithoutHtree.{
  BankContext, FlatBank, flat_initialize, flat_mat_share, flat_share, routed_address,
  rejects_external,
}
use destiny_3d_cache.BankWithoutHtree.Shares.{
  sub_int-pos, built-address, per_active_mat-pow, routed_address-eq, positive_quotient, exponents,
  flat_share-data, flat_share-tag,
}

-- What happened in an `Initialize` that ended with its bank.
record Parts (g : BankContext) (c : BankConfig) (m : Mat) : Type 0 where
  address : ℤ
  share : Share
  routed : routed_address c ≡ ok address
  shared : flat_mat_share g.mat.mem_cell_type c ≡ ok share
  built : mat_initialize g.mat (mat_config c address share) ≡ ok m

flat-Parts :
    (g : BankContext) (c : BankConfig) (b : FlatBank)
    → IsPowers c
    → flat_initialize g c ≡ ok b
    → Parts g c b.mat
unfolding flat_initialize
flat-Parts g c b p h =
    let t = g.mat.mem_cell_type in
    let (_, _, h1) = >>=-ok (reject_if (not c.internal_sense_amp && rejects_external g t)) _ h in
    let (address, e2, h2) = >>=-ok (routed_address (bank_clamped c)) _ h1 in
    let (share, e3, h3) = >>=-ok (flat_mat_share t (bank_clamped c)) _ h2 in
    let (mat, e4, h4) =
      >>=-ok (mat_initialize g.mat (mat_config (bank_clamped c) address share)) _ h3 in
    let same : mat ≡ b.mat = ap (λ (x : FlatBank). x.mat) (reject_if->>-ok _ _ b h4) in
    subst (λ x. Parts g x b.mat) (bank_clamped-eq_self c p)
      (record {
        address = address;
        share = share;
        routed = e2;
        shared = e3;
        built = e4 ∙ ap ok same;
      })

-- If a data array without an H-tree, of counts, active mats and bits that are powers of two and
-- with 2^n words for each way and die, is legal, then its mats hold its capacity exactly.
pub flat_data-capacity :
    (g : BankContext) (c : BankConfig) (n : ℕ) (b : FlatBank)
    → IsPowers c
    → HoldsWords c n
    → IsPowerOfTwo c.num_active_mat_per_column
    → IsPowerOfTwo c.num_active_mat_per_row
    → IsPowerOfTwo c.block_size
    → c.memory_type ≡ data_array
    → flat_initialize g c ≡ ok b
    → organised_bits c b.mat ≡ c.capacity
unfolding flat_mat_share
flat_data-capacity g c n b p w (x, ex) (y, ey) (k, ek) et h =
    let parts = flat-Parts g c b p h in
    let share = parts.share in
    let t = g.mat.mem_cell_type in
    let (bits, way, mux) =
      flat_share-data t c share p (subst (λ k. flat_share t k c ≡ ok share) et parts.shared) in
    let (n', words) = built-address g.mat c parts.address share b.mat p parts.built in
    let (gating, route, sum) = routed_address-eq c n x y p w ex ey in
    let left = sub_int-pos n gating n' (ok-injective (sym route ∙ parts.routed) ∙ words) in
    let columns = data_columns g.mat c parts.address share b.mat p parts.built in
    let (j, part, split) =
      per_active_mat-pow c k x y share.mat_block_size ex ey (rw (← ek) bits)
        (positive_quotient _ _ columns) in
    data_share-capacity g.mat c n p w parts.address share b.mat parts.built mux j n' words k ek et
      part way (exponents j n' _ k n (omega arith))

-- If a tag array without an H-tree, of counts and active mats that are powers of two, with 2^n sets
-- for each die and tags whose bits the active subarrays divide, is legal, then its mats hold its
-- capacity exactly.
pub flat_tag-capacity :
    (g : BankContext) (c : BankConfig) (n : ℕ) (b : FlatBank)
    → IsPowers c
    → HoldsWords c n
    → IsPowerOfTwo c.num_active_mat_per_column
    → IsPowerOfTwo c.num_active_mat_per_row
    → ((d : ℕ) × (c.block_size
          ≡ d * (c.num_active_subarray_per_row * c.num_active_subarray_per_column)))
    → c.memory_type ≡ tag
    → flat_initialize g c ≡ ok b
    → organised_bits c b.mat ≡ c.capacity
unfolding flat_mat_share
flat_tag-capacity g c n b p w (x, ex) (y, ey) divide et h =
    let (a, ea) = p.ways in
    let parts = flat-Parts g c b p h in
    let share = parts.share in
    let t = g.mat.mem_cell_type in
    let (way, some, block, mux) =
      flat_share-tag t c share p (subst (λ k. flat_share t k c ≡ ok share) et parts.shared) in
    let (n', words) = built-address g.mat c parts.address share b.mat p parts.built in
    let (gating, route, sum) = routed_address-eq c n x y p w ex ey in
    let left = sub_int-pos n gating n' (ok-injective (sym route ∙ parts.routed) ∙ words) in
    let (j, part, split) = per_active_mat-pow c a x y share.num_way ex ey (rw (← ea) way) some in
    tag_share-capacity g.mat c n p w parts.address share b.mat parts.built mux j n' words divide et
      block part (exponents j n' _ a n (omega arith) ∙ ap (λ (t : ℕ). t * 2 ^ n) (sym ea))

-- The bank keeps the arguments, clamped.
pub flat-config :
    (g : BankContext) (c : BankConfig) (b : FlatBank)
    → flat_initialize g c ≡ ok b
    → bank_clamped c ≡ b.config
unfolding flat_initialize
flat-config g c b h =
    let t = g.mat.mem_cell_type in
    let (_, _, h1) = >>=-ok (reject_if (not c.internal_sense_amp && rejects_external g t)) _ h in
    let (address, _, h2) = >>=-ok (routed_address (bank_clamped c)) _ h1 in
    let (share, _, h3) = >>=-ok (flat_mat_share t (bank_clamped c)) _ h2 in
    let (mat, _, h4) =
      >>=-ok (mat_initialize g.mat (mat_config (bank_clamped c) address share)) _ h3 in
    ap (λ (x : FlatBank). x.config) (reject_if->>-ok _ _ b h4)
