-- ===== src/BankWithHtree/Capacity.antt =====
-- The mats of a bank together hold its capacity.
use destiny_3d_cache.Prelude.{
  ℕ, ◌+◌, ◌*◌, ◌^◌, ◌≤◌, ◌≡◌, refl, sym, ap, subst, ◌∙◌, inl, inr, not, [], arith, pos,
  IsPowerOfTwo, log2_int, log2_int-pow, log2_floor-pow,
}
use native.Mathlib.Nat.{pow-zero}
use destiny_3d_cache.Prelude.Outcome.{ok, >>=-ok, ok-injective, reject_if}
use destiny_3d_cache.TypeDef.{data_array, tag}
use destiny_3d_cache.Mat.{Mat, Context, mat_initialize}
use destiny_3d_cache.BankConfig.{BankConfig, bank_clamped, Share, mat_config}
use destiny_3d_cache.BankConfig.Powers.{
  IsPowers, HoldsWords, bank_clamped-eq_self, bank_address_bits-eq,
}
use destiny_3d_cache.BankWithHtree.{
  HtreeBank, htree_initialize, route_start, mat_share, share_of, distribute_bits, broadcast_bits,
}
use destiny_3d_cache.BankWithHtree.Shares.{share-data, share-tag}
use destiny_3d_cache.BankWithHtree.Routing.{Route, route}
use destiny_3d_cache.BankWithHtree.Routing.Halving.{Routed, route-Progress}
use destiny_3d_cache.BankConfig.Capacity.{
  organised_bits, data_share-capacity, tag_share-capacity, data_columns, no_columns,
}

pub route_start-eq :
    (c : BankConfig) (n broadcast : ℕ) (p : IsPowers c)
    → HoldsWords c n
    → broadcast_bits c.memory_type c ≡ ok broadcast
    → route_start c
      ≡ ok (record {
        level_horizontal = p.column_mat.0;
        level_vertical = p.row_mat.0;
        broadcast = broadcast;
        row_to_active = c.num_active_mat_per_column;
        column_to_active = c.num_active_mat_per_row;
        address = pos n;
        distribute = distribute_bits c.memory_type c;
        horizontal = [];
        vertical = [];
        h_temp = 1;
        v_temp = 1;
      })
unfolding route_start
route_start-eq c n broadcast p w eb =
    rw
      (
        bank_address_bits-eq c n p w,
        eb,
        ap log2_int p.column_mat.1,
        log2_int-pow p.column_mat.0,
        ap log2_int p.row_mat.1,
        log2_int-pow p.row_mat.0,
      )
      refl

-- What happened in an `Initialize` that ended with its bank.
record Parts (g : Context) (c : BankConfig) (m : Mat) : Type 0 where
  start : Route
  end : Route
  share : Share
  started : route_start c ≡ ok start
  routed : route start ≡ ok end
  shared : mat_share g c end ≡ ok share
  built : mat_initialize g (mat_config c end.address share) ≡ ok m

htree-Parts :
    (g : Context) (c : BankConfig) (b : HtreeBank)
    → IsPowers c
    → htree_initialize g c ≡ ok b
    → Parts g c b.mat
unfolding htree_initialize
htree-Parts g c b p h =
    let (_, _, h1) = >>=-ok (reject_if (not c.internal_sense_amp)) _ h in
    let (start, e2, h2) = >>=-ok (route_start (bank_clamped c)) _ h1 in
    let (end, e3, h3) = >>=-ok (route start) _ h2 in
    let (share, e4, h4) = >>=-ok (mat_share g (bank_clamped c) end) _ h3 in
    let (mat, e5, h5) =
      >>=-ok (mat_initialize g (mat_config (bank_clamped c) end.address share)) _ h4 in
    let same = ap (λ (x : HtreeBank). x.mat) (ok-injective h5) in
    subst (λ x. Parts g x b.mat) (bank_clamped-eq_self c p)
      (record {
        start = start;
        end = end;
        share = share;
        started = e2;
        routed = e3;
        shared = e4;
        built = e5 ∙ ap ok same;
      })

module _ (g : Context) (c : BankConfig) (n k : ℕ) (p : IsPowers c) (w : HoldsWords c n)
    {broadcast : ℕ} (eb : broadcast_bits c.memory_type c ≡ ok broadcast)
    (ed : distribute_bits c.memory_type c ≡ 2 ^ k) {m : Mat} (parts : Parts g c m) where
  -- At the end of the routing: the broadcast bits, and the share of one of the mats.
  end_Routed :
      (parts.end.broadcast ≡ broadcast)
      × Routed (2 ^ k * 2 ^ n) (p.column_mat.0 + p.row_mat.0) parts.end
  end_Routed =
      let e0 = ok-injective (sym (route_start-eq c n broadcast p w eb) ∙ parts.started) in
      let narrow : p.column_mat.0 ≡ 0 → c.num_active_mat_per_row ≤ 1 = λ z.
        let one : c.num_column_mat ≡ 1 = p.column_mat.1 ∙ ap (λ (t : ℕ). 2 ^ t) z in
        omega (arith, p.active_mat_row) in
      let routed = subst (λ s. route s ≡ ok parts.end) (sym e0) parts.routed in
      let progress =
        route-Progress (2 ^ k * 2 ^ n) _ parts.end narrow routed
          (inr (k, n, ed, refl, omega (arith, pow-zero 2))) in
      (progress.same_broadcast, progress.routed)

-- If a data array with an H-tree, of counts and bits that are powers of two and with 2^n words for
-- each way and die, is legal, then its mats hold its capacity exactly.
pub htree_data-capacity :
    (g : Context) (c : BankConfig) (n : ℕ) (b : HtreeBank)
    → IsPowers c
    → HoldsWords c n
    → IsPowerOfTwo c.block_size
    → c.memory_type ≡ data_array
    → htree_initialize g c ≡ ok b
    → organised_bits c b.mat ≡ c.capacity
unfolding mat_share
htree_data-capacity g c n b p w (k, ek) et h =
    let (a, ea) = p.ways in
    let parts = htree-Parts g c b p h in
    let s = parts.end in
    let share = parts.share in
    let eb : broadcast_bits c.memory_type c ≡ ok a = rw (et, ea, log2_floor-pow a) refl in
    let ed : distribute_bits c.memory_type c ≡ 2 ^ k = rw (et) ek in
    let (broadcast, routed) = end_Routed g c n k p w eb ed parts in
    let (block, way, mux) =
      share-data g c s share p (subst (λ t. share_of g t c s ≡ ok share) et parts.shared) in
    elim routed [
      | inl none_left ↦
          let columns = data_columns g c s.address share b.mat p parts.built in
          absurd (no_columns _ _ _ block none_left columns)
      | inr (e, n', data_bits, words, total) ↦
          let ways = way ∙ (ap (λ (x : ℕ). 2 ^ x) broadcast ∙ sym ea) in
          data_share-capacity g c n p w s.address share b.mat parts.built mux e n' words k ek et
            (block ∙ data_bits) ways total
    ]

-- If a tag array with an H-tree, of counts that are powers of two, with 2^n sets for each die and
-- tags whose bits the active subarrays divide, is legal, then its mats hold its capacity exactly.
pub htree_tag-capacity :
    (g : Context) (c : BankConfig) (n : ℕ) (b : HtreeBank)
    → IsPowers c
    → HoldsWords c n
    → ((d : ℕ) × (c.block_size
          ≡ d * (c.num_active_subarray_per_row * c.num_active_subarray_per_column)))
    → c.memory_type ≡ tag
    → htree_initialize g c ≡ ok b
    → organised_bits c b.mat ≡ c.capacity
unfolding mat_share
htree_tag-capacity g c n b p w (d, divide) et h =
    let (a, ea) = p.ways in
    let parts = htree-Parts g c b p h in
    let s = parts.end in
    let share = parts.share in
    let eb : broadcast_bits c.memory_type c ≡ ok c.block_size = rw (et) refl in
    let ed : distribute_bits c.memory_type c ≡ 2 ^ a = rw (et) ea in
    let (broadcast, routed) = end_Routed g c n a p w eb ed parts in
    let (some_left, block, way, mux) =
      share-tag g c s share p (subst (λ t. share_of g t c s ≡ ok share) et parts.shared) in
    elim routed [
      | inl none_left ↦ absurd (ground (arith, none_left, some_left))
      | inr (e, n', data_bits, words, total) ↦
          tag_share-capacity g c n p w s.address share b.mat parts.built mux e n' words (d, divide)
            et (block ∙ broadcast) (way ∙ data_bits) (rw ea total)
    ]

-- The bank keeps the arguments, clamped.
pub htree-config :
    (g : Context) (c : BankConfig) (b : HtreeBank)
    → htree_initialize g c ≡ ok b
    → bank_clamped c ≡ b.config
unfolding htree_initialize
htree-config g c b h =
    let (_, _, h1) = >>=-ok (reject_if (not c.internal_sense_amp)) _ h in
    let (start, _, h2) = >>=-ok (route_start (bank_clamped c)) _ h1 in
    let (end, _, h3) = >>=-ok (route start) _ h2 in
    let (share, _, h4) = >>=-ok (mat_share g (bank_clamped c) end) _ h3 in
    let (mat, _, h5) =
      >>=-ok (mat_initialize g (mat_config (bank_clamped c) end.address share)) _ h4 in
    ap (λ (x : HtreeBank). x.config) (ok-injective h5)
