-- ===== src/BankWithHtree/Shares.antt =====
-- What the routed bits give to a mat of a data array and of a tag array.
use destiny_3d_cache.Prelude.{
  ◌-◌, ◌^◌, ◌≤◌, ◌≡◌, refl, sym, ap, subst, ◌∙◌, false, arith, ltb, ◌==◌, IsPowerOfTwo,
}
use destiny_3d_cache.Prelude.Outcome.{ok, >>=-ok, ok-injective, quotient, reject_if, reject_if-ok}
use destiny_3d_cache.TypeDef.{data_array, tag}
use destiny_3d_cache.Mat.{Context}
use destiny_3d_cache.BankConfig.{BankConfig, mux_product, way_muxes, Share, given_muxes}
use destiny_3d_cache.BankConfig.Products.{way_muxes-product, quotient-pow}
use destiny_3d_cache.BankConfig.Powers.{IsPowers, IsPowerOfTwo-mul, pow-le_iff}
use destiny_3d_cache.BankWithHtree.{share_of}
use destiny_3d_cache.BankWithHtree.Routing.{Route}

-- The share of a mat of a data array.
pub share-data :
    (g : Context) (c : BankConfig) (s : Route) (share : Share)
    → IsPowers c
    → share_of g data_array c s ≡ ok share
    → (share.mat_block_size ≡ s.distribute)
      × (share.num_way ≡ 2 ^ s.broadcast)
      × IsPowerOfTwo (mux_product share.muxes)
share-data g c s share p h =
    let (r, er) = p.row_per_set in
    let (_, e0, h0) = >>=-ok (reject_if (ltb (2 ^ s.broadcast) c.num_row_per_set)) _ h in
    let fits : 2 ^ r ≤ 2 ^ s.broadcast =
      rw (← er) (ground (arith, reject_if-ok (ltb (2 ^ s.broadcast) c.num_row_per_set) e0)) in
    let (ways, e1, h1) = >>=-ok (quotient (2 ^ s.broadcast) c.num_row_per_set) _ h0 in
    let exact = quotient-pow s.broadcast r (pow-le_iff _ _ fits) in
    let ways_eq : 2 ^ (s.broadcast - r) ≡ ways =
      ok-injective (sym exact ∙ (ap (quotient (2 ^ s.broadcast)) (sym er) ∙ e1)) in
    let (muxes, e2, h2) = >>=-ok (way_muxes g.mem_cell_type ways (given_muxes c)) _ h1 in
    let product =
      way_muxes-product g.mem_cell_type (s.broadcast - r) (given_muxes c) muxes (rw ways_eq e2) in
    let given = IsPowerOfTwo-mul _ _ (IsPowerOfTwo-mul _ _ p.sense_amp p.lev1) p.lev2 in
    let power : IsPowerOfTwo (mux_product muxes) =
      rw product (IsPowerOfTwo-mul _ _ given (s.broadcast - r, refl)) in
    let e = ok-injective h2 in
    (
      sym (ap (λ (x : Share). x.mat_block_size) e),
      sym (ap (λ (x : Share). x.num_way) e),
      subst (λ (x : Share). IsPowerOfTwo (mux_product x.muxes)) e power,
    )

-- The share of a mat of a tag array.
pub share-tag :
    (g : Context) (c : BankConfig) (s : Route) (share : Share)
    → IsPowers c
    → share_of g tag c s ≡ ok share
    → ((s.distribute == 0) ≡ false)
      × (share.mat_block_size ≡ s.broadcast)
      × (share.num_way ≡ s.distribute)
      × IsPowerOfTwo (mux_product share.muxes)
share-tag g c s share p h =
    let (_, e0, h0) = >>=-ok (reject_if (ltb 1 c.num_row_per_set)) _ h in
    let (_, e1, h1) = >>=-ok (reject_if (s.distribute == 0)) _ h0 in
    let given = IsPowerOfTwo-mul _ _ (IsPowerOfTwo-mul _ _ p.sense_amp p.lev1) p.lev2 in
    let e = ok-injective h1 in
    (
      reject_if-ok (s.distribute == 0) e1,
      sym (ap (λ (x : Share). x.mat_block_size) e),
      sym (ap (λ (x : Share). x.num_way) e),
      subst (λ (x : Share). IsPowerOfTwo (mux_product x.muxes)) e given,
    )
