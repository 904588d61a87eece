-- ===== src/BankWithoutHtree/Shares.antt =====
-- What the active mats of a bank share out.
use native.Mathlib.Nat.{div-div-eq-div-mul, div-le_self}
use destiny_3d_cache.Prelude.{
  ℕ, zero, suc, ◌+◌, ◌-◌, ◌*◌, ◌/◌, ◌^◌, ◌≤◌, ◌≡◌, refl, sym, ap, subst, ◌∙◌, arith, ℤ, pos, negsuc,
  sub_int, ltb, IsPowerOfTwo, pow-add, div-pow_exact, div-pow, log2_int-pow,
}
use destiny_3d_cache.Prelude.Outcome.{ok, >>=-ok, ok-injective, reject_if, reject_if-ok, quotient}
use destiny_3d_cache.TypeDef.{data_array, tag, MemCellType}
use destiny_3d_cache.Mat.{Mat, Context, geometry, gating_bits, mat_initialize}
use destiny_3d_cache.Mat.Capacity.{dimensions-ok, mat_initialize-geometry, sub_int_negsuc}
use destiny_3d_cache.BankConfig.{BankConfig, mux_product, way_muxes, Share, given_muxes, mat_config}
use destiny_3d_cache.BankConfig.Products.{way_muxes-product, quotient-pow}
use destiny_3d_cache.BankConfig.Powers.{
  IsPowers, HoldsWords, IsPowerOfTwo-mul, bank_address_bits-eq, pow-le_iff,
}
use destiny_3d_cache.BankConfig.Capacity.{mat_config-clamped}
use destiny_3d_cache.BankWithoutHtree.{flat_share, per_active_mat, routed_address}

pub negative : (k g n : ℕ) → ¬ (sub_int (negsuc k) g ≡ pos n)
negative k zero n h = ground (arith, h)
negative k (suc g) n h = negative (suc k) g n h

pub sub_int-pos : (n g n' : ℕ) → sub_int (pos n) g ≡ pos n' → n ≡ n' + g
sub_int-pos n zero n' h = ground (arith, h)
sub_int-pos zero (suc g) n' h = absurd (negative 0 g n' h)
sub_int-pos (suc n) (suc g) n' h = omega (arith, sub_int-pos n g n' h)

-- A legal mat has address bits that are not negative.
pub built-address :
    (g : Context) (c : BankConfig) (address : ℤ) (share : Share) (m : Mat)
    → IsPowers c
    → mat_initialize g (mat_config c address share) ≡ ok m
    → (n : ℕ) × (address ≡ pos n)
unfolding geometry
built-address g c (pos n) share m p h = (n, refl)
built-address g c (negsuc n) share m p h =
    let (bits, e) = mat_initialize-geometry g (mat_config c (negsuc n) share) m h in
    let geo = ap geometry (sym (mat_config-clamped c (negsuc n) share p)) ∙ e in
    let (gating, _, found) = >>=-ok (gating_bits (mat_config c (negsuc n) share)) _ geo in
    let d = dimensions-ok (mat_config c (negsuc n) share) gating _ _ bits found in
    absurd (omega (arith, d.0, d.1, sub_int_negsuc n gating))

-- A power of two among active mats that are powers of two.
pub per_active_mat-pow :
    (c : BankConfig) (k x y v : ℕ)
    → c.num_active_mat_per_column ≡ 2 ^ x
    → c.num_active_mat_per_row ≡ 2 ^ y
    → per_active_mat c (2 ^ k) ≡ ok v
    → 1 ≤ v
    → (j : ℕ) × (v ≡ 2 ^ j) × (k ≡ j + (x + y))
unfolding per_active_mat
per_active_mat-pow c k x y v ex ey h positive =
    let e : 2 ^ k / 2 ^ x / 2 ^ y ≡ v = rw (← ex, ← ey) (ground arith) in
    let whole : 2 ^ k / 2 ^ (x + y) ≡ v =
      ap (λ (t : ℕ). 2 ^ k / t) (pow-add x y)
      ∙ (sym (div-div-eq-div-mul (2 ^ k) (2 ^ x) (2 ^ y)) ∙ e) in
    let (j, split) = div-pow_exact k (x + y) (rw whole positive) in
    (j, sym whole ∙ (ap (λ (t : ℕ). 2 ^ t / 2 ^ (x + y)) split ∙ div-pow j (x + y)), split)

-- The address bits less those of the mats that are not active.
pub routed_address-eq :
    (c : BankConfig) (n x y : ℕ) (p : IsPowers c)
    → HoldsWords c n
    → c.num_active_mat_per_column ≡ 2 ^ x
    → c.num_active_mat_per_row ≡ 2 ^ y
    → (gating : ℕ) × (routed_address c ≡ ok (sub_int (pos n) gating))
      × (gating + (x + y) ≡ p.column_mat.0 + p.row_mat.0)
unfolding routed_address
routed_address-eq c n x y p w ex ey =
    let (r, er) = p.row_mat in
    let (q, eq) = p.column_mat in
    let x_le : x ≤ r = pow-le_iff r x (rw (← er, ← ex) p.active_mat_column) in
    let y_le : y ≤ q = pow-le_iff q y (rw (← eq, ← ey) p.active_mat_row) in
    (
      r + q - x - y,
      rw
          (
            bank_address_bits-eq c n p w,
            er,
            eq,
            ex,
            ey,
            ← pow-add r q,
            quotient-pow (r + q) x (omega arith),
            quotient-pow (r + q - x) y (omega arith),
            log2_int-pow (r + q - x - y),
          )
          refl,
      omega arith,
    )

pub positive_quotient : (x y : ℕ) → 1 ≤ x / y → 1 ≤ x
positive_quotient x y h = omega (arith, div-le_self x y)

pub exponents : (j n' q k n : ℕ) → j + n' + q ≡ k + n → 2 ^ j * 2 ^ n' * 2 ^ q ≡ 2 ^ k * 2 ^ n
exponents j n' q k n h =
    ap (λ (t : ℕ). t * 2 ^ q) (sym (pow-add j n'))
    ∙ (sym (pow-add (j + n') q) ∙ (ap (λ (t : ℕ). 2 ^ t) h ∙ pow-add k n))

-- The share of a mat of a data array.
pub flat_share-data :
    (t : MemCellType) (c : BankConfig) (share : Share)
    → IsPowers c
    → flat_share t data_array c ≡ ok share
    → (per_active_mat c c.block_size ≡ ok share.mat_block_size)
      × (share.num_way ≡ c.associativity)
      × IsPowerOfTwo (mux_product share.muxes)
flat_share-data t c share p h =
    let (a, ea) = p.ways in
    let (r, er) = p.row_per_set in
    let (bits, e1, h1) = >>=-ok (per_active_mat c c.block_size) _ h in
    let (_, e2, h2) = >>=-ok (reject_if (ltb c.associativity c.num_row_per_set)) _ h1 in
    let fits : 2 ^ r ≤ 2 ^ a =
      rw (← er, ← ea) (ground (arith, reject_if-ok (ltb c.associativity c.num_row_per_set) e2)) in
    let (ways, e3, h3) = >>=-ok (quotient c.associativity c.num_row_per_set) _ h2 in
    let ways_eq : 2 ^ (a - r) ≡ ways =
      ok-injective (sym (quotient-pow a r (pow-le_iff _ _ fits)) ∙ (rw (← ea, ← er) e3)) in
    let (muxes, e4, h4) = >>=-ok (way_muxes t ways (given_muxes c)) _ h3 in
    let product = way_muxes-product t (a - r) (given_muxes c) muxes (rw ways_eq e4) in
    let given = IsPowerOfTwo-mul _ _ (IsPowerOfTwo-mul _ _ p.sense_amp p.lev1) p.lev2 in
    let power : IsPowerOfTwo (mux_product muxes) =
      rw product (IsPowerOfTwo-mul _ _ given (a - r, refl)) in
    let e = ok-injective h4 in
    (
      e1 ∙ ap (λ (x : Share). ok x.mat_block_size) e,
      sym (ap (λ (x : Share). x.num_way) e),
      subst (λ (x : Share). IsPowerOfTwo (mux_product x.muxes)) e power,
    )

-- The share of a mat of a tag array.
pub flat_share-tag :
    (t : MemCellType) (c : BankConfig) (share : Share)
    → IsPowers c
    → flat_share t tag c ≡ ok share
    → (per_active_mat c c.associativity ≡ ok share.num_way)
      × (1 ≤ share.num_way)
      × (share.mat_block_size ≡ c.block_size)
      × IsPowerOfTwo (mux_product share.muxes)
flat_share-tag t c share p h =
    let (_, _, h1) = >>=-ok (reject_if (ltb 1 c.num_row_per_set)) _ h in
    let (ways, e2, h2) = >>=-ok (per_active_mat c c.associativity) _ h1 in
    let (_, e3, h3) = >>=-ok (reject_if (ltb ways 1)) _ h2 in
    let some : 1 ≤ ways = ground (arith, reject_if-ok (ltb ways 1) e3) in
    let given = IsPowerOfTwo-mul _ _ (IsPowerOfTwo-mul _ _ p.sense_amp p.lev1) p.lev2 in
    let e = ok-injective h3 in
    (
      e2 ∙ ap (λ (x : Share). ok x.num_way) e,
      subst (λ (x : Share). 1 ≤ x.num_way) e some,
      sym (ap (λ (x : Share). x.mat_block_size) e),
      subst (λ (x : Share). IsPowerOfTwo (mux_product x.muxes)) e given,
    )
