-- ===== src/BankConfig/Products.antt =====
-- The extra mux levels multiply the mux degree of a mat by the ways of a row.
use destiny_3d_cache.Prelude.{
  ℕ, ◌+◌, ◌-◌, ◌*◌, ◌/◌, ◌^◌, ◌≤◌, ◌≡◌, ap, ◌∙◌, arith, ltb, pow-add, pow-pos, div-pow,
  log2_int-pow, subst, Bool-cases, inl, inr,
}
use destiny_3d_cache.Prelude.Outcome.{ok, ok-injective, quotient}
use destiny_3d_cache.TypeDef.{MemCellType, dram, edram}
use destiny_3d_cache.BankConfig.{Muxes, mux_product, extra_muxes, way_muxes}

pow-split : (w b : ℕ) → b ≤ w → 2 ^ w ≡ 2 ^ (w - b) * 2 ^ b
pow-split w b h = let e : w ≡ w - b + b = omega arith in ap (λ (t : ℕ). 2 ^ t) e ∙ pow-add (w - b) b

pub quotient-pow : (w b : ℕ) → b ≤ w → quotient (2 ^ w) (2 ^ b) ≡ ok (2 ^ (w - b))
quotient-pow w b h =
    let e : w ≡ w - b + b = omega arith in
    let exact : 2 ^ w / 2 ^ b ≡ 2 ^ (w - b) = ap (λ (t : ℕ). 2 ^ t / 2 ^ b) e ∙ div-pow (w - b) b in
    ground (arith, pow-pos b)

Multiplies : ℕ → Muxes → Muxes → Type 0
Multiplies w m m' = mux_product m' ≡ mux_product m * 2 ^ w

two_levels :
    (w b : ℕ) (m : Muxes)
    → b ≤ w
    → Multiplies w m (record m { lev1 = m.lev1 * 2 ^ (w - b); lev2 = m.lev2 * 2 ^ b })
unfolding Multiplies
two_levels w b m h =
    omega (arith, ap (λ (t : ℕ). m.sense_amp * m.lev1 * m.lev2 * t) (pow-split w b h))

three_levels :
    (w b : ℕ) (m : Muxes)
    → b + b ≤ w
    → Multiplies w m (record {
      sense_amp = m.sense_amp * 2 ^ (w - b - b);
      lev1 = m.lev1 * 2 ^ b;
      lev2 = m.lev2 * 2 ^ b;
    })
unfolding Multiplies
three_levels w b m h =
    let p = m.sense_amp * m.lev1 * m.lev2 in
    omega (
      arith,
      ap (λ (t : ℕ). p * t) (pow-split w b (omega arith)),
      ap (λ (t : ℕ). p * t * 2 ^ b) (pow-split (w - b) b (omega arith)),
    )

-- DRAM and eDRAM use two levels, and the other cells three.
extra_muxes-Multiplies :
    (t : MemCellType) (w : ℕ) (m m' : Muxes) → extra_muxes t (2 ^ w) m ≡ ok m' → Multiplies w m m'
unfolding extra_muxes
extra_muxes-Multiplies dram w m m' h =
    let e = rw (log2_int-pow w, quotient-pow w (w / 2) (omega arith)) at h in
    subst (Multiplies w m) (ok-injective e) (two_levels w (w / 2) m (omega arith))
extra_muxes-Multiplies edram w m m' h =
    let e = rw (log2_int-pow w, quotient-pow w (w / 2) (omega arith)) at h in
    subst (Multiplies w m) (ok-injective e) (two_levels w (w / 2) m (omega arith))
extra_muxes-Multiplies _ w m m' h =
    let e =
      rw
        (
          log2_int-pow w,
          quotient-pow w (w / 3) (omega arith),
          quotient-pow (w - w / 3) (w / 3) (omega arith),
        )
        at h in
    subst (Multiplies w m) (ok-injective e) (three_levels w (w / 3) m (omega arith))

-- Whatever the cell, if 2^w ways share a row, the mux degree of the mat is the given one times 2^w.
pub way_muxes-product :
    (t : MemCellType) (w : ℕ) (m m' : Muxes)
    → way_muxes t (2 ^ w) m ≡ ok m'
    → mux_product m' ≡ mux_product m * 2 ^ w
unfolding way_muxes
way_muxes-product t w m m' h = elim (Bool-cases (ltb 1 (2 ^ w))) [
  | inl more ↦ unfold Multiplies in extra_muxes-Multiplies t w m m' (rw more at h)
  | inr one ↦
      let e = rw one at h in
      let same : m ≡ m' = ok-injective e in
      let single : 2 ^ w ≡ 1 = ground (arith, pow-pos w) in rw (single, ← same) (omega arith)
]
