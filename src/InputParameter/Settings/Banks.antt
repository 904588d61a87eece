-- ===== src/InputParameter/Settings/Banks.antt =====
-- The lines with several numbers are read as what they set.
use destiny_3d_cache.Prelude.{ℕ, ◌<◌, refl, Option, [], ◌∷◌, ◌++◌}
use destiny_3d_cache.Text.{Text, codes}
use destiny_3d_cache.Text.Scan.{int_bound}
use destiny_3d_cache.Text.Rules.{Reading, run_rules}
use destiny_3d_cache.Text.Decimal.{decimal_then, scan_number-decimal_then, skip_spaces-decimal_then}
use destiny_3d_cache.InputParameter.{InputParameter}
use destiny_3d_cache.InputParameter.Settings.{
  ArrayKind, of_data, of_tag, force_bank_3da, force_bank_3d, force_bank_a, force_mat_a, force_bank,
  force_mat,
}
use destiny_3d_cache.InputParameter.Settings.Reads.{ReadsAs}

module _ {D : Type 0} (strtod : Text → Option D) (r : Reading (InputParameter D)) where
  pub force_bank_3da-ReadsAs :
      (r' c l : ℕ)
      → (r' < int_bound) × (c < int_bound) × (l < int_bound)
      → ReadsAs strtod r (force_bank_3da r' c l)
  unfolding run_rules
  force_bank_3da-ReadsAs r' c l h = (
    r.tmp,
    rw
        (
          skip_spaces-decimal_then r' (b'x' ∷ decimal_then c (b'x' ∷ decimal_then l ([]))),
          scan_number-decimal_then int_bound r' (b'x' ∷ decimal_then c (b'x' ∷ decimal_then l ([])))
              (h.0) refl,
          scan_number-decimal_then int_bound c (b'x' ∷ decimal_then l ([])) (h.1) refl,
          scan_number-decimal_then int_bound l ([]) (h.2) refl,
        )
        refl,
  )

  pub force_bank_3d-ReadsAs :
      (r' c l y x : ℕ)
      → (r' < int_bound) × (c < int_bound) × (l < int_bound) × (y < int_bound) × (x < int_bound)
      → ReadsAs strtod r (force_bank_3d r' c l y x)
  unfolding run_rules
  force_bank_3d-ReadsAs r' c l y x h = (
    r.tmp,
    rw
        (
          skip_spaces-decimal_then r' (
              b'x'
              ∷ decimal_then c (
                  b'x'
                  ∷ decimal_then l (codes ", " ++ decimal_then y (b'x' ∷ decimal_then x ([]))))),
          scan_number-decimal_then int_bound r'
              (b'x'
                ∷ decimal_then c (
                    b'x'
                    ∷ decimal_then l (codes ", " ++ decimal_then y (b'x' ∷ decimal_then x ([])))))
              (h.0) refl,
          scan_number-decimal_then int_bound c
              (b'x' ∷ decimal_then l (codes ", " ++ decimal_then y (b'x' ∷ decimal_then x ([]))))
              (h.1) refl,
          scan_number-decimal_then int_bound l
              (codes ", " ++ decimal_then y (b'x' ∷ decimal_then x ([]))) (h.2) refl,
          skip_spaces-decimal_then y (b'x' ∷ decimal_then x ([])),
          scan_number-decimal_then int_bound y (b'x' ∷ decimal_then x ([])) (h.3) refl,
          scan_number-decimal_then int_bound x ([]) (h.4) refl,
        )
        refl,
  )

  pub force_bank_a-ReadsAs :
      (r' c : ℕ) → (r' < int_bound) × (c < int_bound) → ReadsAs strtod r (force_bank_a r' c)
  unfolding run_rules
  force_bank_a-ReadsAs r' c h = (
    r.tmp,
    rw
        (
          skip_spaces-decimal_then r' (b'x' ∷ decimal_then c ([])),
          scan_number-decimal_then int_bound r' (b'x' ∷ decimal_then c ([])) (h.0) refl,
          scan_number-decimal_then int_bound c ([]) (h.1) refl,
        )
        refl,
  )

  pub force_mat_a-ReadsAs :
      (r' c : ℕ) → (r' < int_bound) × (c < int_bound) → ReadsAs strtod r (force_mat_a r' c)
  unfolding run_rules
  force_mat_a-ReadsAs r' c h = (
    r.tmp,
    rw
        (
          skip_spaces-decimal_then r' (b'x' ∷ decimal_then c ([])),
          scan_number-decimal_then int_bound r' (b'x' ∷ decimal_then c ([])) (h.0) refl,
          scan_number-decimal_then int_bound c ([]) (h.1) refl,
        )
        refl,
  )

  pub force_bank-ReadsAs :
      (a : ArrayKind) (r' c y x : ℕ)
      → (r' < int_bound) × (c < int_bound) × (y < int_bound) × (x < int_bound)
      → ReadsAs strtod r (force_bank a r' c y x)
  unfolding run_rules
  force_bank-ReadsAs of_data r' c y x h = (
    r.tmp,
    rw
        (
          skip_spaces-decimal_then r'
              (b'x' ∷ decimal_then c (codes ", " ++ decimal_then y (b'x' ∷ decimal_then x ([])))),
          scan_number-decimal_then int_bound r'
              (b'x' ∷ decimal_then c (codes ", " ++ decimal_then y (b'x' ∷ decimal_then x ([]))))
              (h.0) refl,
          scan_number-decimal_then int_bound c
              (codes ", " ++ decimal_then y (b'x' ∷ decimal_then x ([]))) (h.1) refl,
          skip_spaces-decimal_then y (b'x' ∷ decimal_then x ([])),
          scan_number-decimal_then int_bound y (b'x' ∷ decimal_then x ([])) (h.2) refl,
          scan_number-decimal_then int_bound x ([]) (h.3) refl,
        )
        refl,
  )
  force_bank-ReadsAs of_tag r' c y x h = (
    r.tmp,
    rw
        (
          skip_spaces-decimal_then r'
              (b'x' ∷ decimal_then c (codes ", " ++ decimal_then y (b'x' ∷ decimal_then x ([])))),
          scan_number-decimal_then int_bound r'
              (b'x' ∷ decimal_then c (codes ", " ++ decimal_then y (b'x' ∷ decimal_then x ([]))))
              (h.0) refl,
          scan_number-decimal_then int_bound c
              (codes ", " ++ decimal_then y (b'x' ∷ decimal_then x ([]))) (h.1) refl,
          skip_spaces-decimal_then y (b'x' ∷ decimal_then x ([])),
          scan_number-decimal_then int_bound y (b'x' ∷ decimal_then x ([])) (h.2) refl,
          scan_number-decimal_then int_bound x ([]) (h.3) refl,
        )
        refl,
  )

  pub force_mat-ReadsAs :
      (a : ArrayKind) (r' c y x : ℕ)
      → (r' < int_bound) × (c < int_bound) × (y < int_bound) × (x < int_bound)
      → ReadsAs strtod r (force_mat a r' c y x)
  unfolding run_rules
  force_mat-ReadsAs of_data r' c y x h = (
    r.tmp,
    rw
        (
          skip_spaces-decimal_then r'
              (b'x' ∷ decimal_then c (codes ", " ++ decimal_then y (b'x' ∷ decimal_then x ([])))),
          scan_number-decimal_then int_bound r'
              (b'x' ∷ decimal_then c (codes ", " ++ decimal_then y (b'x' ∷ decimal_then x ([]))))
              (h.0) refl,
          scan_number-decimal_then int_bound c
              (codes ", " ++ decimal_then y (b'x' ∷ decimal_then x ([]))) (h.1) refl,
          skip_spaces-decimal_then y (b'x' ∷ decimal_then x ([])),
          scan_number-decimal_then int_bound y (b'x' ∷ decimal_then x ([])) (h.2) refl,
          scan_number-decimal_then int_bound x ([]) (h.3) refl,
        )
        refl,
  )
  force_mat-ReadsAs of_tag r' c y x h = (
    r.tmp,
    rw
        (
          skip_spaces-decimal_then r'
              (b'x' ∷ decimal_then c (codes ", " ++ decimal_then y (b'x' ∷ decimal_then x ([])))),
          scan_number-decimal_then int_bound r'
              (b'x' ∷ decimal_then c (codes ", " ++ decimal_then y (b'x' ∷ decimal_then x ([]))))
              (h.0) refl,
          scan_number-decimal_then int_bound c
              (codes ", " ++ decimal_then y (b'x' ∷ decimal_then x ([]))) (h.1) refl,
          skip_spaces-decimal_then y (b'x' ∷ decimal_then x ([])),
          scan_number-decimal_then int_bound y (b'x' ∷ decimal_then x ([])) (h.2) refl,
          scan_number-decimal_then int_bound x ([]) (h.3) refl,
        )
        refl,
  )
