-- ===== src/Result/Csv/Lines.antt =====
-- How many columns and how many lines the CSV file gets.
use destiny_3d_cache.Prelude.{
  ◌^◌, true, false, List, [], ◌∷◌, ◌++◌, ◌≡◌, arith, All, All-append, Bool-cases, inl, inr,
}
use destiny_3d_cache.Double.{Double, ◌⊕◌, ◌⊗◌, of_int}
use destiny_3d_cache.TypeDef.{DesignTarget, cache, ram_chip, cam_chip, CacheAccessMode}
use destiny_3d_cache.Text.{Text}
use destiny_3d_cache.Text.Columns.{
  write_columns, commas, IsColumn, commas-append, commas-write_columns,
}
use destiny_3d_cache.Result.{Result}
use destiny_3d_cache.Result.Csv.{
  Report, is_cache_line, swept_columns, array_columns, print_to_csv_file, cache_columns,
  combined_columns, print_as_cache_to_csv_file, cache_lines, lines_of, output_to_file,
}
use destiny_3d_cache.Result.Csv.Words.{print_optimization_target}
use destiny_3d_cache.Result.Csv.Headers.{csv_header}
use destiny_3d_cache.Result.Csv.Columns.{array-AllColumns, swept-AllColumns, cache-AllColumns}

module _ {D : Type 0} ⦃d : Double D⦄ (g : Report D) where
  array-commas :
      ((x : D) → IsColumn (g.print_double x))
      → (r : Result D) → commas (print_to_csv_file g false r) ≡ 42
  unfolding print_to_csv_file
  array-commas dbl r = commas-write_columns (array_columns g r) (array-AllColumns g dbl r)

  ram-commas :
      ((x : D) → IsColumn (g.print_double x))
      → (r : Result D) → commas (print_to_csv_file g true r) ≡ 51
  unfolding print_to_csv_file
  ram-commas dbl r =
      let swept = swept_columns g (print_optimization_target r.optimization_target) in
      commas-write_columns (swept ++ array_columns g r) (
        All-append IsColumn swept (array_columns g r) (swept-AllColumns g dbl r.optimization_target)
          (array-AllColumns g dbl r))

  abbrev front_columns : CacheAccessMode → Result D → Result D → List Text
  front_columns m r t =
      swept_columns g (print_optimization_target r.optimization_target) ++ cache_columns g m r t

  front-commas :
      ((x : D) → IsColumn (g.print_double x))
      → (m : CacheAccessMode) (r t : Result D) → commas (write_columns (front_columns m r t)) ≡ 21
  front-commas dbl m r t =
      let swept = swept_columns g (print_optimization_target r.optimization_target) in
      commas-write_columns (front_columns m r t) (
        All-append IsColumn swept (cache_columns g m r t)
          (swept-AllColumns g dbl r.optimization_target) (cache-AllColumns g dbl m r t))

  combined-commas :
      ((x : D) → IsColumn (g.print_double x))
      → (r t : Result D) → commas (combined_columns g r t) ≡ 1
  combined-commas dbl r t =
      let leakage = (g.units r.bank).subarray.leakage ⊕ (g.units t.bank).subarray.leakage in
      let area =
        ((g.units r.bank).subarray.area ⊕ (g.units t.bank).subarray.area) ⊗ of_int (10 ^ 6) in
      let first = (dbl leakage).has_no_comma in
      let second = (dbl area).has_no_comma in
      omega
        (arith, commas-append (g.print_double leakage) (b',' ∷ g.print_double area), first, second)

  cache-commas :
      ((x : D) → IsColumn (g.print_double x))
      → (m : CacheAccessMode) (t r : Result D)
      → All (λ line. commas line ≡ 106) (print_as_cache_to_csv_file g t m r)
  unfolding print_as_cache_to_csv_file
  cache-commas dbl m t r = elim (Bool-cases (is_cache_line r.bank.memory_type t.bank.memory_type)) [
    | inl valid ↦
        let front = write_columns (front_columns m r t) in
        let one = print_to_csv_file g false r in
        let two = print_to_csv_file g false t in
        let last = combined_columns g r t in
        let total : commas (front ++ (one ++ (two ++ last))) ≡ 106 = omega (
          arith,
          commas-append front (one ++ (two ++ last)),
          commas-append one (two ++ last),
          commas-append two last,
          front-commas dbl m r t,
          array-commas dbl r,
          array-commas dbl t,
          combined-commas dbl r t,
        ) in
        rw valid (total, tt)
    | inr other ↦ rw other tt
  ]

  lines-commas :
      ((x : D) → IsColumn (g.print_double x))
      → (tags : List (Result D)) (r : Result D)
      → All (λ line. commas line ≡ 106) (cache_lines g tags r)
  lines-commas dbl [] r = tt
  lines-commas dbl (t ∷ ts) r =
      let m = g.input_parameter.cache_access_mode in
      All-append (λ line. commas line ≡ 106) (print_as_cache_to_csv_file g t m r)
        (cache_lines g ts r) (cache-commas dbl m t r) (lines-commas dbl ts r)

  lines_of-commas :
      ((x : D) → IsColumn (g.print_double x))
      → (target : DesignTarget) (tags : List (Result D)) (r : Result D)
      → All (λ line. commas line ≡ commas (csv_header target)) (lines_of g target tags r)
  unfolding csv_header
  lines_of-commas dbl cache tags r = lines-commas dbl tags r
  lines_of-commas dbl ram_chip tags r = (ram-commas dbl r, tt)
  lines_of-commas dbl cam_chip tags r = (ram-commas dbl r, tt)

  -- If a printed number has no comma then every line that is written for a design, of a cache or of
  -- another memory, has as many commas as the header line of the CSV file.
  pub output_to_file-commas :
      ((x : D) → IsColumn (g.print_double x))
      → (tags : List (Result D)) (r : Result D)
      → All
          (λ line. commas line ≡ commas (csv_header g.input_parameter.design_target))
          (output_to_file g tags r)
  unfolding output_to_file
  output_to_file-commas dbl tags r = lines_of-commas dbl g.input_parameter.design_target tags r
