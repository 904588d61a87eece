-- ===== src/Nvsim/Rows.antt =====
-- main.cpp and macros.h: the lines of the CSV file for a design of the exhaustive search.
use destiny_3d_cache.Prelude.{
  ℕ, true, List, [], ◌∷◌, ◌≡◌, refl, arith, All, All-append, length, length-append,
}
use destiny_3d_cache.Double.{Double}
use destiny_3d_cache.TypeDef.{DesignTarget, cache, ram_chip, cam_chip, data_array, tag}
use destiny_3d_cache.Text.{Text, codes, starts_with}
use destiny_3d_cache.Bank.{Bank}
use destiny_3d_cache.InputParameter.{InputParameter}
use destiny_3d_cache.Result.{Result, new_result}
use destiny_3d_cache.Result.Csv.{
  Report, print_to_csv_file, print_as_cache_to_csv_file, cache_lines, lines_of, output_to_file,
}
use destiny_3d_cache.Nvsim.{Simulator, Globals}
use destiny_3d_cache.Nvsim.Explore.{temp_result}

-- How many lines `main` counts for a solution
abbrev pub solution_multiplier : DesignTarget → ℕ
solution_multiplier cache = 8
solution_multiplier _ = 1

abbrev StartsWithReadLatency : Text → Type 0
StartsWithReadLatency line = starts_with (codes "Read Latency,") line ≡ true

module _ {D : Type 0} ⦃d : Double D⦄ (g : Report D) (sim : Simulator D) (p : InputParameter D) where
  -- A cache of two such arrays has one line.
  cache_line-length :
      (r t : Result D)
      → r.bank.memory_type ≡ data_array
      → t.bank.memory_type ≡ tag
      → length (print_as_cache_to_csv_file g t g.input_parameter.cache_access_mode r) ≡ 1
  unfolding print_as_cache_to_csv_file
  cache_line-length r t e h = rw (e, h) refl

  cache_lines-length :
      (r : Result D) (tags : List (Result D))
      → r.bank.memory_type ≡ data_array
      → All (λ (t : Result D). t.bank.memory_type ≡ tag) tags
      → length (cache_lines g tags r) ≡ length tags
  cache_lines-length r [] e h = refl
  cache_lines-length r (t ∷ ts) e (here, later) =
      let line = print_as_cache_to_csv_file g t g.input_parameter.cache_access_mode r in
      omega (
        arith,
        length-append line (cache_lines g ts r),
        cache_line-length r t e here,
        cache_lines-length r ts e later,
      )

  lines_of-length :
      (target : DesignTarget) (r : Result D) (tags : List (Result D))
      → r.bank.memory_type ≡ data_array
      → All (λ (t : Result D). t.bank.memory_type ≡ tag) tags
      → length tags ≡ 8
      → length (lines_of g target tags r) ≡ solution_multiplier target
  lines_of-length cache r tags e h eight = omega (arith, cache_lines-length r tags e h, eight)
  lines_of-length ram_chip r tags e h eight = refl
  lines_of-length cam_chip r tags e h eight = refl

  cache_line-start :
      (s : Globals D) (bank : Bank D) (t : Result D)
      → bank.memory_type ≡ data_array
      → t.bank.memory_type ≡ tag
      → All StartsWithReadLatency (
          print_as_cache_to_csv_file g t g.input_parameter.cache_access_mode
            (temp_result sim p s bank))
  unfolding print_as_cache_to_csv_file new_result
  cache_line-start s bank t e h = rw (e, h) (refl, tt)

  cache_lines-start :
      (s : Globals D) (bank : Bank D) (tags : List (Result D))
      → bank.memory_type ≡ data_array
      → All (λ (t : Result D). t.bank.memory_type ≡ tag) tags
      → All StartsWithReadLatency (cache_lines g tags (temp_result sim p s bank))
  cache_lines-start s bank [] e h = tt
  cache_lines-start s bank (t ∷ ts) e (here, later) =
      All-append StartsWithReadLatency
        (print_as_cache_to_csv_file g t g.input_parameter.cache_access_mode
          (temp_result sim p s bank))
        (cache_lines g ts (temp_result sim p s bank)) (cache_line-start s bank t e here)
        (cache_lines-start s bank ts e later)

  lines_of-start :
      (target : DesignTarget) (s : Globals D) (bank : Bank D) (tags : List (Result D))
      → bank.memory_type ≡ data_array
      → All (λ (t : Result D). t.bank.memory_type ≡ tag) tags
      → All StartsWithReadLatency (lines_of g target tags (temp_result sim p s bank))
  unfolding print_to_csv_file new_result
  lines_of-start cache s bank tags e h = cache_lines-start s bank tags e h
  lines_of-start ram_chip s bank tags e h = (refl, tt)
  lines_of-start cam_chip s bank tags e h = (refl, tt)

  -- For a data array, and tag arrays kept for the eight optimization targets, the exhaustive search
  -- writes as many lines as `main` counts for a solution, and each of them names the read latency as
  -- the optimization target, also the lines with the tag arrays of the other targets.
  pub output_to_file-temp_result :
      (s : Globals D) (bank : Bank D) (tags : List (Result D))
      → bank.memory_type ≡ data_array
      → All (λ (t : Result D). t.bank.memory_type ≡ tag) tags
      → length tags ≡ 8
      → (length (output_to_file g tags (temp_result sim p s bank))
          ≡ solution_multiplier g.input_parameter.design_target)
        × All StartsWithReadLatency (output_to_file g tags (temp_result sim p s bank))
  unfolding output_to_file
  output_to_file-temp_result s bank tags e h eight = (
    lines_of-length g.input_parameter.design_target (temp_result sim p s bank) tags e h eight,
    lines_of-start g.input_parameter.design_target s bank tags e h,
  )
