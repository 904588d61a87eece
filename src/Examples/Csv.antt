-- ===== src/Examples/Csv.antt =====
-- The lines of the CSV file for a small cache.
use destiny_3d_cache.Prelude.{◌≡◌, refl, true, none, List, [], ◌∷◌, All, length}
use destiny_3d_cache.Double.Whole.{Whole, whole_double}
use destiny_3d_cache.TypeDef.{cache, data_array, tag}
use destiny_3d_cache.Text.{codes, starts_with}
use destiny_3d_cache.Text.Columns.{commas, plain-IsColumn}
use destiny_3d_cache.Bank.{Bank}
use destiny_3d_cache.Result.{Result}
use destiny_3d_cache.Result.Csv.{Report, output_to_file}
use destiny_3d_cache.Result.Csv.Headers.{csv_header}
use destiny_3d_cache.Result.Csv.Lines.{output_to_file-commas}
use destiny_3d_cache.Nvsim.Explore.{temp_result}
use destiny_3d_cache.Nvsim.Rows.{solution_multiplier, output_to_file-temp_result}
use destiny_3d_cache.Examples.{parameter, simulator, globals, start_result, bank_of_rows}
use destiny_3d_cache.Examples.Files.{cell}

-- Every number is printed as 1.5.
abbrev report : Report Whole
report = record {
  print_double = λ x. codes "1.5";
  units = λ b. record { mat = b.unit; subarray = b.unit; column_decoder_latency = b.area };
  feature_size = none;
  input_parameter = record parameter { design_target = cache };
  cell = cell;
}

abbrev data_bank : Bank Whole
data_bank = record (bank_of_rows 4) { memory_type = data_array }

abbrev tag_result : Result Whole
tag_result = record start_result { bank = record (bank_of_rows 2) { memory_type = tag } }

abbrev tags : List (Result Whole)
tags =
    tag_result ∷ tag_result ∷ tag_result ∷ tag_result ∷ tag_result ∷ tag_result ∷ tag_result
    ∷ tag_result ∷ []

commas_example :
    All
      (λ line. commas line ≡ commas (csv_header report.input_parameter.design_target))
      (output_to_file report tags (temp_result simulator parameter globals data_bank))
commas_example =
    output_to_file-commas report (λ x. plain-IsColumn refl) tags
      (temp_result simulator parameter globals data_bank)

temp_result_example :
    (length (output_to_file report tags (temp_result simulator parameter globals data_bank))
      ≡ solution_multiplier report.input_parameter.design_target)
    × All
        (λ line. starts_with (codes "Read Latency,") line ≡ true)
        (output_to_file report tags (temp_result simulator parameter globals data_bank))
temp_result_example =
    output_to_file-temp_result report simulator parameter globals data_bank tags refl
      (refl, (refl, (refl, (refl, (refl, (refl, (refl, (refl, tt)))))))) refl
