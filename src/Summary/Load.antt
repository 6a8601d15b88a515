-- ===== src/Summary/Load.antt =====
-- `load` of tools/summarize_p9a_application.py and tools/summarize_p8_application.py, `load_samples` of
-- tools/summarize_p8_performance.py and `load_security_csv` of tools/build_p8_report.py, on the rows
-- that `csv.DictReader` gives.
use interspec_typed_allocato.Prelude.{
  Bool, false, Option, List, [], ◌∷◌, Text, codes, same, missing_key, bad_number, unexpected_schema,
  no_security_cases, Result, ok, ◌>>=◌, ◌>>◌, require, from_option,
}
use interspec_typed_allocato.Prelude.Integers.{ℤ}
use interspec_typed_allocato.Summary.{Sample, has_any, keys, same_set, lookup}

-- A row with its columns.
abbrev pub CsvRow : Type 0
CsvRow = List (Text × Text)

abbrev pub column : CsvRow → Text → Result Text
column row name = from_option (missing_key name) (lookup name row)

-- There are rows, and the first one has these columns and no other.
abbrev pub has_schema : List Text → List CsvRow → Bool
has_schema required [] = false
has_schema required (row ∷ rows) = same_set (keys row) required

abbrev pub application_columns : List Text
application_columns = codes "workload" ∷ codes "mode" ∷ codes "repetition" ∷ codes "total_ns" ∷ []

abbrev pub performance_columns : List Text
performance_columns =
    codes "boundary"
    ∷ codes "mode"
    ∷ codes "repetition"
    ∷ codes "iterations"
    ∷ codes "total_ns"
    ∷ codes "ns_per_op"
    ∷ []

abbrev pub security_columns : List Text
security_columns = codes "case" ∷ codes "expected" ∷ codes "actual" ∷ codes "result" ∷ []

module _ {Value : Type 0} (parse : CsvRow → Result (Sample Value)) where
  unfoldable pub parse_rows : List CsvRow → Result (List (Sample Value))
  parse_rows [] = ok []
  parse_rows (row ∷ rows) = do first ← parse row; rest ← parse_rows rows; ok (first ∷ rest)

module _ (read_int : Text → Option ℤ) where
  abbrev int_of : Text → Result ℤ
  int_of text = from_option (bad_number text) (read_int text)

  unfoldable pub application_sample : CsvRow → Result (Sample ℤ)
  unfolding lookup
  application_sample row = do
    workload ← column row (codes "workload")
    mode ← column row (codes "mode")
    repetition_text ← column row (codes "repetition")
    repetition ← int_of repetition_text
    total_text ← column row (codes "total_ns")
    total ← int_of total_text
    ok (record { workload = workload; mode = mode; repetition = repetition; value = total })

  unfoldable pub load_application : List CsvRow → Result (List (Sample ℤ))
  unfolding same parse_rows application_sample
  load_application rows = do
    require (has_schema application_columns rows) unexpected_schema
    parse_rows application_sample rows

  module _ {Float : Type 0} (read_float : Text → Option Float) where
    abbrev float_of : Text → Result Float
    float_of text = from_option (bad_number text) (read_float text)

    -- `iterations` and `total_ns` are read, and used by no summary.
    unfoldable pub performance_sample : CsvRow → Result (Sample Float)
    unfolding lookup
    performance_sample row = do
      workload ← column row (codes "boundary")
      mode ← column row (codes "mode")
      repetition_text ← column row (codes "repetition")
      repetition ← int_of repetition_text
      iterations_text ← column row (codes "iterations")
      iterations ← int_of iterations_text
      total_text ← column row (codes "total_ns")
      total ← int_of total_text
      value_text ← column row (codes "ns_per_op")
      value ← float_of value_text
      ok (record { workload = workload; mode = mode; repetition = repetition; value = value })

    unfoldable pub load_samples : List CsvRow → Result (List (Sample Float))
    unfolding same parse_rows performance_sample
    load_samples rows = do
      require (has_schema performance_columns rows) unexpected_schema
      parse_rows performance_sample rows

-- The rows themselves, once there are some and their columns are right.
unfoldable pub load_security : List CsvRow → Result (List CsvRow)
unfolding same
load_security rows = do
  require (has_any rows) no_security_cases
  require (has_schema security_columns rows) unexpected_schema
  ok rows
