-- ===== src/Page.antt =====
-- The pages of results: tools/render_p9a_results.py and tools/render_p8_results.py.
pub mod P9aTexts
pub mod P8Texts
pub mod P9a
pub mod P8
pub mod Selected
pub mod Table
use interspec_typed_allocato.Prelude.{
  ℕ, Option, none, some, List, [], ◌∷◌, ◌++◌, Text, codes, missing_key, bad_number, Result, ok, err,
  ◌>>=◌, from_option,
}
use interspec_typed_allocato.Prelude.Integers.{ℤ}

-- A row of a CSV file with its header: the cells by the names of their columns.
abbrev pub Row : Type 0
Row = Text → Option Text

abbrev pub cell : Row → Text → Result Text
cell row name = from_option (missing_key name) (row name)

-- Python's numbers: `float` and `int` of a text, with no value where they raise, and
-- `f"{value:.{digits}f}"`.
pub record Numbers (F : Type 0) : Type 0 where
  pub read_float : Text → Option F
  pub read_int : Text → Option ℤ
  pub fixed : F → ℕ → Text
  pub minus : F → F → F
  pub times_100 : F → F

-- What the page says of the evaluation.
pub record Facts (F : Type 0) : Type 0 where
  pub passed : ℤ
  pub case_count : ℤ
  pub boundary_count : ℤ
  pub inferred_allocation_sites : ℤ
  pub integration_helper_sites : ℤ
  pub source_derived_fraction : F
  pub adversarial_helper_sites_excluded : ℤ

module _ {F : Type 0} (numbers : Numbers F) where
  abbrev pub float : Text → Result F
  float value = from_option (bad_number value) (numbers.read_float value)

  abbrev pub int : Text → Result ℤ
  int value = from_option (bad_number value) (numbers.read_int value)

  unfoldable pub num : Text → ℕ → Result Text
  num value digits = do number ← float value; ok (numbers.fixed number digits)

  unfoldable pub pct : Text → Result Text
  pct value = do number ← float value; ok (numbers.fixed number 1 ++ codes "%")

-- A line for each row.
unfoldable pub line_for : (Row → Result Text) → List Row → Result (List Text)
line_for line [] = ok []
line_for line (row ∷ rows) = do first ← line row; rest ← line_for line rows; ok (first ∷ rest)

-- `| a | b |`
unfoldable pub cells_line : List Text → Text
cells_line [] = codes "|"
cells_line (text ∷ cells) = codes "| " ++ (text ++ (b' ' ∷ cells_line cells))
