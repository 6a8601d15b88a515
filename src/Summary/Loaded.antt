-- ===== src/Summary/Loaded.antt =====
-- When the rows of an application CSV file are loaded, and what the samples are then.
use interspec_typed_allocato.Prelude.{
  ◌≡◌, ◌↔◌, refl, ap, ◌∙◌, subst, Bool, true, Option, some, List, [], ◌∷◌, Text, codes, missing_key,
  bad_number, unexpected_schema, Result, ok, err, ◌>>◌, require, from_option, >>=-eq-ok,
  require-eq-ok, from_option-eq-ok,
}
use interspec_typed_allocato.Prelude.Integers.{ℤ}
use interspec_typed_allocato.Summary.{Sample, lookup}
use interspec_typed_allocato.Summary.Load.{
  CsvRow, column, has_schema, application_columns, parse_rows, application_sample, load_application,
}

module _ (read_int : Text → Option ℤ) where
  -- The column of a row, read as an integer.
  pub record HasInt (row : CsvRow) (name : Text) (n : ℤ) : Type 0 where
    pub text : Text
    pub there : lookup name row ≡ some text
    pub reads : read_int text ≡ some n

  -- The sample has the workload and the mode of the row, and its two numbers.
  pub record IsRead (row : CsvRow) (s : Sample ℤ) : Type 0 where
    pub workload_is : lookup (codes "workload") row ≡ some s.workload
    pub mode_is : lookup (codes "mode") row ≡ some s.mode
    pub repetition_is : HasInt row (codes "repetition") s.repetition
    pub value_is : HasInt row (codes "total_ns") s.value

  -- The samples of the rows, in their order.
  abbrev pub AllRead : List CsvRow → List (Sample ℤ) → Type 0
  AllRead [] [] = Unit
  AllRead (row ∷ rows) (s ∷ samples) = IsRead row s × AllRead rows samples
  AllRead _ _ = ⊥

  column-there :
      (row : CsvRow) (name : Text) {text : Text}
      → column row name ≡ ok text
      → lookup name row ≡ some text
  column-there row name h = from_option-eq-ok (missing_key name) (lookup name row) h

  int-reads :
      (text : Text) {n : ℤ}
      → from_option (bad_number text) (read_int text) ≡ ok n
      → read_int text ≡ some n
  int-reads text h = from_option-eq-ok (bad_number text) (read_int text) h

  sample_injective : {s t : Sample ℤ} → ok s ≡ ok t → s ≡ t
  sample_injective {s} h = ap (λ (r : Result (Sample ℤ)). elim r [ ok a ↦ a | err _ ↦ s ]) h

  application_sample-IsRead :
      (row : CsvRow) {s : Sample ℤ} → application_sample read_int row ≡ ok s → IsRead row s
  unfolding application_sample
  application_sample-IsRead row h =
      let (workload, w, h₁) = >>=-eq-ok (column row (codes "workload")) _ h in
      let (mode, m, h₂) = >>=-eq-ok (column row (codes "mode")) _ h₁ in
      let (r_text, r, h₃) = >>=-eq-ok (column row (codes "repetition")) _ h₂ in
      let (repetition, i, h₄) =
        >>=-eq-ok (from_option (bad_number r_text) (read_int r_text)) _ h₃ in
      let (t_text, t, h₅) = >>=-eq-ok (column row (codes "total_ns")) _ h₄ in
      let (total, j, h₆) = >>=-eq-ok (from_option (bad_number t_text) (read_int t_text)) _ h₅ in
      subst (IsRead row) (sample_injective h₆) (record {
        workload_is = column-there row (codes "workload") w;
        mode_is = column-there row (codes "mode") m;
        repetition_is = record {
          text = r_text;
          there = column-there row (codes "repetition") r;
          reads = int-reads r_text i;
        };
        value_is = record {
          text = t_text;
          there = column-there row (codes "total_ns") t;
          reads = int-reads t_text j;
        };
      })

  IsRead-application_sample :
      (row : CsvRow) (s : Sample ℤ) → IsRead row s → application_sample read_int row ≡ ok s
  unfolding application_sample
  IsRead-application_sample row s h =
      rw
        (
          h.workload_is, h.mode_is, h.repetition_is.there, h.repetition_is.reads, h.value_is.there,
          h.value_is.reads,
        )
        refl

  list_injective : {x y : List (Sample ℤ)} → ok x ≡ ok y → x ≡ y
  list_injective {x} h = ap (λ (r : Result (List (Sample ℤ))). elim r [ ok a ↦ a | err _ ↦ x ]) h

  parse_rows-AllRead :
      (rows : List CsvRow) {samples : List (Sample ℤ)}
      → parse_rows (application_sample read_int) rows ≡ ok samples
      → AllRead rows samples
  unfolding parse_rows
  parse_rows-AllRead [] h = subst (AllRead []) (list_injective h) tt
  parse_rows-AllRead (row ∷ rows) h =
      let (first, e, h₁) = >>=-eq-ok (application_sample read_int row) _ h in
      let (rest, e', h₂) = >>=-eq-ok (parse_rows (application_sample read_int) rows) _ h₁ in
      subst (AllRead (row ∷ rows)) (list_injective h₂)
        (application_sample-IsRead row e, parse_rows-AllRead rows e')

  AllRead-parse_rows :
      (rows : List CsvRow) (samples : List (Sample ℤ))
      → AllRead rows samples
      → parse_rows (application_sample read_int) rows ≡ ok samples
  unfolding parse_rows
  AllRead-parse_rows [] [] h = refl
  AllRead-parse_rows [] (s ∷ samples) h = absurd h
  AllRead-parse_rows (row ∷ rows) [] h = absurd h
  AllRead-parse_rows (row ∷ rows) (s ∷ samples) (first, rest) =
      rw (IsRead-application_sample row s first) (rw (AllRead-parse_rows rows samples rest) refl)

  -- The rows of an application file are loaded exactly if there are some, the first one has the four
  -- columns and no other, and the two numbers of every row are integers. There is then one sample for
  -- each row, in their order, with the row's workload, mode and numbers.
  pub load_application-ok_iff :
      (rows : List CsvRow) (samples : List (Sample ℤ))
      → (load_application read_int rows ≡ ok samples)
        ↔ ((has_schema application_columns rows ≡ true) × AllRead rows samples)
  unfolding load_application
  load_application-ok_iff rows samples = (
    λ h.
        let (t, h₁) =
          require-eq-ok (has_schema application_columns rows) unexpected_schema
            (parse_rows (application_sample read_int) rows) h in
        (t, parse_rows-AllRead rows h₁),
    λ (t, h).
        ap
          (λ (b : Bool).
            require b unexpected_schema >> parse_rows (application_sample read_int) rows)
          t
        ∙ AllRead-parse_rows rows samples h,
  )
