-- ===== src/Summary/Files.antt =====
-- The summaries of application files: `load` and `summarize` as `main` puts them together.
use interspec_typed_allocato.Prelude.{
  suc, ◌≡◌, refl, sym, ap, ap₂, subst, true, inl, inr, Option, some, List, [], ◌∷◌, map, Text, same,
  filter, length, All, Bool-cases, missing_mode, incomplete_group, missing_key, Result, ok, err,
  ◌>>=◌, from_option, require-eq-ok, >>=-eq-ok, from_option-eq-ok,
}
use interspec_typed_allocato.Prelude.Integers.{ℤ}
use interspec_typed_allocato.Summary.{
  Arithmetic, Sample, Group, Collected, keys, same_set, lookup, collect, percent_over, map_result,
  workloads,
}
use interspec_typed_allocato.Summary.Application.{
  tracked_no_check, extended_sp3, modes, Row, summarize,
}
use interspec_typed_allocato.Summary.Pairs.{
  pair_modes, PairRow, pair_overheads, application_row, summarize_application,
}
use interspec_typed_allocato.Summary.Tables.{sampled, IsCollected}
use interspec_typed_allocato.Summary.Loop.{collect-IsCollected}
use interspec_typed_allocato.Summary.Groups.{IsGrouped, collect-IsGrouped}
use interspec_typed_allocato.Summary.Overheads.{
  IsOver, percent_over-IsOver, IsSpread, spread_of-IsSpread, IsRow, summarize-IsRow,
}
use interspec_typed_allocato.Summary.Load.{
  CsvRow, has_schema, application_columns, load_application,
}
use interspec_typed_allocato.Summary.Loaded.{AllRead, load_application-ok_iff}

-- A repetition with a sample of each of the two modes, and by how many percent the one with the checks
-- is over the one without.
pub record IsPair {V Float : Type 0} (arithmetic : Arithmetic V Float) (g : Group V)
    (percent : Float) : Type 0 where
  pub modes_are : same_set (keys g.values) pair_modes ≡ true
  pub extended : V
  pub baseline : V
  pub extended_is : lookup extended_sp3 g.values ≡ some extended
  pub baseline_is : lookup tracked_no_check g.values ≡ some baseline
  pub over : IsOver arithmetic extended baseline percent

-- The repetitions of a workload, in the order in which they were begun.
abbrev pub pairs_of : {V : Type 0} → Text → List (Group V) → List (Group V)
pairs_of {V} workload groups = filter (λ (g : Group V). same g.workload workload) groups

ok-injective : {A : Type 0} {x y : A} → ok x ≡ ok y → x ≡ y
ok-injective {A} {x} h = ap (λ (r : Result A). elim r [ ok a ↦ a | err _ ↦ x ]) h

module _ {V Float : Type 0} (arithmetic : Arithmetic V Float) where
  -- The overheads of the repetitions, one after the other.
  abbrev pub AllPairs : List (Group V) → List Float → Type 0
  AllPairs [] overheads = overheads ≡ []
  AllPairs (g ∷ groups) [] = ⊥
  AllPairs (g ∷ groups) (percent ∷ overheads) =
      IsPair arithmetic g percent × AllPairs groups overheads

  pair_overheads-IsPair :
      (workload : Text) (groups : List (Group V)) {overheads : List Float}
      → pair_overheads arithmetic workload groups ≡ ok overheads
      → AllPairs (pairs_of workload groups) overheads
        × (length overheads ≡ length (pairs_of workload groups))
  unfolding pair_overheads
  pair_overheads-IsPair workload [] h = (sym (ok-injective h), ap length (sym (ok-injective h)))
  pair_overheads-IsPair workload (g ∷ groups) h = elim (Bool-cases (same g.workload workload)) [
    | inr n ↦ rw (n, filter) (pair_overheads-IsPair workload groups (rw (n, pair_overheads) at h))
    | inl y ↦
        let (m, h₁) =
          require-eq-ok (same_set (keys g.values) pair_modes) (incomplete_group workload) _
            (rw (y, pair_overheads) at h) in
        let (extended, e, h₂) =
          >>=-eq-ok (from_option (missing_key extended_sp3) (lookup extended_sp3 g.values)) _ h₁ in
        let (baseline, b, h₃) =
          >>=-eq-ok (from_option (missing_key tracked_no_check) (lookup tracked_no_check g.values))
            _ h₂ in
        let (percent, p, h₄) = >>=-eq-ok (percent_over arithmetic extended baseline) _ h₃ in
        let (rest, more, h₅) = >>=-eq-ok (pair_overheads arithmetic workload groups) _ h₄ in
        let (all, count) = pair_overheads-IsPair workload groups more in
        let pair : IsPair arithmetic g percent = record {
          modes_are = m;
          extended = extended;
          baseline = baseline;
          extended_is = from_option-eq-ok _ _ e;
          baseline_is = from_option-eq-ok _ _ b;
          over = percent_over-IsOver arithmetic extended baseline p;
        } in
        rw (y, filter)
          (subst
            (λ (os : List Float).
              AllPairs (g ∷ pairs_of workload groups) os
              × (length os ≡ suc (length (pairs_of workload groups))))
            (ok-injective h₅) ((pair, all), ap suc count))
  ]

module _ {Float : Type 0} (arithmetic : Arithmetic ℤ Float) where
  -- The times without and with the checks, in milliseconds.
  abbrev pub in_ms : Float → Float
  in_ms time = arithmetic.per time arithmetic.million

  -- A row is about all repetitions of its workload, each of them complete. Its times are those of the
  -- samples of each mode, and its overheads are those of the repetitions.
  pub record IsPairRow (samples : List (Sample ℤ)) (collected : Collected ℤ) (row : PairRow Float)
      : Type 0 where
    pub overheads : List Float
    pub complete : AllPairs arithmetic (pairs_of row.workload collected.groups) overheads
    pub repetitions_are : row.repetitions ≡ length (pairs_of row.workload collected.groups)
    pub baseline_median_is :
        row.baseline_median
        ≡ in_ms (arithmetic.median_of (sampled row.workload tracked_no_check samples))
    pub extended_median_is :
        row.extended_median
        ≡ in_ms (arithmetic.median_of (sampled row.workload extended_sp3 samples))
    pub baseline_mean_is :
        row.baseline_mean
        ≡ in_ms (arithmetic.mean_of (sampled row.workload tracked_no_check samples))
    pub extended_mean_is :
        row.extended_mean ≡ in_ms (arithmetic.mean_of (sampled row.workload extended_sp3 samples))
    pub overhead_is : IsSpread arithmetic overheads row.paired_overhead

  application_row-IsPairRow :
      (samples : List (Sample ℤ)) (collected : Collected ℤ) (workload : Text) {row : PairRow Float}
      → IsCollected pair_modes samples collected
      → application_row arithmetic collected workload ≡ ok row
      → IsPairRow samples collected row × (row.workload ≡ workload)
  unfolding application_row
  application_row-IsPairRow samples collected workload is h =
      let (_, h₁) = require-eq-ok _ (missing_mode workload) _ h in
      let (overheads, o, h₂) =
        >>=-eq-ok (pair_overheads arithmetic workload collected.groups) _ h₁ in
      let (all, count) = pair_overheads-IsPair arithmetic workload collected.groups o in
      subst (λ (row : PairRow Float). IsPairRow samples collected row × (row.workload ≡ workload))
        (ok-injective h₂)
        (
          record {
            overheads = overheads;
            complete = all;
            repetitions_are = count;
            baseline_median_is =
                ap (λ vs. in_ms (arithmetic.median_of vs))
                  (is.by_mode_is workload tracked_no_check);
            extended_median_is =
                ap (λ vs. in_ms (arithmetic.median_of vs)) (is.by_mode_is workload extended_sp3);
            baseline_mean_is =
                ap (λ vs. in_ms (arithmetic.mean_of vs)) (is.by_mode_is workload tracked_no_check);
            extended_mean_is =
                ap (λ vs. in_ms (arithmetic.mean_of vs)) (is.by_mode_is workload extended_sp3);
            overhead_is = spread_of-IsSpread arithmetic overheads;
          },
          refl,
        )

  pair_rows-IsPairRow :
      (samples : List (Sample ℤ)) (collected : Collected ℤ) (names : List Text)
      {rows : List (PairRow Float)}
      → IsCollected pair_modes samples collected
      → map_result (application_row arithmetic collected) names ≡ ok rows
      → All (IsPairRow samples collected) rows
        × (map (λ (row : PairRow Float). row.workload) rows ≡ names)
  unfolding map_result
  pair_rows-IsPairRow samples collected [] c h =
      subst
        (λ rows.
          All (IsPairRow samples collected) rows
          × (map (λ (row : PairRow Float). row.workload) rows ≡ []))
        (ok-injective h) (tt, refl)
  pair_rows-IsPairRow samples collected (name ∷ names) c h =
      let (row, r, h₁) = >>=-eq-ok (application_row arithmetic collected name) _ h in
      let (rest, more, h₂) =
        >>=-eq-ok (map_result (application_row arithmetic collected) names) _ h₁ in
      let (is, named) = application_row-IsPairRow samples collected name c r in
      let (all, names_are) = pair_rows-IsPairRow samples collected names c more in
      subst
        (λ rows.
          All (IsPairRow samples collected) rows
          × (map (λ (row : PairRow Float). row.workload) rows ≡ name ∷ names))
        (ok-injective h₂) ((is, all), ap₂ (◌∷◌) named names_are)

-- `summarize(load(…))` of tools/summarize_p9a_application.py and of tools/summarize_p8_application.py.
module _ {Float : Type 0} (arithmetic : Arithmetic ℤ Float) (read_int : Text → Option ℤ) where
  unfoldable pub summary_of : List CsvRow → Result (List (Row Float))
  unfolding load_application summarize
  summary_of rows = do samples ← load_application read_int rows; summarize arithmetic samples

  unfoldable pub application_summary_of : List CsvRow → Result (List (PairRow Float))
  unfolding load_application summarize_application
  application_summary_of rows = do
    samples ← load_application read_int rows
    summarize_application arithmetic samples

  -- A summary of a P9a file succeeds only where the file has rows, the four columns and integers
  -- for numbers. The samples are then those of the rows, and the dictionaries hold exactly the
  -- samples, without a repetition; a repetition of a workload is one entry, of its own samples.
  -- There is one row for each workload, in the order of the names, and each row is about all
  -- repetitions of its workload: there is one, each has a sample of each of the three modes and no
  -- other, and what is divided by is positive. The times of a row are the medians and means of the
  -- samples of the workload under each mode, and its three overheads are the figures of the
  -- percentages by which, in each repetition, tracking is over the bare sandbox, the checks are
  -- over tracking, and the checks are over the bare sandbox.
  pub summary_of-IsRow :
      (rows : List CsvRow) {table : List (Row Float)}
      → summary_of rows ≡ ok table
      → (has_schema application_columns rows ≡ true)
        × (samples : List (Sample ℤ)) × AllRead read_int rows samples
        × (collected : Collected ℤ) × IsCollected modes samples collected
        × IsGrouped samples collected.groups
        × All (IsRow arithmetic samples collected) table
        × (map (λ (row : Row Float). row.workload) table ≡ workloads samples)
  unfolding summary_of
  summary_of-IsRow rows h =
      let (samples, l, h₁) = >>=-eq-ok (load_application read_int rows) _ h in
      let (schema, read) = (load_application-ok_iff read_int rows samples).0 l in
      let (collected, c, grouped, all, names) = summarize-IsRow arithmetic samples h₁ in
      (schema, samples, read, collected, c, grouped, all, names)

  -- A summary of a P8 application file succeeds only where the file has rows, the four columns and
  -- integers for numbers. The samples are then those of the rows, and the dictionaries hold exactly
  -- the samples, without a repetition; a repetition of a workload is one entry, of its own samples.
  -- There is one row for each workload, in the order of the names, and each row is about all
  -- repetitions of its workload: each has a sample of each of the two modes and no other, and their
  -- quotient exists. The times of a row are the medians and means of the samples of the workload
  -- under each mode, and its overhead is the figures of the percentages by which, in each
  -- repetition, the run with the checks is over the one without.
  pub application_summary_of-IsPairRow :
      (rows : List CsvRow) {table : List (PairRow Float)}
      → application_summary_of rows ≡ ok table
      → (has_schema application_columns rows ≡ true)
        × (samples : List (Sample ℤ)) × AllRead read_int rows samples
        × (collected : Collected ℤ) × IsCollected pair_modes samples collected
        × IsGrouped samples collected.groups
        × All (IsPairRow arithmetic samples collected) table
        × (map (λ (row : PairRow Float). row.workload) table ≡ workloads samples)
  unfolding application_summary_of summarize_application
  application_summary_of-IsPairRow rows h =
      let (samples, l, h₁) = >>=-eq-ok (load_application read_int rows) _ h in
      let (schema, read) = (load_application-ok_iff read_int rows samples).0 l in
      let (collected, c, h₂) = >>=-eq-ok (collect pair_modes samples) _ h₁ in
      let is = collect-IsCollected pair_modes samples c in
      let (all, names) =
        pair_rows-IsPairRow arithmetic samples collected (workloads samples) is h₂ in
      (schema, samples, read, collected, is, collect-IsGrouped pair_modes samples c is, all, names)
