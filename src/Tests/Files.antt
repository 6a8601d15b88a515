-- ===== src/Tests/Files.antt =====
-- The summaries of two small files.
use interspec_typed_allocato.Prelude.{
  ◌-◌, true, Option, none, some, ◌≡◌, refl, List, [], ◌∷◌, map, sort_by, Text, codes, All, Result,
  ok, err,
}
use interspec_typed_allocato.Prelude.Integers.{ℤ, pos}
use interspec_typed_allocato.Summary.{Sample, Collected, workloads}
use interspec_typed_allocato.Summary.Application.{modes, Row}
use interspec_typed_allocato.Summary.Pairs.{pair_modes, PairRow}
use interspec_typed_allocato.Summary.Tables.{IsCollected}
use interspec_typed_allocato.Summary.Groups.{IsGrouped}
use interspec_typed_allocato.Summary.Overheads.{IsRow}
use interspec_typed_allocato.Summary.Load.{CsvRow, has_schema, application_columns}
use interspec_typed_allocato.Summary.Loaded.{AllRead}
use interspec_typed_allocato.Summary.Files.{
  summary_of, application_summary_of, IsPairRow, summary_of-IsRow, application_summary_of-IsPairRow,
}
use interspec_typed_allocato.Tests.Summaries.{integers}

abbrev digit_of : Text → Option ℤ
digit_of [] = none
digit_of (c ∷ []) = some (pos (c - b'0'))
digit_of _ = none

abbrev csv_row : Text → Text → CsvRow
csv_row mode time =
    (codes "workload", codes "popt")
    ∷ (codes "mode", mode)
    ∷ (codes "repetition", codes "1")
    ∷ (codes "total_ns", time)
    ∷ []

abbrev two_modes : List CsvRow
two_modes =
    csv_row (codes "extended_sp3") (codes "9") ∷ csv_row (codes "tracked_no_check") (codes "8") ∷ []

abbrev three_modes : List CsvRow
three_modes = csv_row (codes "rlbox_only") (codes "7") ∷ two_modes

abbrev table_of : {A : Type 0} → Result (List A) → List A
table_of r = elim r [ ok rows ↦ rows | err _ ↦ [] ]

summary_ok :
    summary_of integers digit_of three_modes
    ≡ ok (table_of (summary_of integers digit_of three_modes))
unfolding summary_of sort_by
summary_ok = refl

summary_of-IsRow_example :
    (has_schema application_columns three_modes ≡ true)
    × (samples : List (Sample ℤ)) × AllRead digit_of three_modes samples
    × (collected : Collected ℤ) × IsCollected modes samples collected
    × IsGrouped samples collected.groups
    × All (IsRow integers samples collected) (table_of (summary_of integers digit_of three_modes))
    × (map (λ (row : Row ℤ). row.workload) (table_of (summary_of integers digit_of three_modes))
        ≡ workloads samples)
summary_of-IsRow_example = summary_of-IsRow integers digit_of three_modes summary_ok

application_summary_ok :
    application_summary_of integers digit_of two_modes
    ≡ ok (table_of (application_summary_of integers digit_of two_modes))
unfolding application_summary_of
application_summary_ok = refl

application_summary_of-IsPairRow_example :
    (has_schema application_columns two_modes ≡ true)
    × (samples : List (Sample ℤ)) × AllRead digit_of two_modes samples
    × (collected : Collected ℤ) × IsCollected pair_modes samples collected
    × IsGrouped samples collected.groups
    × All
        (IsPairRow integers samples collected)
        (table_of (application_summary_of integers digit_of two_modes))
    × (map
          (λ (row : PairRow ℤ). row.workload)
          (table_of (application_summary_of integers digit_of two_modes))
        ≡ workloads samples)
application_summary_of-IsPairRow_example =
    application_summary_of-IsPairRow integers digit_of two_modes application_summary_ok
