-- ===== src/Summary/Pairs.antt =====
-- `summarize` of tools/summarize_p8_application.py and of tools/summarize_p8_performance.py.
use interspec_typed_allocato.Prelude.{
  ℕ, true, false, ◌&&◌, List, [], ◌∷◌, map, Text, same, filter, length, missing_key, missing_mode,
  incomplete_group, Result, ok, ◌>>=◌, ◌>>◌, require, from_option,
}
use interspec_typed_allocato.Prelude.Integers.{ℤ}
use interspec_typed_allocato.Sites.{sorted_set}
use interspec_typed_allocato.Summary.{
  Arithmetic, Sample, has_any, ModeValues, Group, Collected, keys, same_set, lookup, values_of,
  collect, percent_over, map_result, workloads,
}
use interspec_typed_allocato.Summary.Application.{tracked_no_check, extended_sp3, Spread, spread_of}

abbrev pub pair_modes : List Text
pair_modes = tracked_no_check ∷ extended_sp3 ∷ []

-- A row of either summary; the times are in milliseconds in the one and in nanoseconds in the other.
pub record PairRow (Float : Type 0) : Type 0 where
  pub workload : Text
  pub repetitions : ℕ
  pub baseline_median : Float
  pub extended_median : Float
  pub baseline_mean : Float
  pub extended_mean : Float
  pub paired_overhead : Spread Float

module _ {V Float : Type 0} (arithmetic : Arithmetic V Float) where
  -- The overheads of a workload, in the order in which the pairs were begun.
  unfoldable pub pair_overheads : Text → List (Group V) → Result (List Float)
  unfolding lookup percent_over
  pair_overheads workload [] = ok []
  pair_overheads workload (g ∷ groups) = elim (same g.workload workload) [
    | false ↦ pair_overheads workload groups
    | true ↦
        require (same_set (keys g.values) pair_modes) (incomplete_group workload)
        >> (from_option (missing_key extended_sp3) (lookup extended_sp3 g.values) >>= λ extended.
            from_option (missing_key tracked_no_check) (lookup tracked_no_check g.values)
            >>= λ baseline. percent_over arithmetic extended baseline >>= λ percent.
                pair_overheads workload groups >>= λ rest. ok (percent ∷ rest))
  ]

module _ {Float : Type 0} (arithmetic : Arithmetic ℤ Float) where
  unfoldable pub application_row : Collected ℤ → Text → Result (PairRow Float)
  unfolding values_of pair_overheads
  application_row collected workload = do
    let baseline = values_of workload tracked_no_check collected.by_mode
    let extended = values_of workload extended_sp3 collected.by_mode
    require (has_any baseline && has_any extended) (missing_mode workload)
    overheads ← pair_overheads arithmetic workload collected.groups
    ok (record {
      workload = workload;
      repetitions = length overheads;
      baseline_median = arithmetic.per (arithmetic.median_of baseline) arithmetic.million;
      extended_median = arithmetic.per (arithmetic.median_of extended) arithmetic.million;
      baseline_mean = arithmetic.per (arithmetic.mean_of baseline) arithmetic.million;
      extended_mean = arithmetic.per (arithmetic.mean_of extended) arithmetic.million;
      paired_overhead = spread_of arithmetic overheads;
    })

  unfoldable pub summarize_application : List (Sample ℤ) → Result (List (PairRow Float))
  unfolding collect sorted_set map_result application_row
  summarize_application samples = do
    collected ← collect pair_modes samples
    map_result (application_row collected) (workloads samples)

-- The modes under which a workload has samples.
abbrev pub modes_of : {V : Type 0} → Text → List (ModeValues V) → List Text
modes_of {V} workload entries =
    map (λ (e : ModeValues V). e.mode)
      (filter (λ (e : ModeValues V). same e.workload workload) entries)

module _ {Float : Type 0} (arithmetic : Arithmetic Float Float) where
  unfoldable pub performance_row : Collected Float → Text → Result (PairRow Float)
  unfolding values_of pair_overheads
  performance_row collected workload = do
    require (same_set (modes_of workload collected.by_mode) pair_modes) (missing_mode workload)
    let baseline = values_of workload tracked_no_check collected.by_mode
    let extended = values_of workload extended_sp3 collected.by_mode
    overheads ← pair_overheads arithmetic workload collected.groups
    ok (record {
      workload = workload;
      repetitions = length overheads;
      baseline_median = arithmetic.median_of baseline;
      extended_median = arithmetic.median_of extended;
      baseline_mean = arithmetic.mean_of baseline;
      extended_mean = arithmetic.mean_of extended;
      paired_overhead = spread_of arithmetic overheads;
    })

  unfoldable pub summarize_performance : List (Sample Float) → Result (List (PairRow Float))
  unfolding collect sorted_set map_result performance_row
  summarize_performance samples = do
    collected ← collect pair_modes samples
    map_result (performance_row collected) (workloads samples)
