-- ===== src/Summary/Application.antt =====
-- `overhead` and `summarize` of tools/summarize_p9a_application.py.
use interspec_typed_allocato.Prelude.{
  ℕ, Bool, true, false, ◌&&◌, List, [], ◌∷◌, map, Text, codes, same, length, sort_by, text_lt, ◌==◌,
  ◌||◌, if◌then◌else◌, missing_key, missing_mode, incomplete_group, no_groups,
  duplicate_repetitions, non_positive_sample, Result, ok, ◌>>=◌, ◌>>◌, require, from_option,
}
use interspec_typed_allocato.Prelude.Integers.{ℤ, pos, ltb_ℤ}
use interspec_typed_allocato.Sites.{sorted_set}
use interspec_typed_allocato.Summary.{
  Arithmetic, Sample, has_any, same_ℤ, Group, Collected, keys, same_set, lookup, values_of, collect,
  percent_over, map_result, workloads,
}

abbrev pub rlbox_only : Text
rlbox_only = codes "rlbox_only"

abbrev pub tracked_no_check : Text
tracked_no_check = codes "tracked_no_check"

abbrev pub extended_sp3 : Text
extended_sp3 = codes "extended_sp3"

abbrev pub modes : List Text
modes = rlbox_only ∷ tracked_no_check ∷ extended_sp3 ∷ []

-- The overheads of one repetition.
pub record Triple (Float : Type 0) : Type 0 where
  pub repetition : ℤ
  pub tracking : Float
  pub validation : Float
  pub total : Float

pub record Times (Float : Type 0) : Type 0 where
  pub median_ms : Float
  pub mean_ms : Float

pub record Spread (Float : Type 0) : Type 0 where
  pub median_pct : Float
  pub mean_pct : Float
  pub min_pct : Float
  pub max_pct : Float

pub record Row (Float : Type 0) : Type 0 where
  pub workload : Text
  pub repetitions : ℕ
  pub rlbox : Times Float
  pub tracked : Times Float
  pub extended : Times Float
  pub tracking_overhead : Spread Float
  pub validation_overhead : Spread Float
  pub total_overhead : Spread Float

-- The order of the keys of `triples`.
abbrev pub group_lt : {V : Type 0} → Group V → Group V → Bool
group_lt a b =
    text_lt a.workload b.workload || (same a.workload b.workload && ltb_ℤ a.repetition b.repetition)

abbrev pub holds_ℤ : List ℤ → ℤ → Bool
holds_ℤ [] n = false
holds_ℤ (m ∷ ms) n = same_ℤ m n || holds_ℤ ms n

-- A list of the members of `set(ns)`.
unfoldable pub distinct_ℤ : List ℤ → List ℤ
distinct_ℤ [] = []
distinct_ℤ (n ∷ ns) = let rest = distinct_ℤ ns in if holds_ℤ ns n then rest else n ∷ rest

abbrev pub spread_of : {V Float : Type 0} → Arithmetic V Float → List Float → Spread Float
spread_of arithmetic values = record {
  median_pct = arithmetic.median values;
  mean_pct = arithmetic.mean values;
  min_pct = arithmetic.least values;
  max_pct = arithmetic.greatest values;
}

module _ {Float : Type 0} (arithmetic : Arithmetic ℤ Float) where
  unfoldable pub overhead : ℤ → ℤ → Result Float
  unfolding percent_over
  overhead numerator denominator = do
    require (ltb_ℤ (pos 0) denominator) non_positive_sample
    percent_over arithmetic numerator denominator

  unfoldable pub triple_of : Group ℤ → Result (Triple Float)
  unfolding overhead lookup
  triple_of g = do
    require (same_set (keys g.values) modes) (incomplete_group g.workload)
    rlbox ← from_option (missing_key rlbox_only) (lookup rlbox_only g.values)
    tracked ← from_option (missing_key tracked_no_check) (lookup tracked_no_check g.values)
    extended ← from_option (missing_key extended_sp3) (lookup extended_sp3 g.values)
    tracking ← overhead tracked rlbox
    validation ← overhead extended tracked
    total ← overhead extended rlbox
    ok (record {
      repetition = g.repetition;
      tracking = tracking;
      validation = validation;
      total = total;
    })

  unfoldable pub triples_of : Text → List (Group ℤ) → Result (List (Triple Float))
  unfolding triple_of
  triples_of workload [] = ok []
  triples_of workload (g ∷ groups) = elim (same g.workload workload) [
    | false ↦ triples_of workload groups
    | true ↦ triple_of g >>= λ triple. triples_of workload groups >>= λ rest. ok (triple ∷ rest)
  ]

  abbrev pub times_of : List ℤ → Times Float
  times_of values = record {
    median_ms = arithmetic.per (arithmetic.median_of values) arithmetic.million;
    mean_ms = arithmetic.per (arithmetic.mean_of values) arithmetic.million;
  }

  unfoldable pub row_of : Collected ℤ → Text → Result (Row Float)
  unfolding values_of triples_of distinct_ℤ
  row_of collected workload = do
    let rlbox = values_of workload rlbox_only collected.by_mode
    let tracked = values_of workload tracked_no_check collected.by_mode
    let extended = values_of workload extended_sp3 collected.by_mode
    require (has_any rlbox && has_any tracked && has_any extended) (missing_mode workload)
    triples ← triples_of workload (sort_by group_lt collected.groups)
    let repetitions = map (λ (t : Triple Float). t.repetition) triples
    require (has_any triples) (no_groups workload)
    require (length (distinct_ℤ repetitions) == length repetitions) (duplicate_repetitions workload)
    ok (record {
      workload = workload;
      repetitions = length repetitions;
      rlbox = times_of rlbox;
      tracked = times_of tracked;
      extended = times_of extended;
      tracking_overhead = spread_of arithmetic (map (λ (t : Triple Float). t.tracking) triples);
      validation_overhead = spread_of arithmetic (map (λ (t : Triple Float). t.validation) triples);
      total_overhead = spread_of arithmetic (map (λ (t : Triple Float). t.total) triples);
    })

  unfoldable pub summarize : List (Sample ℤ) → Result (List (Row Float))
  unfolding collect sorted_set map_result row_of
  summarize samples = do
    collected ← collect modes samples
    map_result (row_of collected) (workloads samples)
