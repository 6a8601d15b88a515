-- ===== src/Summary/Overheads.antt =====
-- What `summarize` of tools/summarize_p9a_application.py reports.
use interspec_typed_allocato.Prelude.{
  suc, ◌<◌, ◌≡◌, refl, sym, ap, ap₂, ◌∙◌, subst, true, inl, inr, some, List, [], ◌∷◌, map, arith,
  Text, same, filter, length, length-map, All, sort_by, Bool-cases, missing_mode, no_groups,
  duplicate_repetitions, incomplete_group, missing_key, non_positive_sample, zero_division, Result,
  ok, err, from_option, require-eq-ok, >>=-eq-ok, from_option-eq-ok,
}
use interspec_typed_allocato.Prelude.Integers.{ℤ, pos, ltb_ℤ}
use interspec_typed_allocato.Summary.{
  Arithmetic, Sample, has_any, Group, Collected, keys, same_set, lookup, collect, percent_over,
  map_result, workloads,
}
use interspec_typed_allocato.Summary.Application.{
  rlbox_only, tracked_no_check, extended_sp3, modes, Triple, Times, Spread, Row, times_of,
  spread_of, group_lt, overhead, triple_of, triples_of, row_of, summarize,
}
use interspec_typed_allocato.Summary.Tables.{sampled, IsCollected}
use interspec_typed_allocato.Summary.Loop.{collect-IsCollected}
use interspec_typed_allocato.Summary.Groups.{IsGrouped, collect-IsGrouped}

ok-injective : {A : Type 0} {x y : A} → ok x ≡ ok y → x ≡ y
ok-injective {A} {x} h = ap (λ (r : Result A). elim r [ ok a ↦ a | err _ ↦ x ]) h

-- By how many percent one number is over another.
pub record IsOver {V Float : Type 0} (arithmetic : Arithmetic V Float) (numerator denominator : V)
    (percent : Float) : Type 0 where
  pub ratio : Float
  pub ratio_is : arithmetic.quotient numerator denominator ≡ some ratio
  pub percent_is :
      percent ≡ arithmetic.times (arithmetic.minus ratio arithmetic.one) arithmetic.hundred

pub percent_over-IsOver :
    {V Float : Type 0} (arithmetic : Arithmetic V Float) (numerator denominator : V)
    {percent : Float}
    → percent_over arithmetic numerator denominator ≡ ok percent
    → IsOver arithmetic numerator denominator percent
unfolding percent_over
percent_over-IsOver arithmetic numerator denominator h =
    let (ratio, q, h₁) =
      >>=-eq-ok (from_option zero_division (arithmetic.quotient numerator denominator)) _ h in
    record { ratio = ratio; ratio_is = from_option-eq-ok _ _ q; percent_is = sym (ok-injective h₁) }

-- The figures of a list of percentages, and of a list of times in nanoseconds.
pub record IsSpread {V Float : Type 0} (arithmetic : Arithmetic V Float) (values : List Float)
    (spread : Spread Float) : Type 0 where
  pub median_is : spread.median_pct ≡ arithmetic.median values
  pub mean_is : spread.mean_pct ≡ arithmetic.mean values
  pub min_is : spread.min_pct ≡ arithmetic.least values
  pub max_is : spread.max_pct ≡ arithmetic.greatest values

pub record IsTimes {Float : Type 0} (arithmetic : Arithmetic ℤ Float) (values : List ℤ)
    (times : Times Float) : Type 0 where
  pub median_is : times.median_ms ≡ arithmetic.per (arithmetic.median_of values) arithmetic.million
  pub mean_is : times.mean_ms ≡ arithmetic.per (arithmetic.mean_of values) arithmetic.million

-- A repetition with a sample of each mode and positive divisors, and its three overheads: that of
-- tracking over the bare sandbox, of validation over tracking, and of both over the bare sandbox.
pub record IsTriple {Float : Type 0} (arithmetic : Arithmetic ℤ Float) (g : Group ℤ)
    (triple : Triple Float) : Type 0 where
  pub modes_are : same_set (keys g.values) modes ≡ true
  pub rlbox : ℤ
  pub tracked : ℤ
  pub extended : ℤ
  pub rlbox_is : lookup rlbox_only g.values ≡ some rlbox
  pub tracked_is : lookup tracked_no_check g.values ≡ some tracked
  pub extended_is : lookup extended_sp3 g.values ≡ some extended
  pub rlbox_positive : ltb_ℤ (pos 0) rlbox ≡ true
  pub tracked_positive : ltb_ℤ (pos 0) tracked ≡ true
  pub repetition_is : triple.repetition ≡ g.repetition
  pub tracking_is : IsOver arithmetic tracked rlbox triple.tracking
  pub validation_is : IsOver arithmetic extended tracked triple.validation
  pub total_is : IsOver arithmetic extended rlbox triple.total

-- The repetitions of a workload.
abbrev pub repetitions_of : Text → List (Group ℤ) → List (Group ℤ)
repetitions_of workload groups = filter (λ (g : Group ℤ). same g.workload workload) groups

module _ {Float : Type 0} (arithmetic : Arithmetic ℤ Float) where
  overhead-IsOver :
      (numerator denominator : ℤ) {percent : Float}
      → overhead arithmetic numerator denominator ≡ ok percent
      → (ltb_ℤ (pos 0) denominator ≡ true) × IsOver arithmetic numerator denominator percent
  unfolding overhead
  overhead-IsOver numerator denominator h =
      let (p, h₁) = require-eq-ok (ltb_ℤ (pos 0) denominator) non_positive_sample _ h in
      (p, percent_over-IsOver arithmetic numerator denominator h₁)

  triple_of-IsTriple :
      (g : Group ℤ) {triple : Triple Float}
      → triple_of arithmetic g ≡ ok triple
      → IsTriple arithmetic g triple
  unfolding triple_of
  triple_of-IsTriple g h =
      let (m, h₁) =
        require-eq-ok (same_set (keys g.values) modes) (incomplete_group g.workload) _ h in
      let (rlbox, r, h₂) =
        >>=-eq-ok (from_option (missing_key rlbox_only) (lookup rlbox_only g.values)) _ h₁ in
      let (tracked, t, h₃) =
        >>=-eq-ok (from_option (missing_key tracked_no_check) (lookup tracked_no_check g.values)) _
          h₂ in
      let (extended, x, h₄) =
        >>=-eq-ok (from_option (missing_key extended_sp3) (lookup extended_sp3 g.values)) _ h₃ in
      let (tracking, a, h₅) = >>=-eq-ok (overhead arithmetic tracked rlbox) _ h₄ in
      let (validation, b, h₆) = >>=-eq-ok (overhead arithmetic extended tracked) _ h₅ in
      let (total, c, h₇) = >>=-eq-ok (overhead arithmetic extended rlbox) _ h₆ in
      let (rlbox_positive, tracking_is) = overhead-IsOver tracked rlbox a in
      let (tracked_positive, validation_is) = overhead-IsOver extended tracked b in
      subst (IsTriple arithmetic g) (ok-injective h₇) (record {
        modes_are = m;
        rlbox = rlbox;
        tracked = tracked;
        rlbox_is = from_option-eq-ok _ _ r;
        tracked_is = from_option-eq-ok _ _ t;
        extended = extended;
        extended_is = from_option-eq-ok _ _ x;
        rlbox_positive = rlbox_positive;
        tracked_positive = tracked_positive;
        repetition_is = refl;
        tracking_is = tracking_is;
        validation_is = validation_is;
        total_is = (overhead-IsOver extended rlbox c).1;
      })

  -- The overheads of the repetitions, one after the other.
  abbrev pub AllTriples : List (Group ℤ) → List (Triple Float) → Type 0
  AllTriples [] triples = triples ≡ []
  AllTriples (g ∷ groups) [] = ⊥
  AllTriples (g ∷ groups) (t ∷ triples) = IsTriple arithmetic g t × AllTriples groups triples

  triples_of-IsTriple :
      (workload : Text) (groups : List (Group ℤ)) {triples : List (Triple Float)}
      → triples_of arithmetic workload groups ≡ ok triples
      → AllTriples (repetitions_of workload groups) triples
        × (length triples ≡ length (repetitions_of workload groups))
  unfolding triples_of
  triples_of-IsTriple workload [] h = (sym (ok-injective h), ap length (sym (ok-injective h)))
  triples_of-IsTriple workload (g ∷ groups) h = elim (Bool-cases (same g.workload workload)) [
    | inr n ↦ rw (n, filter) (triples_of-IsTriple workload groups (rw (n, triples_of) at h))
    | inl y ↦
        let (triple, t, h₁) = >>=-eq-ok (triple_of arithmetic g) _ (rw (y, triples_of) at h) in
        let (rest, more, h₂) = >>=-eq-ok (triples_of arithmetic workload groups) _ h₁ in
        let (all, count) = triples_of-IsTriple workload groups more in
        rw (y, filter)
          (subst
            (λ (ts : List (Triple Float)).
              AllTriples (g ∷ repetitions_of workload groups) ts
              × (length ts ≡ suc (length (repetitions_of workload groups))))
            (ok-injective h₂) ((triple_of-IsTriple g t, all), ap suc count))
  ]

  -- A row is about all repetitions of its workload, each of them complete, and there is one. Its times
  -- are those of the samples of each mode, and its overheads are those of the repetitions.
  pub record IsRow (samples : List (Sample ℤ)) (collected : Collected ℤ) (row : Row Float)
      : Type 0 where
    pub triples : List (Triple Float)
    pub complete :
        AllTriples (repetitions_of row.workload (sort_by group_lt collected.groups)) triples
    pub repetitions_are :
        row.repetitions ≡ length (repetitions_of row.workload (sort_by group_lt collected.groups))
    pub has_repetitions : 0 < row.repetitions
    pub rlbox_is : IsTimes arithmetic (sampled row.workload rlbox_only samples) row.rlbox
    pub tracked_is : IsTimes arithmetic (sampled row.workload tracked_no_check samples) row.tracked
    pub extended_is : IsTimes arithmetic (sampled row.workload extended_sp3 samples) row.extended
    pub tracking_is :
        IsSpread arithmetic (map (λ (t : Triple Float). t.tracking) triples) row.tracking_overhead
    pub validation_is :
        IsSpread arithmetic
          (map (λ (t : Triple Float). t.validation) triples)
          row.validation_overhead
    pub total_is :
        IsSpread arithmetic (map (λ (t : Triple Float). t.total) triples) row.total_overhead

  times_of-IsTimes :
      {values other : List ℤ}
      → values ≡ other
      → IsTimes arithmetic other (times_of arithmetic values)
  times_of-IsTimes e = record {
    median_is = ap (λ vs. arithmetic.per (arithmetic.median_of vs) arithmetic.million) e;
    mean_is = ap (λ vs. arithmetic.per (arithmetic.mean_of vs) arithmetic.million) e;
  }

  pub spread_of-IsSpread :
      (values : List Float) → IsSpread arithmetic values (spread_of arithmetic values)
  spread_of-IsSpread values = record {
    median_is = refl;
    mean_is = refl;
    min_is = refl;
    max_is = refl;
  }

  row_of-IsRow :
      (samples : List (Sample ℤ)) (collected : Collected ℤ) (workload : Text) {row : Row Float}
      → IsCollected modes samples collected
      → row_of arithmetic collected workload ≡ ok row
      → IsRow samples collected row × (row.workload ≡ workload)
  unfolding row_of
  row_of-IsRow samples collected workload is h =
      let (_, h₁) = require-eq-ok _ (missing_mode workload) _ h in
      let (triples, t, h₂) =
        >>=-eq-ok (triples_of arithmetic workload (sort_by group_lt collected.groups)) _ h₁ in
      let (n, h₃) = require-eq-ok (has_any triples) (no_groups workload) _ h₂ in
      let (_, h₄) = require-eq-ok _ (duplicate_repetitions workload) _ h₃ in
      let (all, count) = triples_of-IsTriple workload (sort_by group_lt collected.groups) t in
      let counted = length-map (λ (t : Triple Float). t.repetition) triples in
      subst (λ (row : Row Float). IsRow samples collected row × (row.workload ≡ workload))
        (ok-injective h₄)
        (
          record {
            triples = triples;
            complete = all;
            repetitions_are = counted ∙ count;
            has_repetitions = subst (λ k. 0 < k) (sym counted) (filled triples n);
            rlbox_is = times_of-IsTimes (is.by_mode_is workload rlbox_only);
            tracked_is = times_of-IsTimes (is.by_mode_is workload tracked_no_check);
            extended_is = times_of-IsTimes (is.by_mode_is workload extended_sp3);
            tracking_is = spread_of-IsSpread _;
            validation_is = spread_of-IsSpread _;
            total_is = spread_of-IsSpread _;
          },
          refl,
        )
    where
      filled : (ts : List (Triple Float)) → has_any ts ≡ true → 0 < length ts
      filled [] e = cc
      filled (t ∷ ts) e = omega arith

  rows-IsRow :
      (samples : List (Sample ℤ)) (collected : Collected ℤ) (names : List Text)
      {rows : List (Row Float)}
      → IsCollected modes samples collected
      → map_result (row_of arithmetic collected) names ≡ ok rows
      → All (IsRow samples collected) rows × (map (λ (row : Row Float). row.workload) rows ≡ names)
  unfolding map_result
  rows-IsRow samples collected [] c h =
      subst
        (λ rows.
          All (IsRow samples collected) rows × (map (λ (row : Row Float). row.workload) rows ≡ []))
        (ok-injective h) (tt, refl)
  rows-IsRow samples collected (name ∷ names) c h =
      let (row, r, h₁) = >>=-eq-ok (row_of arithmetic collected name) _ h in
      let (rest, more, h₂) = >>=-eq-ok (map_result (row_of arithmetic collected) names) _ h₁ in
      let (is, named) = row_of-IsRow samples collected name c r in
      let (all, names_are) = rows-IsRow samples collected names c more in
      subst
        (λ rows.
          All (IsRow samples collected) rows
          × (map (λ (row : Row Float). row.workload) rows ≡ name ∷ names))
        (ok-injective h₂) ((is, all), ap₂ (◌∷◌) named names_are)

  -- A summary succeeds only where its dictionaries hold exactly the samples, without a repetition,
  -- where each group holds the samples of its own workload and repetition.
  -- It has then one row for each workload, in the order of the names, and each row is about all
  -- repetitions of its workload: there is one, each has a sample of each of the three modes and no
  -- other, and what is divided by is positive. Its times are of the samples of each mode, and its
  -- overheads of the quotients of each repetition.
  pub summarize-IsRow :
      (samples : List (Sample ℤ)) {rows : List (Row Float)}
      → summarize arithmetic samples ≡ ok rows
      → (collected : Collected ℤ) × IsCollected modes samples collected
        × IsGrouped samples collected.groups
        × All (IsRow samples collected) rows
        × (map (λ (row : Row Float). row.workload) rows ≡ workloads samples)
  unfolding summarize
  summarize-IsRow samples h =
      let (collected, c, h₁) = >>=-eq-ok (collect modes samples) _ h in
      let is = collect-IsCollected modes samples c in
      let (all, names_are) = rows-IsRow samples collected (workloads samples) is h₁ in
      (collected, is, collect-IsGrouped modes samples c is, all, names_are)
