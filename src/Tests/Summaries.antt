-- ===== src/Tests/Summaries.antt =====
-- The theorems on the summaries at one repetition of one workload.
use interspec_typed_allocato.Prelude.{
  ℕ, ◌≡◌, refl, none, some, List, [], ◌∷◌, sort_by, same, Text, codes, if◌then◌else◌, Result, ok,
  err,
}
use interspec_typed_allocato.Prelude.Integers.{ℤ, pos}
use interspec_typed_allocato.Summary.{Arithmetic, Sample, same_ℤ, Collected, collect}
use interspec_typed_allocato.Summary.Application.{modes, Row, summarize}
use interspec_typed_allocato.Summary.Tables.{IsCollected}
use interspec_typed_allocato.Summary.Loop.{collect-IsCollected}

abbrev first_of : List ℤ → ℤ
first_of [] = pos 0
first_of (n ∷ ns) = n

-- Integers in place of floating point numbers; only the test for 0 matters.
abbrev pub integers : Arithmetic ℤ ℤ
integers = record {
  quotient = λ n d. if same_ℤ d (pos 0) then none else some n;
  minus = λ m n. m;
  times = λ m n. m;
  per = λ m n. m;
  one = pos 1;
  hundred = pos 100;
  million = pos 1000000;
  median_of = first_of;
  mean_of = first_of;
  median = first_of;
  mean = first_of;
  least = first_of;
  greatest = first_of;
}

abbrev sample : Text → ℕ → Sample ℤ
sample mode time = record {
  workload = codes "popt";
  mode = mode;
  repetition = pos 1;
  value = pos time;
}

abbrev samples : List (Sample ℤ)
samples =
    sample (codes "extended_sp3") 12
    ∷ sample (codes "rlbox_only") 10
    ∷ sample (codes "tracked_no_check") 11
    ∷ []

abbrev collected_of : Result (Collected ℤ) → Collected ℤ
collected_of r = elim r [ ok c ↦ c | err _ ↦ record { by_mode = []; groups = [] } ]

abbrev rows_of : Result (List (Row ℤ)) → List (Row ℤ)
rows_of r = elim r [ ok rows ↦ rows | err _ ↦ [] ]

collects : collect modes samples ≡ ok (collected_of (collect modes samples))
unfolding collect same
collects = refl

summarizes : summarize integers samples ≡ ok (rows_of (summarize integers samples))
unfolding summarize sort_by
summarizes = refl

collect-IsCollected_example : IsCollected modes samples (collected_of (collect modes samples))
collect-IsCollected_example = collect-IsCollected modes samples collects
