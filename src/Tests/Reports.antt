-- ===== src/Tests/Reports.antt =====
-- The theorems on the reports at a small manifest.
use interspec_typed_allocato.Prelude.{
  ℕ, ◌+◌, ◌/◌, ◌≤◌, ◌≡◌, ◌↔◌, refl, true, false, Option, none, some, List, [], ◌∷◌, Text, codes,
  filter, length,
}
use interspec_typed_allocato.Prelude.Integers.{pos}
use interspec_typed_allocato.Policy.{Policy}
use interspec_typed_allocato.Report.{
  BoundaryEntry, RoleHelper, Counts, complete, all_counts, outcome_of, Metrics, Manifest, report_of,
  build_report,
}
use interspec_typed_allocato.Report.Laws.{IsCounted, outcome_of-IsCounted}
use interspec_typed_allocato.Report.Complete.{IsAccepted, report_of-IsAccepted_iff}
use interspec_typed_allocato.Evaluation.{SecurityRow, passes, total, is_real, Evaluation, build}
use interspec_typed_allocato.Evaluation.Laws.{IsDeterministic, build-IsDeterministic_iff}
use interspec_typed_allocato.Evaluation.Sums.{build_sums}

-- Quotients rounded down.
abbrev divide : ℕ → ℕ → ℕ
divide part whole = part / whole

abbrev policy : Policy
policy = record {
  types = codes "char" ∷ [];
  allocations = record { function = codes "f"; type = codes "char"; site = none } ∷ [];
  uses =
      record {
        name = codes "first";
        type = codes "char";
        offset = pos 0;
        bytes = some (pos 1);
        dynamic_bytes = false;
      }
      ∷ [];
}

abbrev helpers : List RoleHelper
helpers = record { role = none } ∷ record { role = some (codes "adversarial") } ∷ []

-- Every path is a file.
abbrev read_policy : Text → Option Policy
read_policy path = some policy

abbrev read_helpers : Text → Option (List RoleHelper)
read_helpers path = some helpers

abbrev entry : BoundaryEntry
entry = record {
  name = codes "nginx/libpcre";
  role = some (codes "p7c");
  status = codes "full";
  pointer_shapes = codes "interior_u_object" ∷ [];
  policy = some (codes "policy.json");
  boundary_policy = some (codes "boundary.json");
  source_revision = some (codes "e67dabe6");
  adversarial = codes "untracked" ∷ [];
}

abbrev counts : Counts ℕ
counts = all_counts 0 divide entry policy helpers

counted : outcome_of 0 divide read_policy read_helpers entry ≡ complete counts
unfolding outcome_of
counted = refl

outcome_of-IsCounted_example : IsCounted read_policy read_helpers entry counts
outcome_of-IsCounted_example = outcome_of-IsCounted 0 divide read_policy read_helpers entry counted

abbrev manifest : Manifest
manifest = record {
  schema_version = some 1;
  boundaries = entry ∷ [];
  required_pointer_shapes = codes "interior_u_object" ∷ [];
  required_new_boundaries = some 1;
}

abbrev metrics : List (Metrics ℕ)
metrics =
    record {
      name = codes "nginx/libpcre";
      role = codes "p7c";
      status = codes "full";
      pointer_shapes = codes "interior_u_object" ∷ [];
      outcome = complete counts;
    }
    ∷ []

report_is_complete : (report_of manifest metrics).complete ≡ true
unfolding report_of
report_is_complete = refl

report_of-IsAccepted_iff_example :
    ((report_of manifest metrics).complete ≡ true) ↔ IsAccepted manifest metrics
report_of-IsAccepted_iff_example = report_of-IsAccepted_iff manifest metrics

abbrev security : List SecurityRow
security =
    record { case = codes "wrong_type"; result = codes "pass" }
    ∷ record { case = codes "untracked"; result = codes "fail" }
    ∷ []

build-IsDeterministic_iff_example :
    ((build 0 divide security (report_of manifest metrics)).deterministic_complete ≡ true)
    ↔ IsDeterministic security (report_of manifest metrics)
build-IsDeterministic_iff_example =
    build-IsDeterministic_iff 0 divide security (report_of manifest metrics)

abbrev evaluation : Evaluation ℕ
evaluation = build 0 divide security (build_report 0 divide read_policy read_helpers manifest)

build_sums_example :
    (evaluation.passed ≡ length (filter passes security))
    × (evaluation.passed + length evaluation.failed_cases ≡ evaluation.case_count)
    × (evaluation.precise_source_allocation_sites ≤ evaluation.inferred_allocation_sites)
    × (evaluation.integration_helper_sites + evaluation.adversarial_helper_sites
        ≡ total (λ c. c.helper_sites) (filter is_real evaluation.generalization.boundaries))
build_sums_example = build_sums 0 divide read_policy read_helpers security manifest
