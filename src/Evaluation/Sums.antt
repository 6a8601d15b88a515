-- ===== src/Evaluation/Sums.antt =====
-- What the numbers of an evaluation count.
use interspec_typed_allocato.Prelude.{
  ℕ, ◌+◌, ◌≤◌, ◌≡◌, refl, inl, inr, Option, List, [], ◌∷◌, map, arith, Text, filter, length, All,
  Bool-cases,
}
use interspec_typed_allocato.Policy.{Policy}
use interspec_typed_allocato.Report.{
  BoundaryEntry, RoleHelper, Outcome, incomplete, complete, Metrics, outcome_of, boundary_metrics,
  Manifest, report_of, build_report,
}
use interspec_typed_allocato.Report.Laws.{outcome_of-IsCounted}
use interspec_typed_allocato.Evaluation.{
  SecurityRow, passes, count_in, total, is_real, failed_of, build,
}

length-failed :
    (security : List SecurityRow)
    → length (filter passes security) + length (failed_of security) ≡ length security
length-failed [] = refl
length-failed (r ∷ security) = ground (arith, length-failed security)

-- The precise sites are among the inferred ones, and each helper has one role.
abbrev Adds : {Float : Type 0} → Metrics Float → Type 0
Adds m =
    (count_in (λ c. c.precise_source_allocation_sites) m
      ≤ count_in (λ c. c.inferred_allocation_sites) m)
    × (count_in (λ c. c.integration_helper_sites) m + count_in (λ c. c.adversarial_helper_sites) m
        ≡ count_in (λ c. c.helper_sites) m)

total-le :
    {Float : Type 0} (ms : List (Metrics Float))
    → All Adds ms
    → (total (λ c. c.precise_source_allocation_sites) (filter is_real ms)
        ≤ total (λ c. c.inferred_allocation_sites) (filter is_real ms))
      × (total (λ c. c.integration_helper_sites) (filter is_real ms)
            + total (λ c. c.adversarial_helper_sites) (filter is_real ms)
          ≡ total (λ c. c.helper_sites) (filter is_real ms))
total-le [] h = (omega arith, refl)
total-le (m ∷ ms) ((p, q), h) =
    let (a, b) = total-le ms h in
    elim (Bool-cases (is_real m)) [
      | inl real ↦ rw (real, total) (omega arith, omega arith)
      | inr other ↦ rw (other, total) (a, b)
    ]

module _ {Float : Type 0} (zero_float : Float) (divide : ℕ → ℕ → Float)
    (read_policy : Text → Option Policy) (read_helpers : Text → Option (List RoleHelper)) where
  boundary_metrics-Adds :
      (entry : BoundaryEntry)
      → Adds (boundary_metrics zero_float divide read_policy read_helpers entry)
  unfolding boundary_metrics
  boundary_metrics-Adds entry =
      go (outcome_of zero_float divide read_policy read_helpers entry) refl
    where
      go :
          (o : Outcome Float)
          → outcome_of zero_float divide read_policy read_helpers entry ≡ o
          → Adds (record {
            name = entry.name;
            role = entry.status;
            status = entry.status;
            pointer_shapes = entry.pointer_shapes;
            outcome = o;
          })
      go (incomplete missing) e = (omega arith, refl)
      go (complete counts) e =
          let i = outcome_of-IsCounted zero_float divide read_policy read_helpers entry e in
          (i.precise_le, i.roles_are)

  metrics-Adds :
      (entries : List BoundaryEntry)
      → All Adds (map (boundary_metrics zero_float divide read_policy read_helpers) entries)
  metrics-Adds [] = tt
  metrics-Adds (entry ∷ entries) = (boundary_metrics-Adds entry, metrics-Adds entries)

  -- In the evaluation of a manifest the passed cases are those whose result is `pass`, every other
  -- case is listed as failed, at most all of the inferred sites are precise, and the helpers of the
  -- two roles together are those of the counted boundaries.
  pub build_sums :
      (security : List SecurityRow) (manifest : Manifest)
      → (let e =
            build zero_float divide security
              (build_report zero_float divide read_policy read_helpers manifest) in
          (e.passed ≡ length (filter passes security))
          × (e.passed + length e.failed_cases ≡ e.case_count)
          × (e.precise_source_allocation_sites ≤ e.inferred_allocation_sites)
          × (e.integration_helper_sites + e.adversarial_helper_sites
              ≡ total (λ c. c.helper_sites) (filter is_real e.generalization.boundaries)))
  unfolding build build_report report_of
  build_sums security manifest =
      let (a, b) =
        total-le
          (map (boundary_metrics zero_float divide read_policy read_helpers) manifest.boundaries)
          (metrics-Adds manifest.boundaries) in
      let cases = length-failed security in (omega arith, omega arith, a, b)
