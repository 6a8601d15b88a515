-- ===== src/Evaluation.antt =====
-- `build` of tools/build_p8_report.py, on the rows of the security file that are read already and
-- the report of the boundaries.
pub mod Laws
pub mod Sums
use interspec_typed_allocato.Prelude.{
  ℕ, suc, ◌+◌, ◌-◌, Bool, true, false, not, ◌&&◌, ◌||◌, List, [], ◌∷◌, map, Text, codes, filter,
  length, same, leb, ◌==◌, if◌then◌else◌,
}
use interspec_typed_allocato.MallocCall.{is_nonempty}
use interspec_typed_allocato.Report.{
  Counts, incomplete, complete, Metrics, is_empty, fraction, Report,
}

pub record SecurityRow : Type 0 where
  pub case : Text
  pub result : Text

abbrev pub passes : SecurityRow → Bool
passes row = same row.result (codes "pass")

module _ {Float : Type 0} where
  -- `b.get(key, 0)`: an incomplete boundary has none of the counts.
  abbrev pub count_in : (Counts Float → ℕ) → Metrics Float → ℕ
  count_in count m = elim m.outcome [ incomplete _ ↦ 0 | complete counts ↦ count counts ]

  abbrev pub revision_in : Metrics Float → Text
  revision_in m = elim m.outcome [ incomplete _ ↦ [] | complete counts ↦ counts.source_revision ]

  abbrev pub adversarial_in : Metrics Float → List Text
  adversarial_in m = elim m.outcome [ incomplete _ ↦ [] | complete counts ↦ counts.adversarial ]

  abbrev pub total : (Counts Float → ℕ) → List (Metrics Float) → ℕ
  total count [] = 0
  total count (m ∷ ms) = count_in count m + total count ms

  abbrev pub is_real : Metrics Float → Bool
  is_real m = same m.role (codes "baseline") || same m.role (codes "p7c")

  abbrev pub has_revision : Metrics Float → Bool
  has_revision m = is_nonempty (revision_in m)

  abbrev pub has_uses : Metrics Float → Bool
  has_uses m = leb 1 (count_in (λ c. c.trusted_uses) m)

  abbrev pub has_adversarial : Metrics Float → Bool
  has_adversarial m = not (is_empty (adversarial_in m))

  -- The names of those that fail the test.
  abbrev pub failing : (Metrics Float → Bool) → List (Metrics Float) → List Text
  failing test ms = map (λ (m : Metrics Float). m.name) (filter (λ m. not (test m)) ms)

pub record Evaluation (Float : Type 0) : Type 0 where
  pub deterministic_complete : Bool
  pub case_count : ℕ
  pub passed : ℕ
  pub failed_cases : List Text
  pub generalization : Report Float
  pub boundary_count : ℕ
  pub inferred_allocation_sites : ℕ
  pub precise_source_allocation_sites : ℕ
  pub integration_helper_sites : ℕ
  pub adversarial_helper_sites : ℕ
  pub trusted_uses : ℕ
  pub source_derived_fraction : Float
  pub missing_source_revision : List Text
  pub without_trusted_uses : List Text
  pub without_adversarial_metadata : List Text

abbrev pub failed_of : List SecurityRow → List Text
failed_of security = map (λ (r : SecurityRow). r.case) (filter (λ r. not (passes r)) security)

module _ {Float : Type 0} (zero_float : Float) (divide : ℕ → ℕ → Float) where
  unfoldable pub build : List SecurityRow → Report Float → Evaluation Float
  unfolding same
  build security generalization =
      let real = filter is_real generalization.boundaries in
      let failed = failed_of security in
      let missing_revision = failing has_revision real in
      let no_uses = failing has_uses real in
      let no_adversarial = failing has_adversarial real in
      let inferred = total (λ c. c.inferred_allocation_sites) real in
      let helpers = total (λ c. c.integration_helper_sites) real in
      record {
        deterministic_complete =
            is_empty failed
            && generalization.complete
            && is_empty missing_revision
            && is_empty no_uses
            && is_empty no_adversarial;
        case_count = length security;
        passed = length security - length failed;
        failed_cases = failed;
        generalization = generalization;
        boundary_count = length real;
        inferred_allocation_sites = inferred;
        precise_source_allocation_sites = total (λ c. c.precise_source_allocation_sites) real;
        integration_helper_sites = helpers;
        adversarial_helper_sites = total (λ c. c.adversarial_helper_sites) real;
        trusted_uses = total (λ c. c.trusted_uses) real;
        source_derived_fraction = fraction zero_float divide inferred (inferred + helpers);
        missing_source_revision = missing_revision;
        without_trusted_uses = no_uses;
        without_adversarial_metadata = no_adversarial;
      }
