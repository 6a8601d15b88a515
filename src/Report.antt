-- ===== src/Report.antt =====
-- tools/p7c_report.py: which boundaries of a manifest are complete, and their counts. The files
-- below the root are given by two functions from paths, which are `none` where there is no file,
-- and so are the floating point numbers.
pub mod Laws
pub mod Complete
use interspec_typed_allocato.Prelude.{
  ℕ, ◌+◌, Bool, true, false, not, ◌&&◌, ◌||◌, Option, none, some, List, [], ◌∷◌, ◌++◌, map, Text,
  codes, concat, filter, length, contains, same, text_lt, leb, sort_by, ◌==◌, if◌then◌else◌,
}
use interspec_typed_allocato.Policy.{Allocation, Policy}
use interspec_typed_allocato.MallocCall.{is_nonempty}
use interspec_typed_allocato.Sites.{sorted_set}

-- An entry of the manifest. Absent lists are empty.
pub record BoundaryEntry : Type 0 where
  pub name : Text
  pub role : Option Text
  pub status : Text
  pub pointer_shapes : List Text
  pub policy : Option Text
  pub boundary_policy : Option Text
  pub source_revision : Option Text
  pub adversarial : List Text

-- A helper site of a boundary file, of which the report reads the role only.
pub record RoleHelper : Type 0 where
  pub role : Option Text

pub record Counts (Float : Type 0) : Type 0 where
  pub allocation_sites : ℕ
  pub inferred_allocation_sites : ℕ
  pub precise_source_allocation_sites : ℕ
  pub precise_source_fraction : Float
  pub trusted_uses : ℕ
  pub helper_sites : ℕ
  pub integration_helper_sites : ℕ
  pub adversarial_helper_sites : ℕ
  pub adversarial : List Text
  pub source_revision : Text

-- The keys that `boundary_metrics` adds: `complete` false with `missing`, or true with the counts.
pub data Outcome (Float : Type 0) : Type 0 where
  incomplete : List Text → Outcome Float
  complete : Counts Float → Outcome Float

pub record Metrics (Float : Type 0) : Type 0 where
  pub name : Text
  pub role : Text
  pub status : Text
  pub pointer_shapes : List Text
  pub outcome : Outcome Float

abbrev pub default : Text → Option Text → Text
default text none = text
default text (some other) = other

-- A text that counts as true: present and not empty.
abbrev pub truthy : Option Text → Bool
truthy none = false
truthy (some text) = is_nonempty text

abbrev pub has_site : Allocation → Bool
has_site a = elim a.site [ none ↦ false | some _ ↦ true ]

abbrev pub has_role : Text → RoleHelper → Bool
has_role role helper = same (default (codes "integration") helper.role) role

abbrev pub unknown_role : RoleHelper → Bool
unknown_role helper =
    not (has_role (codes "integration") helper || has_role (codes "adversarial") helper)

abbrev pub is_empty : {A : Type 0} → List A → Bool
is_empty [] = true
is_empty (x ∷ xs) = false

abbrev pub is_some : {A : Type 0} → Option A → Bool
is_some none = false
is_some (some x) = true

-- The policy at a path that is given and is a file.
abbrev pub load_policy : (Text → Option Policy) → Option Text → Option Policy
load_policy read none = none
load_policy read (some path) = if is_nonempty path then read path else none

-- The helpers of a boundary; without a path there are none.
abbrev pub load_helpers : (Text → Option (List RoleHelper)) → Option Text → Option (List RoleHelper)
load_helpers read none = some []
load_helpers read (some path) = if is_nonempty path then read path else some []

-- `missing`, of three tests.
abbrev pub missing_inputs : Bool → Bool → Bool → List Text
missing_inputs policy helpers revision = concat (
    (if policy then [] else codes "policy" ∷ [])
    ∷ (if helpers then [] else codes "boundary_policy" ∷ [])
    ∷ (if revision then [] else codes "source_revision" ∷ [])
    ∷ [])

-- The counts, with the roles checked first.
module _ {Float : Type 0} (zero_float : Float) (divide : ℕ → ℕ → Float) where
  abbrev pub fraction : ℕ → ℕ → Float
  fraction part whole = if whole == 0 then zero_float else divide part whole

  abbrev pub all_counts : BoundaryEntry → Policy → List RoleHelper → Counts Float
  all_counts entry policy helpers = record {
    allocation_sites = length policy.allocations + length helpers;
    inferred_allocation_sites = length policy.allocations;
    precise_source_allocation_sites = length (filter has_site policy.allocations);
    precise_source_fraction =
        fraction (length (filter has_site policy.allocations)) (length policy.allocations);
    trusted_uses = length policy.uses;
    helper_sites = length helpers;
    integration_helper_sites = length (filter (has_role (codes "integration")) helpers);
    adversarial_helper_sites = length (filter (has_role (codes "adversarial")) helpers);
    adversarial = entry.adversarial;
    source_revision = default [] entry.source_revision;
  }

  unfoldable pub counts_of : BoundaryEntry → Policy → List RoleHelper → Outcome Float
  unfolding same
  counts_of entry policy helpers =
      if is_empty (filter unknown_role helpers)
      then complete (all_counts entry policy helpers)
      else incomplete (codes "valid helper-site role" ∷ [])

  -- What is missing, or the counts where all inputs are there.
  unfoldable pub with_inputs :
      BoundaryEntry → Option Policy → Option (List RoleHelper) → Outcome Float
  unfolding counts_of
  with_inputs entry (some policy) (some helpers) =
      if truthy entry.source_revision
      then counts_of entry policy helpers
      else incomplete (missing_inputs true true false)
  with_inputs entry policy helpers =
      incomplete (missing_inputs (is_some policy) (is_some helpers) (truthy entry.source_revision))

  module _ (read_policy : Text → Option Policy)
      (read_helpers : Text → Option (List RoleHelper)) where
    unfoldable pub outcome_of : BoundaryEntry → Outcome Float
    unfolding same with_inputs
    outcome_of entry =
        if same entry.status (codes "full")
        then with_inputs entry (load_policy read_policy entry.policy)
            (load_helpers read_helpers entry.boundary_policy)
        else incomplete (codes "full integration" ∷ [])

    unfoldable pub boundary_metrics : BoundaryEntry → Metrics Float
    unfolding outcome_of
    boundary_metrics entry = record {
      name = entry.name;
      role = default (codes "p7c") entry.role;
      status = entry.status;
      pointer_shapes = entry.pointer_shapes;
      outcome = outcome_of entry;
    }

pub record Manifest : Type 0 where
  pub schema_version : Option ℕ
  pub boundaries : List BoundaryEntry
  pub required_pointer_shapes : List Text
  pub required_new_boundaries : Option ℕ

pub record Report (Float : Type 0) : Type 0 where
  pub schema_version : ℕ
  pub complete : Bool
  pub required_new_boundaries : ℕ
  pub completed_new_boundaries : ℕ
  pub required_pointer_shapes : List Text
  pub covered_pointer_shapes : List Text
  pub missing_pointer_shapes : List Text
  pub boundaries : List (Metrics Float)

abbrev pub or_default : ℕ → Option ℕ → ℕ
or_default n none = n
or_default n (some m) = m

module _ {Float : Type 0} where
  abbrev pub is_complete : Metrics Float → Bool
  is_complete m = elim m.outcome [ incomplete _ ↦ false | complete _ ↦ true ]

  abbrev pub is_p7c : Metrics Float → Bool
  is_p7c m = same m.role (codes "p7c")

  abbrev pub shapes_of : List (Metrics Float) → List Text
  shapes_of ms = sorted_set (concat (map (λ (m : Metrics Float). m.pointer_shapes) ms))

  -- The report of the metrics that were made.
  unfoldable pub report_of : Manifest → List (Metrics Float) → Report Float
  unfolding same sorted_set sort_by
  report_of manifest metrics =
      let p7c = filter is_p7c metrics in
      let full_p7c = filter is_complete p7c in
      let shapes = shapes_of full_p7c in
      let missing =
        sorted_set (filter (λ s. not (contains shapes s)) manifest.required_pointer_shapes) in
      record {
        schema_version = or_default 1 manifest.schema_version;
        complete =
            leb (or_default 0 manifest.required_new_boundaries) (length full_p7c)
            && is_empty missing
            && is_empty (filter (λ m. not (is_complete m)) p7c);
        required_new_boundaries = or_default 0 manifest.required_new_boundaries;
        completed_new_boundaries = length full_p7c;
        required_pointer_shapes = sort_by text_lt manifest.required_pointer_shapes;
        covered_pointer_shapes = shapes;
        missing_pointer_shapes = missing;
        boundaries = metrics;
      }

module _ {Float : Type 0} (zero_float : Float) (divide : ℕ → ℕ → Float)
    (read_policy : Text → Option Policy) (read_helpers : Text → Option (List RoleHelper)) where
  unfoldable pub build_report : Manifest → Report Float
  unfolding report_of boundary_metrics
  build_report manifest =
      report_of manifest
        (map (boundary_metrics zero_float divide read_policy read_helpers) manifest.boundaries)
