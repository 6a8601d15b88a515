-- ===== src/Page/P8Texts.antt =====
-- The fixed lines of the page of tools/render_p8_results.py.
use interspec_typed_allocato.Prelude.{[], ◌∷◌, ◌++◌, List, Text, codes, concat, strip}
use interspec_typed_allocato.Prelude.Integers.{decimal_ℤ}
use interspec_typed_allocato.Page.{Numbers, Facts}

module _ {F : Type 0} (numbers : Numbers F) (facts : Facts F) where
  abbrev percent : F → Text
  percent value = numbers.fixed value 1 ++ codes "%"

  abbrev pub p8_opening : Text → Text → List Text
  p8_opening reference_commit environment_note =
      codes "# P8 Representative Results"
      ∷ []
      ∷ concat (
          codes "This file is mechanically rendered from P8 machine-readable evaluation artifacts. "
          ∷ codes "The performance values below are a reproducible CI reference, not "
          ∷ codes
              "controlled-hardware publication numbers. Final paper timings should be regenerated "
          ∷ codes "with the same artifact formats on a dedicated machine."
          ∷ [])
      ∷ []
      ∷ codes "Reference implementation commit:"
      ∷ []
      ∷ codes "```text"
      ∷ reference_commit
      ∷ codes "```"
      ∷ []
      ∷ codes "Reference environment:"
      ∷ []
      ∷ codes "```text"
      ∷ strip environment_note
      ∷ codes "```"
      ∷ []
      ∷ codes "## 1. Security"
      ∷ []
      ∷ concat (
          codes "The deterministic runtime security matrix passed **"
          ∷ decimal_ℤ facts.passed
          ∷ codes "/"
          ∷ decimal_ℤ facts.case_count
          ∷ codes
              "** cases. The real RLBox + NaCl boundary regression additionally exercises valid "
          ∷ codes "behavior and wrong-type, untracked same-domain, and spatial-overflow rejection "
          ∷ codes "where applicable."
          ∷ [])
      ∷ []
      ∷ codes "## 2. Automation and policy composition"
      ∷ []
      ∷ concat (
          codes "Across **"
          ∷ decimal_ℤ facts.boundary_count
          ∷ codes "** real boundaries, the integration allocation policy contains **"
          ∷ decimal_ℤ facts.inferred_allocation_sites
          ∷ codes " source-derived allocation sites** and **"
          ∷ decimal_ℤ facts.integration_helper_sites
          ∷ codes " explicit integration helper sites**. The source-derived fraction is **"
          ∷ percent (numbers.times_100 facts.source_derived_fraction)
          ∷ codes "**. The report separately excludes **"
          ∷ decimal_ℤ facts.adversarial_helper_sites_excluded
          ∷ codes "** test-only helper sites from that denominator."
          ∷ [])
      ∷ []
      ∷ concat (
          codes "| Boundary | Source-derived sites | Integration helpers | Trusted uses | Pointer "
          ∷ codes "shape |"
          ∷ [])
      ∷ codes "| --- | ---: | ---: | ---: | --- |"
      ∷ []

abbrev pub helper_note : List Text
helper_note =
    []
    ∷ concat (
        codes "The explicit helpers for PCRE and libyaml correspond to real allocator abstractions "
        ∷ codes "(`pcre_malloc` and `YAML_MALLOC`) rather than direct `malloc` syntax. They are "
        ∷ codes "reported as explicit policy rather than being counted as source-derived "
        ∷ codes "direct-allocation inference."
        ∷ [])
    ∷ []

abbrev pub runtime_opening : List Text
runtime_opening =
    []
    ∷ codes "## 3. Trusted metadata runtime cost"
    ∷ []
    ∷ concat (
        codes "The low-level runtime benchmark measures trusted metadata operations without a "
        ∷ codes "sandbox crossing. The selected rows below show how containing-allocation lookup "
        ∷ codes "scales with the number of live allocations."
        ∷ [])
    ∷ []
    ∷ codes "| Live allocations | Operation | ns/op |"
    ∷ codes "| ---: | --- | ---: |"
    ∷ []

abbrev pub boundary_opening : Text → List Text
boundary_opening boundary_section =
    []
    ∷ boundary_section
    ∷ []
    ∷ concat (
        codes "These measurements keep the real U object, sandbox, typed allocation/provenance, "
        ∷ codes "and copy behavior fixed. `tracked_no_check` bypasses only the final T-side "
        ∷ codes "Extended-SP3 acceptance check. Thus the overhead is **incremental validation "
        ∷ codes "overhead**, not total overhead over plain RLBox. Because the no-check operation "
        ∷ codes "itself is only a few nanoseconds, percentage changes can look large; the absolute "
        ∷ codes "added nanoseconds are therefore shown explicitly."
        ∷ [])
    ∷ []
    ∷ concat (
        codes "| Boundary | Baseline median (ns) | Extended SP3 median (ns) | Added median time "
        ∷ codes "(ns) | Paired median overhead |"
        ∷ [])
    ∷ codes "| --- | ---: | ---: | ---: | ---: |"
    ∷ []

abbrev pub application_opening : Text → List Text
application_opening app_section =
    []
    ∷ app_section
    ∷ []
    ∷ concat (
        codes "The complete pinned rsync executable is rebuilt twice from the same object files "
        ∷ codes
            "and linked against the same NaCl module. The measurement-only variant changes only "
        ∷ codes "the final trusted pointer validation in the popt bridge."
        ∷ [])
    ∷ []
    ∷ concat (
        codes "| Workload | Baseline median (ms) | Extended SP3 median (ms) | Median-time delta "
        ∷ codes "(ms) | Paired median overhead |"
        ∷ [])
    ∷ codes "| --- | ---: | ---: | ---: | ---: |"
    ∷ []

abbrev pub p8_closing : Text → List Text
p8_closing interpretation_section =
    []
    ∷ interpretation_section
    ∷ []
    ∷ concat (
        codes "P8 separates three performance questions rather than collapsing them into one "
        ∷ codes "number: the runtime benchmark characterizes trusted metadata operations, the "
        ∷ codes "real-boundary benchmark isolates final pointer-validation cost, and the "
        ∷ codes
            "complete-rsync pair measures that validation change at the application level. None "
        ∷ codes "of these is a total RLBox-only-versus-Extended-SP3 comparison because typed "
        ∷ codes "allocation/provenance remains enabled in the paired baseline."
        ∷ [])
    ∷ []
    ∷ concat (
        codes "The security claim remains limited to liveness, expected trusted allocation type, "
        ∷ codes
            "and spatial containment of the requested extent. It does not establish general CFI, "
        ∷ codes "U object-content integrity, intended-object identity among simultaneous same-type "
        ∷ codes "allocations, or temporal identity under physical address reuse."
        ∷ [])
    ∷ []
    ∷ []
