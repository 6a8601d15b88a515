-- ===== src/Page/P9aTexts.antt =====
-- The fixed lines of the page of tools/render_p9a_results.py.
use interspec_typed_allocato.Prelude.{[], ◌∷◌, List, Text, codes, concat, strip}

abbrev pub p9a_opening : Text → Text → List Text
p9a_opening reference_commit environment_note =
    codes "# P9a RLBox-Only Baseline Results"
    ∷ []
    ∷ concat (
        codes "This file is mechanically rendered from the P9a three-way rsync measurement "
        ∷ codes "artifact. The values are a reproducible CI reference; final publication timings "
        ∷ codes "should be regenerated on controlled hardware."
        ∷ [])
    ∷ []
    ∷ codes "Reference implementation commit:"
    ∷ []
    ∷ codes "```text"
    ∷ reference_commit
    ∷ codes "```"
    ∷ []
    ∷ codes "Reference environment:"
    ∷ []
    ∷ codes "```text"
    ∷ strip environment_note
    ∷ codes "```"
    ∷ []
    ∷ codes "## Three-way application comparison"
    ∷ []
    ∷ concat (
        codes "`rlbox_only` uses the same pinned RLBox + NaCl sandbox and rsync/popt API bridge, "
        ∷ codes
            "but ordinary sandbox allocation is used and the trusted bridge does not reserve the "
        ∷ codes "typed arena, instantiate PolicyRuntime, register allocation provenance/lifetime "
        ∷ codes "callbacks, or execute Extended-SP3 validation. `tracked_no_check` enables typed "
        ∷ codes
            "allocation/provenance but bypasses final pointer acceptance. `extended_sp3` enables "
        ∷ codes "the complete mechanism."
        ∷ [])
    ∷ []
    ∷ concat (
        codes "| Workload | RLBox only median (ms) | Tracked/no-check median (ms) | Extended SP3 "
        ∷ codes "median (ms) | Tracking/provenance overhead | Validation overhead | Total "
        ∷ codes "Extended-SP3 overhead |"
        ∷ [])
    ∷ codes "| --- | ---: | ---: | ---: | ---: | ---: | ---: |"
    ∷ []

abbrev pub p9a_closing : List Text
p9a_closing =
    []
    ∷ concat (
        codes "The decomposition is intentionally paired within each repetition: "
        ∷ codes
            "tracking/provenance is `tracked_no_check / rlbox_only`, validation is `extended_sp3 "
        ∷ codes "/ tracked_no_check`, and total mechanism overhead is `extended_sp3 / rlbox_only`. "
        ∷ codes "Percentages should not be added because the denominators differ."
        ∷ [])
    ∷ []
    ∷ concat (
        codes "This P9a baseline removes InterSpec from the measured rsync/popt runtime path but "
        ∷ codes "still uses the same NaCl backend build containing dormant InterSpec support code. "
        ∷ codes "No typed arena or InterSpec callbacks are activated in `rlbox_only`. P9b remains "
        ∷ codes "responsible for reproducing the final paper experiment on the wasm2c backend used "
        ∷ codes "by the existing InterSpec evaluation."
        ∷ [])
    ∷ []
    ∷ []
