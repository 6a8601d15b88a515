-- ===== src/Tests/Generator.antt =====
-- The theorems on the WebAssembly generator at the program of the native one.
use interspec_typed_allocato.Prelude.{
  ℕ, ◌≡◌, ◌⊎◌, refl, Bool, true, false, Option, none, some, same, decimal, All, if◌then◌else◌, List,
  [], ◌∷◌, Text, codes, Result, ok, err,
}
use interspec_typed_allocato.Prelude.Integers.{pos}
use interspec_typed_allocato.Policy.{Boundary}
use interspec_typed_allocato.Compose.Laws.{Extends}
use interspec_typed_allocato.WasmBoundary.{WasmOutput, generate_wasm_boundary}
use interspec_typed_allocato.WasmBoundary.Laws.{
  IsWasmGenerated, generate_wasm_boundary-IsWasmGenerated,
}
use interspec_typed_allocato.TypeIds.{Ids, type_ids}
use interspec_typed_allocato.Sites.{Precise, number_sites}
use interspec_typed_allocato.Instrument.{site_symbols}
use interspec_typed_allocato.Runtime.{Runtime, new_runtime}
use interspec_typed_allocato.Registration.{defined_once, register_types, register_sites}
use interspec_typed_allocato.Registration.Constants.{DistinctIdents, defined_once-DistinctIdents}
use interspec_typed_allocato.Registration.Labels.{WellLaid}
use interspec_typed_allocato.Names.{cpp}
use interspec_typed_allocato.Registration.Native.{IsPlaced, native_policy-IsPlaced}
use interspec_typed_allocato.Registration.Accepted.{Accepts}
use interspec_typed_allocato.Registration.Boundary.{IsInstalled, generate_wasm_boundary-IsInstalled}
use interspec_typed_allocato.Tests.{no_letters, program, policy, site, allocation}

abbrev boundary : Boundary
boundary = record {
  types = codes "void" ∷ [];
  helper_sites = record { name = codes "copy"; type = codes "void" } ∷ [];
}

abbrev wasm_run : Result WasmOutput
wasm_run = generate_wasm_boundary no_letters policy program (codes "popt") boundary (pos 0)

abbrev output_of : Result WasmOutput → WasmOutput
output_of r = elim r [
  | ok output ↦ output
  | err _ ↦ record { source = []; u_header = []; t_header = []; host_imports = [] }
]

generated : wasm_run ≡ ok (output_of wasm_run)
unfolding generate_wasm_boundary interspec_typed_allocato.WasmSites.site_record
    interspec_typed_allocato.WasmSites.helper_records
    interspec_typed_allocato.WasmSites.instrument_wasm_sites
    interspec_typed_allocato.Sites.sort_sites interspec_typed_allocato.WasmSites.number_precise
    interspec_typed_allocato.WasmSites.instrument_wasm_site interspec_typed_allocato.Hash.hash_type
    interspec_typed_allocato.WasmHeaders.wasm_access_lines
generated = refl

generate_wasm_boundary-IsWasmGenerated_example :
    (types : List Text) × Extends policy.types (codes "void" ∷ []) types
    × IsWasmGenerated
        (record policy { types = types })
        program
        (codes "popt")
        boundary
        (pos 0)
        (output_of wasm_run)
generate_wasm_boundary-IsWasmGenerated_example =
    generate_wasm_boundary-IsWasmGenerated no_letters policy program (codes "popt") boundary (pos 0)
      generated

generate_wasm_boundary-IsInstalled_example :
    (types : List Text) × Extends policy.types (codes "void" ∷ []) types
    × IsInstalled
        (record policy { types = types })
        (codes "popt")
        (pos 0)
        (output_of wasm_run)
        4096
        64
generate_wasm_boundary-IsInstalled_example =
    generate_wasm_boundary-IsInstalled no_letters policy program (codes "popt") boundary (pos 0)
      4096 64 generated

two_ids : type_ids policy.types ≡ ok ((codes "char", 1) ∷ (codes "poptContext_s", 2) ∷ [])
unfolding type_ids interspec_typed_allocato.Hash.hash_type
two_ids = refl

abbrev two : Ids
two = (codes "char", 1) ∷ (codes "poptContext_s", 2) ∷ []

abbrev first_site : Precise
first_site = record { allocation = allocation; site = site; site_id = 1 }

-- The addresses of the labels.
abbrev resolve : Text → ℕ
resolve label = if same label (site_symbols (codes "f") 1).0 then 100 else 120

one_site : number_sites policy.types 1 policy.allocations ≡ ok (first_site ∷ [])
unfolding number_sites
one_site = refl

two_constants : defined_once two ≡ true
unfolding defined_once cpp same
two_constants = refl

two_idents : DistinctIdents policy.types
two_idents = (defined_once-DistinctIdents two).0 two_constants

abbrev accepted_of : Option (Runtime × Bool) → Runtime
accepted_of none = new_runtime 4096 64
accepted_of (some accepted) = accepted.0

-- The resolver's addresses are taken.
registered :
    (register_sites resolve two
      (first_site ∷ [])
      (accepted_of (register_types two (new_runtime 4096 64)))).1
    ≡ true
unfolding register_sites register_types same cpp site_symbols interspec_typed_allocato.Names.symbol
    decimal interspec_typed_allocato.Runtime.register_allocation_site
    interspec_typed_allocato.Runtime.register_type new_runtime
    interspec_typed_allocato.Hash.hash_type
registered = refl

-- `const pcre` and `const_pcre` have one identifier.
shared_ident :
    register_types ((codes "const pcre", 1) ∷ (codes "const_pcre", 2) ∷ []) (new_runtime 4096 64)
    ≡ none
unfolding register_types cpp same
shared_ident = refl

native_policy-IsPlaced_example :
    (accepted : Runtime × Bool) × (register_types two (new_runtime 4096 64) ≡ some accepted)
    × Accepts two [] accepted
    × (((register_sites resolve two (first_site ∷ []) accepted.0).1 ≡ true)
          × All
              (IsPlaced resolve (register_sites resolve two (first_site ∷ []) accepted.0).0)
              (first_site ∷ [])
        ⊎ ((register_sites resolve two (first_site ∷ []) accepted.0).1 ≡ false)
          × (¬ WellLaid resolve (first_site ∷ [])))
native_policy-IsPlaced_example =
    native_policy-IsPlaced resolve policy.types policy.allocations two (first_site ∷ []) 4096 64
      two_ids one_site two_idents
