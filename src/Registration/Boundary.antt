-- ===== src/Registration/Boundary.antt =====
-- The policy that the WebAssembly generator emits, at the runtime that takes it.
use interspec_typed_allocato.Prelude.{
  ℕ, suc, ◌≡◌, ◌⊎◌, inl, inr, refl, ap, subst, sym, Bool, true, false, Bool-cases, none, some, List,
  [], ◌∷◌, ◌++◌, map, Text, All, contains, join, length, ok,
}
use interspec_typed_allocato.Prelude.Integers.{ℤ, pos_part}
use interspec_typed_allocato.OrderedMap.{find}
use interspec_typed_allocato.TypeIds.{number_types, names_of}
use interspec_typed_allocato.Policy.{Allocation, HelperSite, Policy, Boundary}
use interspec_typed_allocato.WasmSites.{SiteRecord}
use interspec_typed_allocato.WasmSites.Records.{types_of, AllRecords}
use interspec_typed_allocato.Compose.Laws.{Extends}
use interspec_typed_allocato.NativeHeaders.{newline}
use interspec_typed_allocato.WasmHeaders.{
  wasm_u_header_lines, wasm_t_header_lines, host_import_lines,
}
use interspec_typed_allocato.WasmBoundary.{WasmOutput, generate_wasm_boundary}
use interspec_typed_allocato.WasmBoundary.Laws.{
  IsWasmGenerated, generate_wasm_boundary-IsWasmGenerated,
}
use interspec_typed_allocato.Runtime.{Runtime, new_runtime}
use interspec_typed_allocato.Registration.{
  defined_once, register_types_loop, register_types, register_wasm_sites,
}
use interspec_typed_allocato.Registration.Constants.{DistinctIdents, defined_once-DistinctIdents}
use interspec_typed_allocato.Registration.Accepted.{Accepts, numbered-Accepts}
use interspec_typed_allocato.Registration.Numbers.{contains-number_types}
use interspec_typed_allocato.Registration.Wasm.{IsNewSite, IsRegistered, wasm_sites-IsRegistered}

true-ne-false : {b : Bool} → b ≡ true → b ≡ false → ⊥
true-ne-false h k = cc

-- A known name has a number.
abbrev Numbered : List Text → Text → Type 0
Numbered types name = contains (names_of (number_types 1 [] types)) name ≡ true

module _ {ℓ} {A : Type ℓ} (types : List Text) (f : A → Text) where
  All-Numbered :
      (xs : List A) → All (λ x. contains types (f x) ≡ true) xs → All (Numbered types) (map f xs)
  All-Numbered [] h = tt
  All-Numbered (x ∷ xs) (p, h) = (contains-number_types (f x) types 1 [] p, All-Numbered xs h)

All-unmap :
    (P : Text → Type 0) (records : List SiteRecord)
    → All P (types_of records)
    → All (λ (s : SiteRecord). P s.type) records
All-unmap P [] h = tt
All-unmap P (s ∷ records) (p, h) = (p, All-unmap P records h)

All-append : (P : Text → Type 0) (xs ys : List Text) → All P xs → All P ys → All P (xs ++ ys)
All-append P [] ys h k = k
All-append P (x ∷ xs) ys (p, h) k = (p, All-append P xs ys h k)

AllRecords-IsNewSite :
    (namespace_name : Text) (base next : ℕ) (r : Runtime) (records : List SiteRecord)
    → r.site_types ≡ []
    → AllRecords namespace_name base next records
    → All (IsNewSite r) records
unfolding find
AllRecords-IsNewSite namespace_name base next r [] e h = tt
AllRecords-IsNewSite namespace_name base next r (s ∷ records) e (p, h) = (
  record { positive = p.positive_id; new = ap (find s.site_id) e },
  AllRecords-IsNewSite namespace_name base (suc next) r records e h,
)

-- After the types, the sites of a generated policy are registered too.
IsWasmGenerated-IsRegistered :
    (policy : Policy) (source namespace_name : Text) (boundary : Boundary) (base : ℤ)
    {output : WasmOutput} (g : IsWasmGenerated policy source namespace_name boundary base output)
    (r : Runtime)
    → DistinctIdents (names_of (number_types 1 [] policy.types))
    → Accepts (number_types 1 [] policy.types) [] (r, true)
    → IsRegistered g.records (register_wasm_sites (number_types 1 [] policy.types) g.records r)
IsWasmGenerated-IsRegistered policy source namespace_name boundary base g r idents accepted =
    let allocations =
      All-Numbered policy.types (λ (a : Allocation). a.type) policy.allocations
        g.allocations_known in
    let helpers =
      All-Numbered policy.types (λ (h : HelperSite). h.type) boundary.helper_sites
        g.helpers_known in
    let known = subst (All (Numbered policy.types)) (sym g.types_are) (
      All-append (Numbered policy.types) (map (λ (a : Allocation). a.type) policy.allocations)
        (map (λ (h : HelperSite). h.type) boundary.helper_sites) allocations helpers) in
    wasm_sites-IsRegistered (number_types 1 [] policy.types) idents g.records r accepted.found
      (All-unmap (Numbered policy.types) g.records known)
      (AllRecords-IsNewSite namespace_name (pos_part base) 1 r g.records accepted.sites_kept
        g.records_are)
      g.distinct

-- What a new runtime makes of a header with these types and sites: it takes the types, then the sites.
pub record IsTaken (types : List Text) (records : List SiteRecord) (arena_base arena_size : ℕ)
    : Type 0 where
  pub idents_distinct : DistinctIdents (names_of (number_types 1 [] types))
  pub accepted : Runtime × Bool
  pub accepted_is :
      register_types (number_types 1 [] types) (new_runtime arena_base arena_size) ≡ some accepted
  pub types_accepted : Accepts (number_types 1 [] types) [] accepted
  pub sites_registered :
      IsRegistered records (register_wasm_sites (number_types 1 [] types) records accepted.0)

-- The header defines a constant twice, so that there is no program.
pub record IsRefused (types : List Text) (arena_base arena_size : ℕ) : Type 0 where
  pub idents_shared : ¬ DistinctIdents (names_of (number_types 1 [] types))
  pub no_program :
      register_types (number_types 1 [] types) (new_runtime arena_base arena_size) ≡ none

-- The headers of a generated policy, and what becomes of them.
pub record IsInstalled (policy : Policy) (namespace_name : Text) (base : ℤ) (output : WasmOutput)
    (arena_base arena_size : ℕ) : Type 0 where
  pub records : List SiteRecord
  pub u_header_is :
      output.u_header ≡ join newline (wasm_u_header_lines (number_types 1 [] policy.types) records)
  pub accesses : List Text
  pub t_header_is :
      output.t_header
      ≡ join newline (
          wasm_t_header_lines
            (number_types 1 [] policy.types)
            records
            (length policy.allocations)
            namespace_name
            base
            accesses)
  pub host_imports_are : output.host_imports ≡ join newline (host_import_lines records)
  pub outcome :
      IsTaken policy.types records arena_base arena_size
      ⊎ IsRefused policy.types arena_base arena_size

-- Of a policy that the WebAssembly generator emits, a new runtime takes the whole where no two types
-- have one identifier: the emitted registration of the types succeeds, and the number of each stands
-- for its hash; after it the emitted registration of the sites succeeds, and each site of which both
-- headers and the host's imports are made has the hash of its type. Where two types share an
-- identifier the header defines a constant twice, and no registration comes of it.
pub generate_wasm_boundary-IsInstalled :
    (unicode_alnum : ℕ → Bool) (policy : Policy) (source namespace_name : Text)
    (boundary : Boundary) (base : ℤ) (arena_base arena_size : ℕ) {output : WasmOutput}
    → generate_wasm_boundary unicode_alnum policy source namespace_name boundary base ≡ ok output
    → (types : List Text) × Extends policy.types boundary.types types
      × IsInstalled
          (record policy { types = types })
          namespace_name
          base
          output
          arena_base
          arena_size
unfolding register_types
generate_wasm_boundary-IsInstalled alnum policy source namespace_name boundary base arena_base
      arena_size {output} h =
    let (types, extends, g) =
      generate_wasm_boundary-IsWasmGenerated alnum policy source namespace_name boundary base h in
    let accepted = numbered-Accepts types arena_base arena_size g.hashes_distinct in
    let ids = number_types 1 [] types in
    let result = register_types_loop true ids (new_runtime arena_base arena_size) in
    (
      types,
      extends,
      record {
        records = g.records;
        accesses = g.accesses;
        t_header_is = g.t_header_is;
        u_header_is = g.u_header_is;
        host_imports_are = g.host_imports_are;
        outcome = elim (Bool-cases (defined_once ids)) [
          | inl y ↦
              let idents = (defined_once-DistinctIdents ids).0 y in
              inl (record {
                idents_distinct = idents;
                accepted = result;
                accepted_is = rw (y, register_types) refl;
                types_accepted = accepted;
                sites_registered =
                    IsWasmGenerated-IsRegistered (record policy { types = types }) source
                      namespace_name boundary base g result.0 idents
                      (record {
                        done = refl;
                        sites_kept = accepted.sites_kept;
                        found = accepted.found;
                      });
              })
          | inr n ↦ inr (record {
            idents_shared = λ d. true-ne-false ((defined_once-DistinctIdents ids).1 d) n;
            no_program = rw (n, register_types) refl;
          })
        ];
      },
    )
