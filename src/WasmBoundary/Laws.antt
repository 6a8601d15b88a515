-- ===== src/WasmBoundary/Laws.antt =====
-- When `generate_wasm_boundary` succeeds, and what its outputs are made of.
use interspec_typed_allocato.Prelude.{
  ℕ, ◌≡◌, ◌∙◌, sym, ap, subst, Bool, true, false, ◌||◌, List, [], ◌∷◌, Text, contains, join, length,
  All, unknown_allocation_type, unknown_helper_type, unknown_use_type, negative_range, Result, ok,
  err, require-eq-ok, refuse-eq-ok, >>=-eq-ok, or_false,
}
use interspec_typed_allocato.Prelude.Integers.{ℤ, pos, pos_part, ltb_ℤ}
use interspec_typed_allocato.Policy.{Allocation, AccessUse, HelperSite, Policy, Boundary}
use interspec_typed_allocato.Compose.{extend_types, prepare_wasm_policy}
use interspec_typed_allocato.Compose.Laws.{Extends, extend_types-Extends}
use interspec_typed_allocato.TypeIds.{number_types, names_of, check_hashes}
use interspec_typed_allocato.TypeIds.Numbering.{DistinctHashes}
use interspec_typed_allocato.TypeIds.Accepted.{check_hashes-DistinctHashes}
use interspec_typed_allocato.Sites.{sort_sites}
use interspec_typed_allocato.NativeHeaders.{newline}
use interspec_typed_allocato.WasmSites.{
  SiteRecord, site_records, number_precise, instrument_wasm_sites,
}
use interspec_typed_allocato.WasmSites.Records.{
  HasSite, AllRecords, types_of, expected_types, site_records-AllRecords,
}
use interspec_typed_allocato.Instrument.Sequence.{AllFound}
use interspec_typed_allocato.WasmSites.Located.{wasm_text, instrument_wasm_sites-AllFound}
use interspec_typed_allocato.WasmSites.Distinct.{PairwiseDiffer, site_records-PairwiseDiffer}
use interspec_typed_allocato.WasmHeaders.{
  wasm_extent, wasm_u_header_lines, wasm_access_lines, wasm_t_header_lines, host_import_lines,
}
use interspec_typed_allocato.WasmBoundary.{
  check_allocation_types, check_helper_types, generate_t_header, WasmOutput, generate_wasm_boundary,
}

module _ (types : List Text) where
  allocation_types-Known :
      (allocations : List Allocation)
      → check_allocation_types types allocations ≡ ok tt
      → All (λ (a : Allocation). contains types a.type ≡ true) allocations
  unfolding check_allocation_types
  allocation_types-Known [] h = tt
  allocation_types-Known (a ∷ rest) h =
      let (k, more) = require-eq-ok (contains types a.type) (unknown_allocation_type a.type) _ h in
      (k, allocation_types-Known rest more)

  helper_types-Known :
      (helpers : List HelperSite)
      → check_helper_types types helpers ≡ ok tt
      → All (λ (helper : HelperSite). contains types helper.type ≡ true) helpers
  unfolding check_helper_types
  helper_types-Known [] h = tt
  helper_types-Known (helper ∷ rest) h =
      let (k, more) =
        require-eq-ok (contains types helper.type) (unknown_helper_type helper.type) _ h in
      (k, helper_types-Known rest more)

  -- A use of a known type with an offset and an extent that are not negative.
  pub record IsWasmAccess (u : AccessUse) : Type 0 where
    pub known : contains types u.type ≡ true
    pub offset_nonneg : ltb_ℤ u.offset (pos 0) ≡ false
    pub extent_nonneg : ltb_ℤ (wasm_extent u) (pos 0) ≡ false

  wasm_access_lines-IsWasmAccess :
      (uses : List AccessUse) {lines : List Text}
      → wasm_access_lines types uses ≡ ok lines
      → All IsWasmAccess uses
  unfolding wasm_access_lines
  wasm_access_lines-IsWasmAccess [] h = tt
  wasm_access_lines-IsWasmAccess (u ∷ uses) h =
      let (k, h₁) = require-eq-ok (contains types u.type) (unknown_use_type u.type) _ h in
      let (t, h₂) =
        refuse-eq-ok (ltb_ℤ u.offset (pos 0) || ltb_ℤ (wasm_extent u) (pos 0))
          (negative_range u.name) _ h₁ in
      let (o, e) = or_false (ltb_ℤ u.offset (pos 0)) (ltb_ℤ (wasm_extent u) (pos 0)) t in
      let (rest, more, _) = >>=-eq-ok (wasm_access_lines types uses) _ h₂ in
      (
        record { known = k; offset_nonneg = o; extent_nonneg = e },
        wasm_access_lines-IsWasmAccess uses more,
      )

-- The outputs for a policy whose types are extended already.
pub record IsWasmGenerated (policy : Policy) (source namespace_name : Text) (boundary : Boundary)
    (base : ℤ) (output : WasmOutput) : Type 0 where
  pub allocations_known :
      All (λ (a : Allocation). contains policy.types a.type ≡ true) policy.allocations
  pub helpers_known :
      All (λ (helper : HelperSite). contains policy.types helper.type ≡ true) boundary.helper_sites
  pub uses_valid : All (IsWasmAccess policy.types) policy.uses
  pub precise : All HasSite policy.allocations
  pub records : List SiteRecord
  pub records_are : AllRecords namespace_name (pos_part base) 1 records
  pub hashes_distinct : DistinctHashes (names_of (number_types 1 [] policy.types))
  pub types_are : types_of records ≡ expected_types policy.allocations boundary.helper_sites
  pub distinct : PairwiseDiffer records
  pub u_header_is :
      output.u_header ≡ join newline (wasm_u_header_lines (number_types 1 [] policy.types) records)
  pub accesses : List Text
  pub accesses_are : wasm_access_lines policy.types policy.uses ≡ ok accesses
  pub t_header_is :
      output.t_header
      ≡ join newline (
          wasm_t_header_lines
            (number_types 1 [] policy.types)
            records
            (length policy.allocations)
            namespace_name
            base
            accesses)
  pub all_found :
      AllFound
        (wasm_text namespace_name)
        source
        source
        (length source)
        (sort_sites (number_precise 1 policy.allocations))
        output.source
  pub host_imports_are : output.host_imports ≡ join newline (host_import_lines records)

output_injective : {x y : WasmOutput} → ok x ≡ ok y → x ≡ y
output_injective {x} h = ap (λ (r : Result WasmOutput). elim r [ ok a ↦ a | err _ ↦ x ]) h

policy_injective : {x y : Policy} → ok x ≡ ok y → x ≡ y
policy_injective {x} h = ap (λ (r : Result Policy). elim r [ ok a ↦ a | err _ ↦ x ]) h

text_injective : {x y : Text} → ok x ≡ ok y → x ≡ y
text_injective {x} h = ap (λ (r : Result Text). elim r [ ok a ↦ a | err _ ↦ x ]) h

-- The header of T, once the hashes and the accesses have passed.
t_header_passes :
    (policy : Policy) (records : List SiteRecord) (count : ℕ) (namespace_name : Text) (base : ℤ)
    {header : Text}
    → generate_t_header policy records count namespace_name base ≡ ok header
    → DistinctHashes (names_of (number_types 1 [] policy.types))
      × (accesses : List Text) × (wasm_access_lines policy.types policy.uses ≡ ok accesses)
      × (header
          ≡ join newline (
              wasm_t_header_lines
                (number_types 1 [] policy.types)
                records
                count
                namespace_name
                base
                accesses))
unfolding generate_t_header
t_header_passes policy records count namespace_name base h =
    let names = names_of (number_types 1 [] policy.types) in
    let (_, c, h₁) = >>=-eq-ok (check_hashes [] names) _ h in
    let (accesses, a, h₂) = >>=-eq-ok (wasm_access_lines policy.types policy.uses) _ h₁ in
    ((check_hashes-DistinctHashes names [] c).1, accesses, a, sym (text_injective h₂))

module _ (unicode_alnum : ℕ → Bool) where
  -- The WebAssembly generator succeeds only where the boundary's types extend the policy's, every
  -- allocation has a site, all types are known and differ in their hashes, and no use has a negative offset or extent. Its
  -- records are then those of the allocations and the helpers, with numbers, imports and functions
  -- of their own, and the headers of T and U and the host's imports are made of these records. In the
  -- source each allocation, in the order of the sorted sites, has a call of `malloc` at its place of the
  -- given source that is replaced by the call of the import with the allocation's number.
  pub generate_wasm_boundary-IsWasmGenerated :
      (policy : Policy) (source namespace_name : Text) (boundary : Boundary) (base : ℤ)
      {output : WasmOutput}
      → generate_wasm_boundary unicode_alnum policy source namespace_name boundary base ≡ ok output
      → (types : List Text) × Extends policy.types boundary.types types
        × IsWasmGenerated
            (record policy { types = types })
            source
            namespace_name
            boundary
            base
            output
  unfolding generate_wasm_boundary prepare_wasm_policy
  generate_wasm_boundary-IsWasmGenerated policy source namespace_name boundary base {output} h =
      let (prepared, p, h₁) = >>=-eq-ok (prepare_wasm_policy policy boundary) _ h in
      let (types, x, p') = >>=-eq-ok (extend_types policy.types boundary.types) _ p in
      let (_, c, h₂) =
        >>=-eq-ok (check_allocation_types prepared.types prepared.allocations) _ h₁ in
      let (_, c', h₃) = >>=-eq-ok (check_helper_types prepared.types boundary.helper_sites) _ h₂ in
      let (records, r, h₄) =
        >>=-eq-ok (site_records namespace_name base 1 prepared.allocations boundary.helper_sites) _
          h₃ in
      let (instrumented, i, h₅) =
        >>=-eq-ok
          (instrument_wasm_sites unicode_alnum namespace_name source
            (sort_sites (number_precise 1 prepared.allocations)))
          _ h₄ in
      let (t_header, t, h₆) =
        >>=-eq-ok
          (generate_t_header prepared records (length prepared.allocations) namespace_name base) _
          h₅ in
      let made = output_injective h₆ in
      let (s, rs, ts) =
        site_records-AllRecords namespace_name base prepared.allocations boundary.helper_sites 1
          r in
      let (distinct, accesses, a, header) =
        t_header_passes prepared records (length prepared.allocations) namespace_name base t in
      let generated : IsWasmGenerated prepared source namespace_name boundary base output = record {
        allocations_known = allocation_types-Known prepared.types prepared.allocations c;
        helpers_known = helper_types-Known prepared.types boundary.helper_sites c';
        uses_valid = wasm_access_lines-IsWasmAccess prepared.types prepared.uses a;
        accesses = accesses;
        accesses_are = a;
        t_header_is = sym (ap (λ (o : WasmOutput). o.t_header) made) ∙ header;
        hashes_distinct = distinct;
        precise = s;
        records = records;
        records_are = rs;
        types_are = ts;
        distinct =
            site_records-PairwiseDiffer namespace_name base prepared.allocations
              boundary.helper_sites 1 r;
        u_header_is = sym (ap (λ (o : WasmOutput). o.u_header) made);
        all_found =
            subst
              (λ text.
                AllFound (wasm_text namespace_name) source source (length source)
                  (sort_sites (number_precise 1 prepared.allocations)) text)
              (ap (λ (o : WasmOutput). o.source) made)
              (instrument_wasm_sites-AllFound unicode_alnum namespace_name source
                (number_precise 1 prepared.allocations) i);
        host_imports_are = sym (ap (λ (o : WasmOutput). o.host_imports) made);
      } in
      (
        types,
        extend_types-Extends boundary.types policy.types x,
        subst (λ q. IsWasmGenerated q source namespace_name boundary base output)
            (sym (policy_injective p')) generated,
      )
