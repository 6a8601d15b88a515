-- ===== src/WasmBoundary.antt =====
-- `generate_wasm_boundary` of tools/generate_wasm_boundary_policy.py.
pub mod Laws
use interspec_typed_allocato.Prelude.{
  ℕ, Bool, List, [], ◌∷◌, Text, contains, same, join, length, unknown_allocation_type,
  unknown_helper_type, Result, ok, ◌>>=◌, ◌>>◌, require,
}
use interspec_typed_allocato.Prelude.Integers.{ℤ}
use interspec_typed_allocato.Policy.{Allocation, HelperSite, Policy, Boundary}
use interspec_typed_allocato.Compose.{prepare_wasm_policy}
use interspec_typed_allocato.TypeIds.{number_types, names_of, check_hashes}
use interspec_typed_allocato.Sites.{sort_sites}
use interspec_typed_allocato.NativeHeaders.{newline}
use interspec_typed_allocato.WasmSites.{
  SiteRecord, site_records, number_precise, instrument_wasm_sites,
}
use interspec_typed_allocato.WasmHeaders.{
  wasm_u_header_lines, wasm_access_lines, wasm_t_header_lines, host_import_lines,
}

unfoldable pub check_allocation_types : List Text → List Allocation → Result (Unit {0})
unfolding same
check_allocation_types types [] = ok tt
check_allocation_types types (a ∷ rest) = do
  require (contains types a.type) (unknown_allocation_type a.type)
  check_allocation_types types rest

unfoldable pub check_helper_types : List Text → List HelperSite → Result (Unit {0})
unfolding same
check_helper_types types [] = ok tt
check_helper_types types (helper ∷ rest) = do
  require (contains types helper.type) (unknown_helper_type helper.type)
  check_helper_types types rest

unfoldable pub generate_t_header : Policy → List SiteRecord → ℕ → Text → ℤ → Result Text
unfolding number_types check_hashes
generate_t_header policy records precise_count namespace_name site_id_base = do
  let ids = number_types 1 [] policy.types
  check_hashes [] (names_of ids)
  accesses ← wasm_access_lines policy.types policy.uses
  ok (
      join newline
        (wasm_t_header_lines ids records precise_count namespace_name site_id_base accesses))

pub record WasmOutput : Type 0 where
  pub source : Text
  pub u_header : Text
  pub t_header : Text
  pub host_imports : Text

unfoldable pub generate_wasm_boundary :
    (ℕ → Bool) → Policy → Text → Text → Boundary → ℤ → Result WasmOutput
unfolding prepare_wasm_policy check_allocation_types check_helper_types site_records
    generate_t_header
generate_wasm_boundary unicode_alnum policy source namespace_name boundary site_id_base = do
  prepared ← prepare_wasm_policy policy boundary
  check_allocation_types prepared.types prepared.allocations
  check_helper_types prepared.types boundary.helper_sites
  records ← site_records namespace_name site_id_base 1 prepared.allocations boundary.helper_sites
  instrumented ←
      instrument_wasm_sites unicode_alnum namespace_name source
        (sort_sites (number_precise 1 prepared.allocations))
  t_header ←
      generate_t_header prepared records (length prepared.allocations) namespace_name site_id_base
  ok (record {
    source = instrumented;
    u_header = join newline (wasm_u_header_lines (number_types 1 [] prepared.types) records);
    t_header = t_header;
    host_imports = join newline (host_import_lines records);
  })
