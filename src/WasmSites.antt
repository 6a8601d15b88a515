-- ===== src/WasmSites.antt =====
-- The site records of tools/generate_wasm_boundary_policy.py, and the instrumentation of a site.
pub mod Records
pub mod Distinct
pub mod Located
use interspec_typed_allocato.Prelude.{
  ℕ, zero, suc, ◌+◌, ◌-◌, ◌^◌, Bool, true, false, ◌||◌, Option, none, some, List, [], ◌∷◌, ◌++◌,
  map, Text, codes, concat, contains, same, decimal, length, within, ltb, ◌==◌, if◌then◌else◌,
  Error, empty_namespace, bad_site_base, site_id_overflow, imprecise_allocation, duplicate_helper,
  Result, ok, err, ◌>>=◌, ◌>>◌, require, refuse,
}
use interspec_typed_allocato.Prelude.Integers.{ℤ, pos, negsuc}
use interspec_typed_allocato.Names.{symbol, cpp, macro}
use interspec_typed_allocato.Location.{source_offset}
use interspec_typed_allocato.MallocCall.{is_nonempty, Call}
use interspec_typed_allocato.Policy.{Site, Allocation, HelperSite}
use interspec_typed_allocato.Sites.{Precise}
use interspec_typed_allocato.Instrument.{splice, locate_call}

abbrev pub max_site_id : ℕ
max_site_id = 2 ^ 32 - 1

-- `.lower()` at an ASCII character.
unfoldable pub lower : ℕ → ℕ
lower c = if within b'A' b'Z' c then c + 32 else c

unfoldable pub c_stem : Text → Text
unfolding symbol lower
c_stem namespace_name = map lower (symbol namespace_name)

unfoldable pub import_stem : Text → Result Text
unfolding cpp
import_stem namespace_name = do
  let value = cpp namespace_name
  require (is_nonempty value) empty_namespace
  ok value

unfoldable pub site_import_name : Text → ℕ → Result Text
unfolding import_stem
site_import_name namespace_name local_site_id = do
  stem ← import_stem namespace_name
  ok (codes "interspecWasmAlloc" ++ (stem ++ (codes "Site" ++ decimal local_site_id)))

unfoldable pub site_c_name : Text → ℕ → Text
unfolding c_stem
site_c_name namespace_name local_site_id =
    codes "interspec_wasm_alloc_"
    ++ (c_stem namespace_name ++ (codes "_site_" ++ decimal local_site_id))

unfoldable pub helper_macro : Text → Text
unfolding macro
helper_macro name = concat (codes "INTERSPEC_SITE_" ∷ macro name ∷ codes "_ALLOC" ∷ [])

unfoldable pub runtime_site_id : ℤ → ℕ → Result ℕ
runtime_site_id (negsuc n) local_site_id = err bad_site_base
runtime_site_id (pos base) local_site_id = do
  refuse (ltb max_site_id base) bad_site_base
  let site_id = base + local_site_id
  refuse (site_id == 0 || ltb max_site_id site_id) site_id_overflow
  ok site_id

-- `helper_name` is there where the entry `helper` is true.
pub record SiteRecord : Type 0 where
  pub site_id : ℕ
  pub local_site_id : ℕ
  pub type : Text
  pub import_name : Text
  pub c_name : Text
  pub helper_name : Option Text

module _ (namespace_name : Text) (site_id_base : ℤ) where
  -- One record, for a site or a helper.
  unfoldable pub site_record : ℕ → Text → Option Text → Result SiteRecord
  unfolding runtime_site_id site_import_name
  site_record local_site_id type_name helper_name = do
    site_id ← runtime_site_id site_id_base local_site_id
    import_name ← site_import_name namespace_name local_site_id
    ok (record {
      site_id = site_id;
      local_site_id = local_site_id;
      type = type_name;
      import_name = import_name;
      c_name = site_c_name namespace_name local_site_id;
      helper_name = helper_name;
    })

  -- The helpers, behind the sites; `seen` are the names so far.
  unfoldable pub helper_records : List Text → ℕ → List HelperSite → Result (List SiteRecord)
  unfolding same
  helper_records seen next [] = ok []
  helper_records seen next (helper ∷ rest) = do
    refuse (contains seen helper.name) (duplicate_helper helper.name)
    r ← site_record next helper.type (some helper.name)
    more ← helper_records (helper.name ∷ seen) (suc next) rest
    ok (r ∷ more)

  unfoldable pub site_records : ℕ → List Allocation → List HelperSite → Result (List SiteRecord)
  site_records next [] helpers = helper_records [] next helpers
  site_records next (a ∷ rest) helpers = elim a.site [
    | none ↦ err imprecise_allocation
    | some _ ↦ site_record next a.type none >>= λ r.
        site_records (suc next) rest helpers >>= λ more. ok (r ∷ more)
  ]

-- `list(enumerate(policy["allocations"], start=1))`, of the allocations with a site: all of them,
-- once `site_records` has passed.
unfoldable pub number_precise : ℕ → List Allocation → List Precise
number_precise next [] = []
number_precise next (a ∷ rest) = elim a.site [
  | none ↦ number_precise next rest
  | some site ↦
      record { allocation = a; site = site; site_id = next } ∷ number_precise (suc next) rest
]

unfoldable pub wasm_replacement : Text → Text → ℕ → Text
wasm_replacement size_expr namespace_name local_site_id = concat (
    codes "(void*)(uintptr_t)"
    ∷ site_c_name namespace_name local_site_id
    ∷ codes "((uint32_t)("
    ∷ size_expr
    ∷ codes "))"
    ∷ [])

module _ (unicode_alnum : ℕ → Bool) (namespace_name : Text) where
  unfoldable pub instrument_wasm_site : Text → Allocation → Site → ℕ → Result Text
  unfolding source_offset locate_call wasm_replacement
  instrument_wasm_site source allocation site local_site_id = do
    anchor_start ← source_offset source site.start_line site.start_column false
    anchor_end ← source_offset source site.end_line site.end_column true
    call ← locate_call unicode_alnum source allocation anchor_start anchor_end
    ok (
        splice source call.start call.end
          (wasm_replacement call.argument namespace_name local_site_id))

  unfoldable pub instrument_wasm_sites : Text → List Precise → Result Text
  instrument_wasm_sites source [] = ok source
  instrument_wasm_sites source (p ∷ rest) = do
    source' ← instrument_wasm_site source p.allocation p.site p.site_id
    instrument_wasm_sites source' rest
