-- ===== src/WasmHeaders.antt =====
-- The headers and the host wrappers of tools/generate_wasm_boundary_policy.py, line by line.
use interspec_typed_allocato.Prelude.{
  ℕ, ◌-◌, Bool, true, false, ◌||◌, Option, none, some, List, [], ◌∷◌, ◌++◌, map, Text, codes,
  concat, contains, same, decimal, length, if◌then◌else◌, unknown_use_type, negative_range, Result,
  ok, ◌>>=◌, ◌>>◌, require, refuse,
}
use interspec_typed_allocato.Prelude.Integers.{ℤ, pos, ltb_ℤ, decimal_ℤ}
use interspec_typed_allocato.Names.{cpp}
use interspec_typed_allocato.Policy.{AccessUse}
use interspec_typed_allocato.TypeIds.{Ids}
use interspec_typed_allocato.NativeHeaders.{
  type_id_lines, type_constant_lines, register_type_lines, use_lines,
}
use interspec_typed_allocato.WasmSites.{SiteRecord, helper_macro}

abbrev u_opening : List Text
u_opening = map codes (
    "#pragma once" ∷ "" ∷ "#include <stdint.h>" ∷ "" ∷ "#if defined(__wasm__)"
    ∷ "#  define INTERSPEC_WASM_IMPORT(_module, _name) \\"
    ∷ "    __attribute__((import_module(_module), import_name(_name)))" ∷ "#else"
    ∷ "#  define INTERSPEC_WASM_IMPORT(_module, _name)" ∷ "#endif" ∷ "" ∷ [])

abbrev u_closing : List Text
u_closing = map codes (
    "extern uint32_t interspec_wasm_release(uint32_t ptr)"
    ∷ "  INTERSPEC_WASM_IMPORT(\"env\", \"interspecWasmRelease\");"
    ∷ "extern uint32_t interspec_wasm_size(uint32_t ptr)"
    ∷ "  INTERSPEC_WASM_IMPORT(\"env\", \"interspecWasmSize\");"
    ∷ "extern uint32_t interspec_wasm_reallocate(uint32_t ptr, uint32_t size)"
    ∷ "  INTERSPEC_WASM_IMPORT(\"env\", \"interspecWasmReallocate\");" ∷ "" ∷ [])

abbrev helper_lines : SiteRecord → Option Text → List Text
helper_lines r none = []
helper_lines r (some name) =
    concat (codes "#define " ∷ helper_macro name ∷ codes "(_size) \\" ∷ [])
    ∷ concat (codes "  " ∷ r.c_name ∷ codes "((uint32_t)(_size))" ∷ [])
    ∷ []

-- The import of each record, and the macro of a helper.
unfoldable pub import_lines : List SiteRecord → List Text
unfolding helper_macro
import_lines [] = []
import_lines (r ∷ records) =
    concat (codes "extern uint32_t " ∷ r.c_name ∷ codes "(uint32_t size)" ∷ [])
    ∷ concat (codes "  INTERSPEC_WASM_IMPORT(\"env\", \"" ∷ r.import_name ∷ codes "\");" ∷ [])
    ∷ (helper_lines r r.helper_name ++ ([] ∷ import_lines records))

unfoldable pub wasm_u_header_lines : Ids → List SiteRecord → List Text
unfolding import_lines type_id_lines
wasm_u_header_lines ids records =
    concat (u_opening ∷ type_id_lines ids ∷ ([] ∷ []) ∷ import_lines records ∷ u_closing ∷ [])

abbrev t_opening : Text → List Text
t_opening namespace_name = concat (
    map codes
      ("#pragma once" ∷ "" ∷ "#include \"interspec/runtime.h\"" ∷ "#include <limits>" ∷ "" ∷ [])
    ∷ (concat (codes "namespace " ∷ namespace_name ∷ codes " {" ∷ []) ∷ [])
    ∷ map codes (
        "" ∷ "struct AccessPolicy {" ∷ "  uint64_t type_hash;" ∷ "  size_t offset;"
        ∷ "  size_t bytes;" ∷ "};" ∷ "" ∷ "struct WasmAllocationSitePolicy {" ∷ "  SiteId site_id;"
        ∷ "  TypeId type_id;" ∷ "  const char* import_name;" ∷ "  bool helper;" ∷ "};" ∷ "" ∷ [])
    ∷ [])

abbrev is_helper : Option Text → Bool
is_helper none = false
is_helper (some _) = true

unfoldable pub record_entries : List SiteRecord → List Text
unfolding cpp decimal
record_entries [] = []
record_entries (r ∷ records) =
    concat (
      codes "  {"
      ∷ decimal r.site_id
      ∷ codes ", kTypeId"
      ∷ cpp r.type
      ∷ codes ", "
      ∷ codes "\""
      ∷ r.import_name
      ∷ codes "\", "
      ∷ (if is_helper r.helper_name then codes "true" else codes "false")
      ∷ codes "},"
      ∷ [])
    ∷ record_entries records

unfoldable pub record_table : List SiteRecord → List Text
unfolding record_entries
record_table [] = []
record_table (r ∷ records) =
    codes "constexpr WasmAllocationSitePolicy kWasmAllocationSites[] = {"
    ∷ (record_entries (r ∷ records) ++ map codes ("};" ∷ "" ∷ []))

abbrev registration_loop : List SiteRecord → List Text
registration_loop [] = []
registration_loop (_ ∷ _) = map codes (
    "  for (const auto& site : kWasmAllocationSites) {"
    ∷ "    if (!runtime.register_allocation_site_id(site.site_id, site.type_id))"
    ∷ "      return false;" ∷ "  }" ∷ [])

abbrev default_zero : Option ℤ → ℤ
default_zero none = pos 0
default_zero (some n) = n

-- `0 if dynamic else int(use.get("bytes", 0))`
unfoldable pub wasm_extent : AccessUse → ℤ
wasm_extent u = if u.dynamic_bytes then pos 0 else default_zero u.bytes

unfoldable pub wasm_access_lines : List Text → List AccessUse → Result (List Text)
unfolding use_lines same wasm_extent
wasm_access_lines types [] = ok []
wasm_access_lines types (u ∷ uses) = do
  require (contains types u.type) (unknown_use_type u.type)
  let size = wasm_extent u
  refuse (ltb_ℤ u.offset (pos 0) || ltb_ℤ size (pos 0)) (negative_range u.name)
  rest ← wasm_access_lines types uses
  ok (use_lines u size ++ rest)

abbrev count_line : Text → ℕ → List Text
count_line name count =
    concat (codes "constexpr size_t " ∷ name ∷ codes " = " ∷ decimal count ∷ codes ";" ∷ []) ∷ []

abbrev t_closing : Text → List Text
t_closing namespace_name = concat (
    map codes (
      "" ∷ "inline CheckResult check(const Runtime& runtime, uintptr_t base,"
      ∷ "                         size_t dynamic_bytes, AccessPolicy policy)" ∷ "{"
      ∷ "  const size_t bytes = policy.bytes ? policy.bytes : dynamic_bytes;"
      ∷ "  if (policy.offset > std::numeric_limits<size_t>::max() - bytes)"
      ∷ "    return CheckResult::out_of_bounds;"
      ∷ "  return runtime.check(base, policy.offset + bytes, policy.type_hash);" ∷ "}" ∷ "" ∷ [])
    ∷ (concat (codes "}  // namespace " ∷ namespace_name ∷ []) ∷ [])
    ∷ ([] ∷ [])
    ∷ [])

unfoldable pub wasm_t_header_lines : Ids → List SiteRecord → ℕ → Text → ℤ → List Text → List Text
unfolding type_constant_lines register_type_lines record_table
wasm_t_header_lines ids records precise_count namespace_name site_id_base accesses = concat (
    t_opening namespace_name
    ∷ type_constant_lines ids
    ∷ ([]
        ∷ concat (
            codes "constexpr SiteId kWasmSiteIdBase = UINT32_C("
            ∷ decimal_ℤ site_id_base
            ∷ codes ");"
            ∷ [])
        ∷ map codes
            ("" ∷ "inline bool register_types(Runtime& runtime)" ∷ "{" ∷ "  bool ok = true;" ∷ []))
    ∷ register_type_lines ids
    ∷ map codes ("  return ok;" ∷ "}" ∷ "" ∷ [])
    ∷ count_line (codes "kWasmPreciseAllocationSiteCount") precise_count
    ∷ count_line (codes "kWasmHelperAllocationSiteCount") (length records - precise_count)
    ∷ count_line (codes "kWasmAllocationSiteCount") (length records)
    ∷ record_table records
    ∷ map codes ("inline bool register_wasm_allocation_policy(Runtime& runtime)" ∷ "{" ∷ [])
    ∷ registration_loop records
    ∷ map codes ("  return true;" ∷ "}" ∷ "" ∷ [])
    ∷ accesses
    ∷ t_closing namespace_name
    ∷ [])

unfoldable pub host_wrappers : List SiteRecord → List Text
unfolding decimal
host_wrappers [] = []
host_wrappers (r ∷ records) =
    concat (
      codes "uint32_t w2c_env_" ∷ r.import_name ∷ codes "(struct w2c_env* env, uint32_t size)" ∷ [])
    ∷ codes "{"
    ∷ codes "  if (!env || !env->interspec_allocate) return 0;"
    ∷ concat (
        codes "  return env->interspec_allocate(env->interspec_context, UINT32_C("
        ∷ decimal r.site_id
        ∷ codes "), size);"
        ∷ [])
    ∷ codes "}"
    ∷ []
    ∷ host_wrappers records

unfoldable pub host_import_lines : List SiteRecord → List Text
unfolding host_wrappers
host_import_lines records = concat (
    map codes ("#include \"wasm2c_rt_mem.h\"" ∷ "" ∷ "#include <stdint.h>" ∷ "" ∷ [])
    ∷ host_wrappers records
    ∷ map codes (
        "uint32_t w2c_env_interspecWasmRelease(struct w2c_env* env, uint32_t ptr)" ∷ "{"
        ∷ "  if (!env || !env->interspec_release) return 0;"
        ∷ "  return env->interspec_release(env->interspec_context, ptr);" ∷ "}" ∷ ""
        ∷ "uint32_t w2c_env_interspecWasmSize(struct w2c_env* env, uint32_t ptr)" ∷ "{"
        ∷ "  if (!env || !env->interspec_size) return 0;"
        ∷ "  return env->interspec_size(env->interspec_context, ptr);" ∷ "}" ∷ ""
        ∷ "uint32_t w2c_env_interspecWasmReallocate(struct w2c_env* env, uint32_t ptr, uint32_t size)"
        ∷ "{" ∷ "  if (!env || !env->interspec_reallocate) return 0;"
        ∷ "  return env->interspec_reallocate(env->interspec_context, ptr, size);" ∷ "}" ∷ "" ∷ [])
    ∷ [])
