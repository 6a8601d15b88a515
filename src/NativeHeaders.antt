-- ===== src/NativeHeaders.antt =====
-- The two headers that `generate` in tools/generate_policy.py writes, line by line.
use interspec_typed_allocato.Prelude.{
  ℕ, ◌||◌, List, [], ◌∷◌, ◌++◌, map, Text, codes, concat, contains, decimal, length, same,
  unknown_use_type, negative_range, missing_key, Result, ok, ◌>>=◌, ◌>>◌, require, refuse,
  from_option,
}
use interspec_typed_allocato.Prelude.Integers.{ℤ, pos, ltb_ℤ, decimal_ℤ}
use interspec_typed_allocato.Hash.{hash_type}
use interspec_typed_allocato.Names.{macro, cpp}
use interspec_typed_allocato.Policy.{AccessUse}
use interspec_typed_allocato.TypeIds.{Ids}
use interspec_typed_allocato.Sites.{Precise}
use interspec_typed_allocato.Instrument.{begin_symbol, end_symbol}

abbrev pub newline : Text
newline = b'\n' ∷ []

-- One `#define` for each type; the wasm2c generator writes the same.
unfoldable pub type_id_lines : Ids → List Text
unfolding macro decimal
type_id_lines [] = []
type_id_lines ((name, type_id) ∷ ids) =
    concat (
      codes "#define INTERSPEC_TYPE_ID_"
      ∷ macro name
      ∷ codes " UINT32_C("
      ∷ decimal type_id
      ∷ codes ")"
      ∷ [])
    ∷ type_id_lines ids

unfoldable pub u_header_lines : Ids → List Text
unfolding type_id_lines
u_header_lines ids =
    map codes (
      "#pragma once" ∷ "" ∷ "#include <stdint.h>" ∷ "#include \"interspec_site_allocator.h\"" ∷ ""
      ∷ [])
    ++ (type_id_lines ids ++ ([] ∷ []))

-- The two constants of each type.
unfoldable pub type_constant_lines : Ids → List Text
unfolding cpp decimal
type_constant_lines [] = []
type_constant_lines ((name, type_id) ∷ ids) =
    concat
      (codes "constexpr TypeId kTypeId" ∷ cpp name ∷ codes " = " ∷ decimal type_id ∷ codes ";" ∷ [])
    ∷ concat (
        codes "constexpr uint64_t kTypeHash"
        ∷ cpp name
        ∷ codes " = UINT64_C("
        ∷ decimal (hash_type name)
        ∷ codes ");"
        ∷ [])
    ∷ type_constant_lines ids

unfoldable pub register_type_lines : Ids → List Text
unfolding cpp
register_type_lines [] = []
register_type_lines ((name, type_id) ∷ ids) =
    concat (
      codes "  ok = runtime.register_type(kTypeId"
      ∷ cpp name
      ∷ codes ", kTypeHash"
      ∷ cpp name
      ∷ codes ") && ok;"
      ∷ [])
    ∷ register_type_lines ids

-- A row of the table of sites: number, type, and the two labels.
unfoldable pub site_entry : ℕ → Text → Text → Text → Text
unfolding cpp decimal
site_entry site_id type_name begin end = concat (
    codes "  {"
    ∷ decimal site_id
    ∷ codes ", kTypeId"
    ∷ cpp type_name
    ∷ codes ", \""
    ∷ begin
    ∷ codes "\", \""
    ∷ end
    ∷ codes "\"},"
    ∷ [])

unfoldable pub site_entries : List Precise → List Text
unfolding site_entry begin_symbol end_symbol
site_entries [] = []
site_entries (p ∷ rest) =
    site_entry p.site_id p.allocation.type (begin_symbol p.allocation.function p.site_id)
      (end_symbol p.allocation.function p.site_id)
    ∷ site_entries rest

unfoldable pub site_table : List Precise → List Text
unfolding site_entries
site_table [] = map codes (
    "template<typename Resolver>" ∷ "inline bool register_allocation_sites(Runtime&, Resolver)"
    ∷ "{" ∷ "  return true;" ∷ "}" ∷ "" ∷ [])
site_table (p ∷ rest) =
    codes "constexpr AllocationSitePolicy kAllocationSites[] = {"
    ∷ (site_entries (p ∷ rest)
        ++ map codes (
            "};" ∷ "" ∷ "template<typename Resolver>"
            ∷ "inline bool register_allocation_sites(Runtime& runtime, Resolver resolve)" ∷ "{"
            ∷ "  for (const auto& site : kAllocationSites) {"
            ∷ "    const uintptr_t begin = resolve(site.begin_symbol);"
            ∷ "    const uintptr_t end = resolve(site.end_symbol);" ∷ "    if (!begin || !end ||"
            ∷ "        !runtime.register_allocation_site(site.site_id, begin, end, site.type_id))"
            ∷ "      return false;" ∷ "  }" ∷ "  return true;" ∷ "}" ∷ "" ∷ []))

-- The access policy of one use, with the extent that the generator has chosen.
unfoldable pub use_lines : AccessUse → ℤ → List Text
unfolding cpp decimal_ℤ
use_lines u size =
    concat (codes "constexpr AccessPolicy kUse" ∷ cpp u.name ∷ codes "{" ∷ [])
    ∷ concat (
        codes "  kTypeHash"
        ∷ cpp u.type
        ∷ codes ", "
        ∷ decimal_ℤ u.offset
        ∷ codes ", "
        ∷ decimal_ℤ size
        ∷ codes "};"
        ∷ [])
    ∷ []

-- The loop over `policy["uses"]`.
unfoldable pub access_lines : List Text → List AccessUse → Result (List Text)
unfolding use_lines same
access_lines types [] = ok []
access_lines types (u ∷ uses) = do
  require (contains types u.type) (unknown_use_type u.type)
  size ← from_option (missing_key (codes "bytes")) u.bytes
  refuse (ltb_ℤ u.offset (pos 0) || ltb_ℤ size (pos 0)) (negative_range u.name)
  rest ← access_lines types uses
  ok (use_lines u size ++ rest)

abbrev t_opening : List Text
t_opening = map codes (
    "#pragma once" ∷ "" ∷ "#include \"interspec/runtime.h\"" ∷ "#include <limits>" ∷ ""
    ∷ "namespace interspec::generated {" ∷ "" ∷ "struct AccessPolicy {" ∷ "  uint64_t type_hash;"
    ∷ "  size_t offset;" ∷ "  size_t bytes;" ∷ "};" ∷ "" ∷ "struct CheckedAccess {"
    ∷ "  CheckResult result;" ∷ "  uintptr_t address;" ∷ "  size_t bytes;" ∷ "};" ∷ ""
    ∷ "struct AllocationSitePolicy {" ∷ "  SiteId site_id;" ∷ "  TypeId type_id;"
    ∷ "  const char* begin_symbol;" ∷ "  const char* end_symbol;" ∷ "};" ∷ "" ∷ [])

abbrev t_closing : List Text
t_closing = map codes (
    "" ∷ "inline CheckedAccess checked_access(const Runtime& runtime,"
    ∷ "                                    uintptr_t base,"
    ∷ "                                    AccessPolicy policy)" ∷ "{"
    ∷ "  if (policy.offset > std::numeric_limits<size_t>::max() - policy.bytes)"
    ∷ "    return {CheckResult::out_of_bounds, 0, 0};"
    ∷ "  const size_t extent = policy.offset + policy.bytes;"
    ∷ "  const CheckResult result = runtime.check(base, extent, policy.type_hash);"
    ∷ "  if (result != CheckResult::ok) return {result, 0, 0};"
    ∷ "  return {result, base + policy.offset, policy.bytes};" ∷ "}" ∷ ""
    ∷ "inline CheckResult check(const Runtime& runtime, uintptr_t base, AccessPolicy policy)" ∷ "{"
    ∷ "  return checked_access(runtime, base, policy).result;" ∷ "}" ∷ ""
    ∷ "}  // namespace interspec::generated" ∷ "" ∷ [])

unfoldable pub t_header_lines : Ids → List Precise → List Text → List Text
unfolding type_constant_lines register_type_lines site_table
t_header_lines ids sites accesses = concat (
    t_opening
    ∷ type_constant_lines ids
    ∷ map codes
        ("" ∷ "inline bool register_types(Runtime& runtime)" ∷ "{" ∷ "  bool ok = true;" ∷ [])
    ∷ register_type_lines ids
    ∷ map codes ("  return ok;" ∷ "}" ∷ "" ∷ [])
    ∷ (concat (
          codes "constexpr size_t kAllocationSiteCount = "
          ∷ decimal (length sites)
          ∷ codes ";"
          ∷ [])
        ∷ [])
    ∷ site_table sites
    ∷ accesses
    ∷ t_closing
    ∷ [])
