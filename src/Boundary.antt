-- ===== src/Boundary.antt =====
-- `generate_boundary` of tools/generate_boundary_policy.py.
pub mod Helpers
use interspec_typed_allocato.Prelude.{
  ℕ, zero, suc, ◌+◌, ◌-◌, Bool, Option, none, some, List, [], ◌∷◌, ◌++◌, map, Text, codes, concat,
  contains, same, starts_with, rstrip, join, decimal, length, take, drop, if◌then◌else◌, Error,
  duplicate_helper, unknown_helper_type, no_namespace_close, Result, ok, err, ◌>>=◌, ◌>>◌, require,
  refuse, from_option,
}
use interspec_typed_allocato.Names.{symbol, macro, cpp}
use interspec_typed_allocato.Policy.{Allocation, HelperSite, Policy, Boundary}
use interspec_typed_allocato.Compose.{prepare_policy}
use interspec_typed_allocato.Instrument.{exported_label_asm, site_prefix}
use interspec_typed_allocato.NativeHeaders.{newline, site_entry}
use interspec_typed_allocato.Generate.{Output, generate}

-- `text.replace(old, new)` for an `old` that is not empty; `skip` counts the characters of the last
-- occurrence that are still to be passed.
unfoldable pub replace_all : Text → Text → ℕ → Text → Text
unfolding starts_with
replace_all old new skip [] = []
replace_all old new (suc skip) (c ∷ rest) = replace_all old new skip rest
replace_all old new zero (c ∷ rest) = elim (starts_with old (c ∷ rest)) [
  | Bool.true ↦ new ++ replace_all old new (length old - 1) rest
  | Bool.false ↦ c ∷ replace_all old new 0 rest
]

-- `text.rfind(part)`
unfoldable pub rfind : Text → ℕ → Text → Option ℕ
unfolding starts_with
rfind part position [] = none
rfind part position (c ∷ rest) = elim (rfind part (suc position) rest) [
  | some later ↦ some later
  | none ↦ if starts_with part (c ∷ rest) then some position else none
]

unfoldable pub inject_before_namespace_close : Text → Text → List Text → Result Text
unfolding rfind rstrip join
inject_before_namespace_close header namespace_name lines = do
  position ←
      from_option (no_namespace_close namespace_name)
        (rfind (codes "}  // namespace " ++ namespace_name) 0 header)
  ok (
      concat (
        rstrip (take position header)
        ∷ codes "\n\n"
        ∷ rstrip (join newline lines)
        ∷ codes "\n\n"
        ∷ drop position header
        ∷ []))

abbrev helper_prefix : Text → Text → ℕ → Text
helper_prefix namespace_name name site_id =
    site_prefix (symbol namespace_name ++ (codes "_" ++ symbol name)) site_id

unfoldable pub helper_symbols : Text → Text → ℕ → Text × Text
helper_symbols namespace_name name site_id = (
  helper_prefix namespace_name name site_id ++ codes "_begin",
  helper_prefix namespace_name name site_id ++ codes "_end",
)

unfoldable pub helper_macro : Text → Text → Text
helper_macro name suffix = concat (codes "INTERSPEC_SITE_" ∷ macro name ∷ codes "_" ∷ suffix ∷ [])

pub record HelperEntry : Type 0 where
  pub site_id : ℕ
  pub name : Text
  pub type : Text

-- The loop over the helpers; `seen` are the names so far.
unfoldable pub helper_entries :
    List Text → List Text → ℕ → List HelperSite → Result (List HelperEntry)
unfolding same
helper_entries types seen next [] = ok []
helper_entries types seen next (helper ∷ rest) = do
  refuse (contains seen helper.name) (duplicate_helper helper.name)
  require (contains types helper.type) (unknown_helper_type helper.type)
  more ← helper_entries types (helper.name ∷ seen) (suc next) rest
  ok (record { site_id = next; name = helper.name; type = helper.type } ∷ more)

abbrev asm_line : Text → Text
asm_line name =
    concat (
      codes "  __asm__ __volatile__(\"" ∷ exported_label_asm name ∷ codes "\" ::: \"memory\")" ∷ [])

abbrev define_line : Text → Text → Text
define_line name suffix = concat (codes "#define " ∷ helper_macro name suffix ∷ codes "() \\" ∷ [])

unfoldable pub helper_u_lines : Text → List HelperEntry → List Text
unfolding helper_macro helper_symbols exported_label_asm
helper_u_lines namespace_name [] = []
helper_u_lines namespace_name (e ∷ entries) =
    let symbols = helper_symbols namespace_name e.name e.site_id in
    define_line e.name (codes "BEGIN")
    ∷ asm_line symbols.0
    ∷ define_line e.name (codes "END")
    ∷ asm_line symbols.1
    ∷ []
    ∷ helper_u_lines namespace_name entries

-- `u_header` with the macros of the helpers, if there are any.
unfoldable pub extend_u_header : Text → Text → List HelperEntry → Text
unfolding helper_u_lines rstrip join
extend_u_header namespace_name u_header [] = u_header
extend_u_header namespace_name u_header (e ∷ entries) = concat (
    rstrip u_header
    ∷ codes "\n\n"
    ∷ rstrip (join newline (helper_u_lines namespace_name (e ∷ entries)))
    ∷ newline
    ∷ [])

unfoldable pub helper_rows : Text → List HelperEntry → List Text
unfolding helper_symbols site_entry
helper_rows namespace_name [] = []
helper_rows namespace_name (e ∷ entries) =
    let symbols = helper_symbols namespace_name e.name e.site_id in
    site_entry e.site_id e.type symbols.0 symbols.1 ∷ helper_rows namespace_name entries

unfoldable pub helper_table : Text → List HelperEntry → List Text
unfolding helper_rows
helper_table namespace_name [] = map codes (
    "template<typename Resolver>"
    ∷ "inline bool register_helper_allocation_sites(Runtime&, Resolver)" ∷ "{" ∷ "  return true;"
    ∷ "}" ∷ "" ∷ [])
helper_table namespace_name (e ∷ entries) =
    codes "constexpr HelperAllocationSitePolicy kHelperAllocationSites[] = {"
    ∷ (helper_rows namespace_name (e ∷ entries)
        ++ map codes (
            "};" ∷ "" ∷ "template<typename Resolver>"
            ∷ "inline bool register_helper_allocation_sites(Runtime& runtime, Resolver resolve)"
            ∷ "{" ∷ "  for (const auto& site : kHelperAllocationSites) {"
            ∷ "    const uintptr_t begin = resolve(site.begin_symbol);"
            ∷ "    const uintptr_t end = resolve(site.end_symbol);" ∷ "    if (!begin || !end ||"
            ∷ "        !runtime.register_allocation_site(site.site_id, begin, end, site.type_id))"
            ∷ "      return false;" ∷ "  }" ∷ "  return true;" ∷ "}" ∷ "" ∷ []))

unfoldable pub dynamic_lines : List Text → List Text
dynamic_lines [] = []
dynamic_lines (u ∷ uses) =
    map codes (
      "" ∷ "inline CheckedAccess checked_dynamic_access(const Runtime& runtime,"
      ∷ "                                            uintptr_t base,"
      ∷ "                                            size_t dynamic_bytes,"
      ∷ "                                            AccessPolicy policy)" ∷ "{"
      ∷ "  if (policy.bytes != 0 ||"
      ∷ "      policy.offset > std::numeric_limits<size_t>::max() - dynamic_bytes)"
      ∷ "    return {CheckResult::out_of_bounds, 0, 0};"
      ∷ "  const size_t extent = policy.offset + dynamic_bytes;"
      ∷ "  const CheckResult result = runtime.check(base, extent, policy.type_hash);"
      ∷ "  if (result != CheckResult::ok) return {result, 0, 0};"
      ∷ "  return {result, base + policy.offset, dynamic_bytes};" ∷ "}" ∷ ""
      ∷ "inline CheckResult check_dynamic(const Runtime& runtime,"
      ∷ "                                 uintptr_t base,"
      ∷ "                                 size_t dynamic_bytes,"
      ∷ "                                 AccessPolicy policy)" ∷ "{"
      ∷ "  return checked_dynamic_access(runtime, base, dynamic_bytes, policy).result;" ∷ "}" ∷ ""
      ∷ [])
    ++ (concat (
          codes "constexpr size_t kDynamicUseCount = "
          ∷ decimal (length (u ∷ uses))
          ∷ codes ";"
          ∷ [])
        ∷ [])

unfoldable pub boundary_t_lines : Text → List HelperEntry → List Text → List Text
unfolding helper_table dynamic_lines
boundary_t_lines namespace_name entries dynamic_uses = concat (
    map codes (
      "struct HelperAllocationSitePolicy {" ∷ "  SiteId site_id;" ∷ "  TypeId type_id;"
      ∷ "  const char* begin_symbol;" ∷ "  const char* end_symbol;" ∷ "};" ∷ "" ∷ [])
    ∷ (concat (
          codes "constexpr size_t kHelperAllocationSiteCount = "
          ∷ decimal (length entries)
          ∷ codes ";"
          ∷ [])
        ∷ [])
    ∷ helper_table namespace_name entries
    ∷ map codes (
        "constexpr size_t kTotalAllocationSiteCount ="
        ∷ "    kAllocationSiteCount + kHelperAllocationSiteCount;" ∷ ""
        ∷ "template<typename Resolver>"
        ∷ "inline bool register_allocation_policy(Runtime& runtime, Resolver resolve)" ∷ "{"
        ∷ "  if (!register_allocation_sites(runtime, resolve)) return false;"
        ∷ "  return register_helper_allocation_sites(runtime, resolve);" ∷ "}" ∷ [])
    ∷ dynamic_lines dynamic_uses
    ∷ [])

abbrev default_namespace : Text
default_namespace = codes "interspec::generated"

unfoldable pub rename_namespace : Text → Text → Text
unfolding replace_all same
rename_namespace namespace_name t_header =
    if same namespace_name default_namespace
    then t_header
    else replace_all (codes "}  // namespace " ++ default_namespace)
        (codes "}  // namespace " ++ namespace_name) 0
        (replace_all (codes "namespace " ++ default_namespace)
          (codes "namespace " ++ namespace_name) 0 t_header)

unfoldable pub count_precise : List Allocation → ℕ
count_precise [] = 0
count_precise (a ∷ rest) =
    let more = count_precise rest in elim a.site [ none ↦ more | some _ ↦ suc more ]

unfoldable pub generate_boundary : (ℕ → Bool) → Policy → Text → Text → Boundary → Result Output
unfolding prepare_policy helper_entries inject_before_namespace_close
generate_boundary unicode_alnum policy source namespace_name boundary = do
  prepared ← prepare_policy policy boundary
  output ← generate unicode_alnum prepared.0 source
  entries ←
      helper_entries prepared.0.types [] (suc (count_precise prepared.0.allocations))
        boundary.helper_sites
  t_header ←
      inject_before_namespace_close (rename_namespace namespace_name output.t_header) namespace_name
        (boundary_t_lines namespace_name entries prepared.1)
  ok (record {
    source = output.source;
    u_header = extend_u_header namespace_name output.u_header entries;
    t_header = t_header;
  })
