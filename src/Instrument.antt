-- ===== src/Instrument.antt =====
-- `site_symbols`, `exported_label_asm`, `instrument_site` and `instrument_legacy` of
-- tools/generate_policy.py.
pub mod Symbols
pub mod Splice
pub mod Order
pub mod Sequence
use interspec_typed_allocato.Prelude.{
  ℕ, zero, suc, ◌+◌, ◌-◌, Bool, true, false, not, ◌&&◌, ◌||◌, Option, none, some, List, [], ◌∷◌,
  ◌++◌, Text, codes, length, take, drop, concat, decimal, ltb, leb, ◌==◌, if◌then◌else◌, Error,
  invalid_site, site_escapes, call_escapes, no_single_malloc, Result, ok, err, ◌>>=◌, ◌>>◌, refuse,
}
use interspec_typed_allocato.Names.{macro, symbol}
use interspec_typed_allocato.Pattern.{Token, lit, spaces, ident, group, Span, find_all}
use interspec_typed_allocato.Function.{function_body}
use interspec_typed_allocato.Location.{source_offset}
use interspec_typed_allocato.MallocCall.{Call, slice, malloc_call_extent}
use interspec_typed_allocato.Policy.{Site, Allocation}

abbrev pub site_prefix : Text → ℕ → Text
site_prefix stem site_id = codes "interspec_alloc_site_" ++ (stem ++ (codes "_" ++ decimal site_id))

unfoldable pub begin_symbol : Text → ℕ → Text
begin_symbol function site_id = site_prefix (symbol function) site_id ++ codes "_begin"

unfoldable pub end_symbol : Text → ℕ → Text
end_symbol function site_id = site_prefix (symbol function) site_id ++ codes "_end"

-- The pair that `site_symbols` returns for an allocation in `function`.
unfoldable pub site_symbols : Text → ℕ → Text × Text
unfolding begin_symbol end_symbol
site_symbols function site_id = (begin_symbol function site_id, end_symbol function site_id)

unfoldable pub exported_label_asm : Text → Text
exported_label_asm name = concat (
    codes ".globl "
    ∷ name
    ∷ codes "\\n.type "
    ∷ name
    ∷ codes ",@function\\n"
    ∷ name
    ∷ codes ":"
    ∷ [])

unfoldable pub site_replacement : Text → Text → ℕ → Text
unfolding exported_label_asm begin_symbol end_symbol
site_replacement size_expr function site_id = concat (
    codes "({ "
    ∷ codes "uint32_t __interspec_size = (uint32_t)("
    ∷ size_expr
    ∷ codes "); "
    ∷ codes "uint32_t __interspec_ptr = 0; "
    ∷ codes "__asm__ __volatile__(\""
    ∷ exported_label_asm (begin_symbol function site_id)
    ∷ codes "\" ::: \"memory\"); "
    ∷ codes "__interspec_ptr = INTERSPEC_SITE_ALLOC(__interspec_size); "
    ∷ codes "__asm__ __volatile__(\""
    ∷ exported_label_asm (end_symbol function site_id)
    ∷ codes "\" ::: \"memory\"); "
    ∷ codes "(void*)(uintptr_t)__interspec_ptr; })"
    ∷ [])

-- `source[:start] + replacement + source[end:]`
abbrev pub splice : Text → ℕ → ℕ → Text → Text
splice source start end replacement = take start source ++ (replacement ++ drop end source)

module _ (unicode_alnum : ℕ → Bool) where
  -- The part that the native and the wasm2c generator share: the call at a site, whose anchor and
  -- whose end lie within the body of the function.
  unfoldable pub locate_call : Text → Allocation → ℕ → ℕ → Result Call
  unfolding function_body malloc_call_extent
  locate_call source allocation anchor_start anchor_end = do
    body ← function_body unicode_alnum source allocation.function
    refuse (ltb anchor_start body.start || ltb body.end anchor_end)
        (site_escapes allocation.function)
    call ← malloc_call_extent source anchor_start anchor_end
    refuse (ltb body.end call.end) (call_escapes allocation.function)
    ok call

  unfoldable pub instrument_site : Text → Allocation → Site → ℕ → Result Text
  unfolding source_offset locate_call site_replacement
  instrument_site source allocation site site_id = do
    anchor_start ← source_offset source site.start_line site.start_column false
    anchor_end ← source_offset source site.end_line site.end_column true
    refuse (leb anchor_end anchor_start) (invalid_site allocation.function)
    call ← locate_call source allocation anchor_start anchor_end
    ok (
        splice source call.start call.end
          (site_replacement call.argument allocation.function site_id))

abbrev typed_malloc : Text → Text
typed_malloc type_name =
    concat
      (codes "(struct " ∷ type_name ∷ codes "*)malloc(sizeof(struct " ∷ type_name ∷ codes "))" ∷ [])

-- `malloc\s*\(\s*sizeof\s*\(\s*\*\s*([A-Za-z_][A-Za-z0-9_]*)\s*\)\s*\)`
abbrev sizeof_pattern : List Token
sizeof_pattern =
    lit (codes "malloc")
    ∷ spaces
    ∷ lit (codes "(")
    ∷ spaces
    ∷ lit (codes "sizeof")
    ∷ spaces
    ∷ lit (codes "(")
    ∷ spaces
    ∷ lit (codes "*")
    ∷ spaces
    ∷ ident
    ∷ spaces
    ∷ lit (codes ")")
    ∷ spaces
    ∷ lit (codes ")")
    ∷ []

-- `malloc\s*\(\s*([A-Za-z_][A-Za-z0-9_]*)\s*\)`
abbrev plain_pattern : List Token
plain_pattern =
    lit (codes "malloc") ∷ spaces ∷ lit (codes "(") ∷ spaces ∷ ident ∷ spaces ∷ lit (codes ")") ∷ []

abbrev type_id_macro : Text → Text
type_id_macro type_name = codes "INTERSPEC_TYPE_ID_" ++ macro type_name

-- The last of the three forms; one match is wanted.
unfoldable pub replace_plain : Text → Allocation → List Span → Result Text
unfolding group
replace_plain body allocation (found ∷ []) = ok (
    splice body found.start found.end (
      concat (
        codes "(void*)(uintptr_t)typed_alloc((uint32_t)("
        ∷ group plain_pattern (drop found.start body)
        ∷ codes "), "
        ∷ type_id_macro allocation.type
        ∷ codes ")"
        ∷ [])))
replace_plain body allocation _ = err (no_single_malloc allocation.function)

unfoldable pub replace_sizeof : Text → Allocation → List Span → Result Text
unfolding replace_plain find_all group
replace_sizeof body allocation (found ∷ []) = ok (
    splice body found.start found.end (
      concat (
        codes "(void*)(uintptr_t)typed_alloc(sizeof(*"
        ∷ group sizeof_pattern (drop found.start body)
        ∷ codes "), "
        ∷ type_id_macro allocation.type
        ∷ codes ")"
        ∷ [])))
replace_sizeof body allocation _ = replace_plain body allocation (find_all plain_pattern 0 0 body)

-- `body.count(old)` and `body.replace(old, new, 1)`, by the places of `old`.
unfoldable pub replace_typed : Text → Allocation → List Span → Result Text
unfolding replace_sizeof find_all
replace_typed body allocation (found ∷ []) = ok (
    splice body found.start found.end (
      concat (
        codes "(struct "
        ∷ allocation.type
        ∷ codes "*)(uintptr_t)typed_alloc(sizeof(struct "
        ∷ allocation.type
        ∷ codes "), "
        ∷ type_id_macro allocation.type
        ∷ codes ")"
        ∷ [])))
replace_typed body allocation _ = replace_sizeof body allocation (find_all sizeof_pattern 0 0 body)

module _ (unicode_alnum : ℕ → Bool) where
  unfoldable pub instrument_legacy : Text → Allocation → Result Text
  unfolding function_body replace_typed find_all
  instrument_legacy source allocation = do
    found ← function_body unicode_alnum source allocation.function
    let body = slice source found.start found.end
    body' ←
        replace_typed body allocation (find_all (lit (typed_malloc allocation.type) ∷ []) 0 0 body)
    ok (take found.start source ++ (body' ++ drop found.end source))
