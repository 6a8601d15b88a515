-- ===== src/Registration.antt =====
-- The C++ functions of the generated headers that register a policy with a runtime: `register_types`,
-- `register_wasm_allocation_policy` and `register_allocation_sites`. The constants of a type are named
-- by the spelling `cpp` of it, and a header that defines one of them twice does not compile. The rest
-- of a header is taken to compile, and a number to fit `TypeId`.
pub mod Accepted
pub mod Constants
pub mod Numbers
pub mod Wasm
pub mod Labels
pub mod Native
pub mod Boundary
use interspec_typed_allocato.Prelude.{
  ℕ, Bool, true, false, ◌&&◌, Option, none, some, List, [], ◌∷◌, Text, same, ◌||◌, ◌==◌, not,
  if◌then◌else◌,
}
use interspec_typed_allocato.Names.{cpp}
use interspec_typed_allocato.Hash.{hash_type}
use interspec_typed_allocato.TypeIds.{Ids}
use interspec_typed_allocato.WasmSites.{SiteRecord}
use interspec_typed_allocato.Runtime.{
  Runtime, register_type, register_allocation_site_id, register_allocation_site,
}
use interspec_typed_allocato.Sites.{Precise}
use interspec_typed_allocato.Instrument.{site_symbols}

-- Every type is registered, also behind one that is refused.
unfoldable pub register_types_loop : Bool → Ids → Runtime → Runtime × Bool
register_types_loop done [] r = (r, done)
register_types_loop done ((name, id) ∷ ids) r =
    let registered = register_type id (hash_type name) r in
    register_types_loop (registered.1 && done) ids registered.0

-- The constant `kTypeId` of an identifier, where the header has it.
unfoldable pub type_constant : Text → Ids → Option ℕ
type_constant ident [] = none
type_constant ident ((other, id) ∷ ids) =
    if same (cpp other) ident then some id else type_constant ident ids

-- Does the header define a constant of the identifier?
unfoldable pub is_defined : Text → Ids → Bool
is_defined ident [] = false
is_defined ident ((other, id) ∷ ids) = same (cpp other) ident || is_defined ident ids

-- No constant is defined twice.
unfoldable pub defined_once : Ids → Bool
unfolding is_defined
defined_once [] = true
defined_once ((name, id) ∷ ids) = not (is_defined (cpp name) ids) && defined_once ids

-- `none` where a constant is defined twice, so that there is no program. Else the constants named
-- for a type are those that were defined for it.
unfoldable pub register_types : Ids → Runtime → Option (Runtime × Bool)
unfolding register_types_loop defined_once
register_types ids r = if defined_once ids then some (register_types_loop true ids r) else none

-- The first refusal ends the loop. Without the constant there is no program.
unfoldable pub register_wasm_sites : Ids → List SiteRecord → Runtime → Runtime × Bool
unfolding type_constant
register_wasm_sites ids [] r = (r, true)
register_wasm_sites ids (record_of ∷ records) r = elim (type_constant (cpp record_of.type) ids) [
  | none ↦ (r, false)
  | some type_id ↦
      let registered = register_allocation_site_id record_of.site_id type_id r in
      elim registered.1 [
        | true ↦ register_wasm_sites ids records registered.0
        | false ↦ (registered.0, false)
      ]
]

-- `register_allocation_sites` of the native header, with the addresses that the resolver gives for
-- the labels of the sites.
unfoldable pub register_sites : (Text → ℕ) → Ids → List Precise → Runtime → Runtime × Bool
unfolding type_constant
register_sites resolve ids [] r = (r, true)
register_sites resolve ids (p ∷ sites) r = elim (type_constant (cpp p.allocation.type) ids) [
  | none ↦ (r, false)
  | some type_id ↦
      let symbols = site_symbols p.allocation.function p.site_id in
      let begin = resolve symbols.0 in
      let end = resolve symbols.1 in
      if begin == 0 || end == 0
      then (r, false)
      else elim (register_allocation_site p.site_id begin end type_id r).1 [
        | true ↦
            register_sites resolve ids sites
              (register_allocation_site p.site_id begin end type_id r).0
        | false ↦ ((register_allocation_site p.site_id begin end type_id r).0, false)
      ]
]
