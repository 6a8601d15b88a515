-- ===== src/Generate.antt =====
-- `generate` of tools/generate_policy.py.
pub mod Laws
pub mod Located
use interspec_typed_allocato.Prelude.{
  ℕ, Bool, List, [], ◌∷◌, map, Text, join, Result, ok, err, ◌>>=◌,
}
use interspec_typed_allocato.Policy.{Site, Allocation, AccessUse, Policy}
use interspec_typed_allocato.TypeIds.{type_ids}
use interspec_typed_allocato.Sites.{Precise, number_sites, legacy_of, sort_sites, sorted_set}
use interspec_typed_allocato.Function.{mark_precise_function_noinline}
use interspec_typed_allocato.Instrument.{instrument_site, instrument_legacy}
use interspec_typed_allocato.NativeHeaders.{newline, u_header_lines, access_lines, t_header_lines}

pub record Output : Type 0 where
  pub source : Text
  pub u_header : Text
  pub t_header : Text

module _ (unicode_alnum : ℕ → Bool) where
  -- The three loops that rewrite the source.
  unfoldable pub instrument_sites : Text → List Precise → Result Text
  instrument_sites source [] = ok source
  instrument_sites source (p ∷ rest) = do
    source' ← instrument_site unicode_alnum source p.allocation p.site p.site_id
    instrument_sites source' rest

  unfoldable pub mark_functions : Text → List Text → Result Text
  mark_functions source [] = ok source
  mark_functions source (function ∷ rest) = do
    source' ← mark_precise_function_noinline unicode_alnum source function
    mark_functions source' rest

  unfoldable pub instrument_all_legacy : Text → List Allocation → Result Text
  instrument_all_legacy source [] = ok source
  instrument_all_legacy source (a ∷ rest) = do
    source' ← instrument_legacy unicode_alnum source a
    instrument_all_legacy source' rest

  unfoldable pub generate : Policy → Text → Result Output
  unfolding type_ids number_sites
  generate policy source = do
    ids ← type_ids policy.types
    precise ← number_sites policy.types 1 policy.allocations
    instrumented ← instrument_sites source (sort_sites precise)
    marked ←
        mark_functions instrumented
          (sorted_set (map (λ (p : Precise). p.allocation.function) precise))
    rewritten ← instrument_all_legacy marked (legacy_of policy.allocations)
    accesses ← access_lines policy.types policy.uses
    ok (record {
      source = rewritten;
      u_header = join newline (u_header_lines ids);
      t_header = join newline (t_header_lines ids precise accesses);
    })
