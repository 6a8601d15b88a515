-- ===== src/Tests.antt =====
-- Runs of the native generator on a small source, and the theorems at that input.
mod Wasm
mod Texts
mod Reports
mod Generator
mod Runtime
mod Summaries
mod Sequence
mod Backend
mod Bridge
mod Pages
mod Files
use interspec_typed_allocato.Prelude.{
  ℕ, suc, ◌+◌, ◌<◌, Bool, false, true, Option, none, some, List, [], ◌∷◌, ◌++◌, ◌≡◌, refl, arith,
  Text, codes, take, drop, length, starts_with, strip, rstrip, is_space, run_length, same, text_lt,
  decimal, join, sort_by, Result, ok, err,
}
use interspec_typed_allocato.Prelude.Integers.{ℤ, pos, negsuc, decimal_ℤ}
use interspec_typed_allocato.Names.{macro, symbol, cpp}
use interspec_typed_allocato.Pattern.{Span, match_length, find_all}
use interspec_typed_allocato.Function.{
  function_match, function_body, mark_precise_function_noinline,
}
use interspec_typed_allocato.Function.Body.{IsBody, function_body-IsBody}
use interspec_typed_allocato.Location.{source_offset}
use interspec_typed_allocato.Location.Lines.{IsAt, source_offset-IsAt}
use interspec_typed_allocato.MallocCall.{Call, malloc_call_extent}
use interspec_typed_allocato.MallocCall.Extent.{IsCall, malloc_call_extent-IsCall}
use interspec_typed_allocato.Policy.{Site, Allocation, AccessUse, Policy}
use interspec_typed_allocato.TypeIds.{type_ids}
use interspec_typed_allocato.Sites.{number_sites, legacy_of, sort_sites, sorted_set}
use interspec_typed_allocato.NativeHeaders.{u_header_lines, access_lines, t_header_lines}
use interspec_typed_allocato.Instrument.{
  splice, site_replacement, instrument_site, instrument_legacy,
}
use interspec_typed_allocato.Instrument.Splice.{IsLocated, instrument_site-IsLocated}
use interspec_typed_allocato.Generate.{
  Output, instrument_sites, mark_functions, instrument_all_legacy, generate,
}
use interspec_typed_allocato.Generate.Laws.{IsGenerated, generate-IsGenerated}

-- No letter beyond ASCII occurs in the source.
abbrev no_letters : ℕ → Bool
no_letters c = false

abbrev program : Text
program = codes "void *f(int n) {\n  return malloc(n + (1 /* ) */));\n}\n"

abbrev site : Site
site = record { start_line = pos 2; start_column = pos 10; end_line = pos 2; end_column = pos 15 }

abbrev allocation : Allocation
allocation = record { function = codes "f"; type = codes "char"; site = some site }

abbrev policy : Policy
policy = record {
  types = codes "char" ∷ codes "poptContext_s" ∷ [];
  allocations = allocation ∷ [];
  uses =
      record {
        name = codes "first_byte";
        type = codes "char";
        offset = pos 0;
        bytes = some (pos 1);
        dynamic_bytes = false;
      }
      ∷ [];
}

body_of_f : function_body no_letters program (codes "f") ≡ ok (record { start = 16; end = 51 })
unfolding function_body
body_of_f = refl

function_body-IsBody_example : IsBody program 16 51
function_body-IsBody_example = function_body-IsBody no_letters program (codes "f") body_of_f

abbrev call : Call
call = record { start = 26; end = 49; argument = codes "n + (1 /* ) */)" }

call_of_malloc : malloc_call_extent program 26 32 ≡ ok call
unfolding malloc_call_extent
call_of_malloc = refl

malloc_call_extent-IsCall_example : IsCall program 26 32 call
malloc_call_extent-IsCall_example = malloc_call_extent-IsCall program 26 32 call_of_malloc

start_of_site : source_offset program (pos 2) (pos 10) false ≡ ok 26
unfolding source_offset
start_of_site = refl

abbrev result : Text
result = splice program 26 49 (site_replacement (codes "n + (1 /* ) */)") (codes "f") 1)

instrumented : instrument_site no_letters program allocation site 1 ≡ ok result
unfolding instrument_site
instrumented = refl

end_of_site : source_offset program (pos 2) (pos 15) true ≡ ok 32
unfolding source_offset
end_of_site = refl

source_offset-IsAt_example :
    (l c : ℕ) × (pos 2 ≡ pos (suc l))
    × (pos 15 ≡ pos (suc c))
    × IsAt program l c true 32
    × (32 < length program + 2)
source_offset-IsAt_example = source_offset-IsAt program (pos 2) (pos 15) true end_of_site

abbrev output_of : Result Output → Output
output_of r = elim r [
  | ok output ↦ output
  | err _ ↦ record { source = []; u_header = []; t_header = [] }
]

generated : generate no_letters policy program ≡ ok (output_of (generate no_letters policy program))
unfolding generate interspec_typed_allocato.Hash.hash_type instrument_sites sort_sites
    instrument_site mark_functions sorted_set mark_precise_function_noinline instrument_all_legacy
    legacy_of access_lines
generated = refl

generate-IsGenerated_example :
    IsGenerated no_letters policy program (output_of (generate no_letters policy program))
generate-IsGenerated_example = generate-IsGenerated no_letters policy program generated
