-- ===== src/Tests/Sequence.antt =====
-- Two sites of one line, rewritten from the last to the first.
use interspec_typed_allocato.Prelude.{
  ℕ, Bool, true, false, Option, none, some, List, [], ◌∷◌, ◌≡◌, refl, Text, codes, length, Result,
  ok, err,
}
use interspec_typed_allocato.Prelude.Integers.{pos}
use interspec_typed_allocato.Policy.{Site}
use interspec_typed_allocato.Sites.{Precise, sort_sites}
use interspec_typed_allocato.Instrument.{instrument_site}
use interspec_typed_allocato.Instrument.Sequence.{AllFound}
use interspec_typed_allocato.Generate.{instrument_sites}
use interspec_typed_allocato.Generate.Located.{native_text, instrument_sites-AllFound}
use interspec_typed_allocato.Tests.{no_letters}

abbrev choice : Text
choice = codes "void *f(int n) {\n  return malloc(n) ? malloc(2) : 0;\n}\n"

abbrev at_columns : ℕ → ℕ → ℕ → Precise
at_columns start end site_id =
    let site : Site = record {
      start_line = pos 2;
      start_column = pos start;
      end_line = pos 2;
      end_column = pos end;
    } in
    record {
      allocation = record { function = codes "f"; type = codes "char"; site = some site };
      site = site;
      site_id = site_id;
    }

abbrev two_sites : List Precise
two_sites = at_columns 10 15 1 ∷ at_columns 22 27 2 ∷ []

abbrev rewritten : Result Text
rewritten = instrument_sites no_letters choice (sort_sites two_sites)

abbrev text_of : Result Text → Text
text_of r = elim r [ ok text ↦ text | err _ ↦ [] ]

rewritten_ok : rewritten ≡ ok (text_of rewritten)
unfolding instrument_sites sort_sites instrument_site interspec_typed_allocato.Names.symbol
    interspec_typed_allocato.Prelude.decimal
rewritten_ok = refl

instrument_sites-AllFound_example :
    AllFound native_text choice choice (length choice) (sort_sites two_sites) (text_of rewritten)
instrument_sites-AllFound_example =
    instrument_sites-AllFound no_letters choice two_sites rewritten_ok
