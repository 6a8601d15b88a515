-- ===== src/Tests/Wasm.antt =====
-- The theorems on the boundaries at small policies.
use interspec_typed_allocato.Prelude.{
  suc, ◌≢◌, ◌≡◌, ◌↔◌, refl, arith, Bool, true, false, Option, none, some, List, [], ◌∷◌, Text,
  codes, length, All, Result, ok, err,
}
use interspec_typed_allocato.Prelude.Integers.{ℤ, pos}
use interspec_typed_allocato.Policy.{Site, Allocation, AccessUse, HelperSite}
use interspec_typed_allocato.TypeIds.{type_ids}
use interspec_typed_allocato.TypeIds.Numbering.{enumerate, Fresh, DistinctHashes}
use interspec_typed_allocato.TypeIds.Accepted.{type_ids-ok_iff}
use interspec_typed_allocato.Sites.{Precise, number_sites}
use interspec_typed_allocato.Compose.{prepare_uses}
use interspec_typed_allocato.Boundary.{HelperEntry, helper_entries, count_precise}
use interspec_typed_allocato.Boundary.Helpers.{
  number_helpers, FreshNames, IsKnownHelper, helper_entries-ok_iff, Apart, helper_entries-Apart,
}
use interspec_typed_allocato.WasmSites.{SiteRecord, runtime_site_id, site_records}
use interspec_typed_allocato.WasmSites.Distinct.{site_records-apart}

abbrev types : List Text
types = codes "char" ∷ codes "pcre" ∷ []

type_ids-ok_iff_example : (type_ids types ≡ ok ((codes "char", 1) ∷ (codes "pcre", 2) ∷ [])) ↔ (
    Fresh [] types
    × DistinctHashes types
    × (((codes "char", 1) ∷ (codes "pcre", 2) ∷ []) ≡ enumerate 1 types))
type_ids-ok_iff_example = type_ids-ok_iff types ((codes "char", 1) ∷ (codes "pcre", 2) ∷ [])

abbrev site : Site
site = record { start_line = pos 2; start_column = pos 10; end_line = pos 2; end_column = pos 15 }

abbrev precise_allocation : Allocation
precise_allocation = record { function = codes "f"; type = codes "char"; site = some site }

abbrev legacy_allocation : Allocation
legacy_allocation = record { function = codes "g"; type = codes "pcre"; site = none }

abbrev allocations : List Allocation
allocations = legacy_allocation ∷ precise_allocation ∷ []

abbrev numbers : List Precise
numbers = record { allocation = precise_allocation; site = site; site_id = 1 } ∷ []

numbers_ok : number_sites types 1 allocations ≡ ok numbers
unfolding number_sites
numbers_ok = refl

abbrev two_sites : List Precise
two_sites =
    record { allocation = precise_allocation; site = site; site_id = 1 }
    ∷ record {
      allocation = precise_allocation;
      site = record {
        start_line = pos 3;
        start_column = pos 1;
        end_line = pos 3;
        end_column = pos 6;
      };
      site_id = 2;
    }
    ∷ []

abbrev helpers : List HelperSite
helpers =
    record { name = codes "copy"; type = codes "char" }
    ∷ record { name = codes "fill"; type = codes "pcre" }
    ∷ []

abbrev entries : List HelperEntry
entries =
    record { site_id = 2; name = codes "copy"; type = codes "char" }
    ∷ record { site_id = 3; name = codes "fill"; type = codes "pcre" }
    ∷ []

helper_entries-ok_iff_example : (helper_entries types [] 2 helpers ≡ ok entries) ↔ (
    FreshNames [] helpers
    × All (IsKnownHelper types) helpers
    × (entries ≡ number_helpers 2 helpers))
helper_entries-ok_iff_example = helper_entries-ok_iff types 2 helpers entries

entries_ok : helper_entries types [] (suc (count_precise allocations)) helpers ≡ ok entries
unfolding helper_entries count_precise
entries_ok = refl

helper_entries-Apart_example : All (λ e. All (Apart (codes "popt") e) numbers) entries
helper_entries-Apart_example =
    helper_entries-Apart (codes "popt") types allocations helpers numbers_ok entries_ok

abbrev use_of : Text → Option ℤ → Bool → AccessUse
use_of name bytes dynamic_bytes = record {
  name = name;
  type = codes "char";
  offset = pos 0;
  bytes = bytes;
  dynamic_bytes = dynamic_bytes;
}

abbrev uses : List AccessUse
uses = use_of (codes "whole") none true ∷ use_of (codes "first") (some (pos 1)) false ∷ []

abbrev prepared : List AccessUse × List Text
prepared = (
  use_of (codes "whole") (some (pos 0)) true ∷ use_of (codes "first") (some (pos 1)) false ∷ [],
  codes "whole" ∷ [],
)

prepared_ok : prepare_uses uses ≡ ok prepared
unfolding prepare_uses
prepared_ok = refl

abbrev records_of : Result (List SiteRecord) → List SiteRecord
records_of r = elim r [ ok records ↦ records | err _ ↦ [] ]

abbrev popt : Result (List SiteRecord)
popt = site_records (codes "popt") (pos 0) 1 (precise_allocation ∷ []) helpers

abbrev pcre : Result (List SiteRecord)
pcre = site_records (codes "pcre") (pos 3) 1 (precise_allocation ∷ []) []

popt_ok : popt ≡ ok (records_of popt)
unfolding site_records interspec_typed_allocato.WasmSites.site_record
    interspec_typed_allocato.WasmSites.helper_records
popt_ok = refl

pcre_ok : pcre ≡ ok (records_of pcre)
unfolding site_records interspec_typed_allocato.WasmSites.site_record
    interspec_typed_allocato.WasmSites.helper_records
pcre_ok = refl

three_records : length (records_of popt) ≡ 3
unfolding site_records interspec_typed_allocato.WasmSites.site_record
    interspec_typed_allocato.WasmSites.helper_records
three_records = refl

site_records-apart_example :
    All
      (λ (r : SiteRecord). All (λ (s : SiteRecord). r.site_id ≢ s.site_id) (records_of pcre))
      (records_of popt)
site_records-apart_example =
    site_records-apart (codes "popt") (codes "pcre") 0 3 (precise_allocation ∷ [])
      (precise_allocation ∷ []) helpers [] popt_ok pcre_ok (omega (arith, three_records))
