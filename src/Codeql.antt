-- ===== src/Codeql.antt =====
-- tools/codeql_policy_to_json.py: the rows of a CodeQL result as a policy.
pub mod Laws
use interspec_typed_allocato.Prelude.{
  ℕ, Bool, true, false, not, ◌&&◌, ◌||◌, Option, none, some, List, [], ◌∷◌, map, Text, codes,
  text_lt, same, sort_by, if◌then◌else◌, Error, bad_number, Result, ok, err, ◌>>=◌, from_option,
}
use interspec_typed_allocato.Prelude.Integers.{ℤ, pos, negsuc, ltb_ℤ}
use interspec_typed_allocato.Policy.{Site, Allocation, AccessUse, Policy}
use interspec_typed_allocato.Sites.{sorted_set}

abbrev is_positive : ℤ → Bool
is_positive n = ltb_ℤ (pos 0) n

-- What a row adds to the policy.
pub data Entry : Type 0 where
  allocation_entry : Allocation → Entry
  use_entry : AccessUse → Entry

abbrev pub entry_type : Entry → Text
entry_type (allocation_entry a) = a.type
entry_type (use_entry u) = u.type

abbrev pub allocations_of : List Entry → List Allocation
allocations_of [] = []
allocations_of (allocation_entry a ∷ entries) = a ∷ allocations_of entries
allocations_of (use_entry u ∷ entries) = allocations_of entries

abbrev pub uses_of : List Entry → List AccessUse
uses_of [] = []
uses_of (allocation_entry a ∷ entries) = uses_of entries
uses_of (use_entry u ∷ entries) = u ∷ uses_of entries

-- `int` of a column is a parameter, with no value where it raises.
module _ (read_int : Text → Option ℤ) where
  abbrev int : Text → Result ℤ
  int column = from_option (bad_number column) (read_int column)

  -- The columns from the seventh on: a site, if there are four and all are positive.
  unfoldable pub read_site : List Text → Result (Option Site)
  read_site (a ∷ b ∷ c ∷ d ∷ _) = do
    start_line ← int a
    start_column ← int b
    end_line ← int c
    end_column ← int d
    ok (
        if is_positive start_line
          && is_positive start_column
          && is_positive end_line
          && is_positive end_column
        then some (record {
          start_line = start_line;
          start_column = start_column;
          end_line = end_line;
          end_column = end_column;
        })
        else none)
  read_site _ = ok none

  abbrev read_allocation : Text → Text → List Text → Result (Option Entry)
  read_allocation function type_name more = do
    site ← read_site more
    ok (some (allocation_entry (record { function = function; type = type_name; site = site })))

  abbrev read_use : Text → Text → Text → Option Text → Result (Option Entry)
  read_use name type_name offset none = do
    o ← int offset
    ok (
        some (
          use_entry (record {
            name = name;
            type = type_name;
            offset = o;
            bytes = none;
            dynamic_bytes = true;
          })))
  read_use name type_name offset (some size) = do
    o ← int offset
    n ← int size
    ok (
        some (
          use_entry (record {
            name = name;
            type = type_name;
            offset = o;
            bytes = some n;
            dynamic_bytes = false;
          })))

  -- The body of the loop; a row with fewer columns, or of another kind, is skipped.
  unfoldable pub read_row : List Text → Result (Option Entry)
  unfolding read_site same
  read_row (kind ∷ name ∷ type_name ∷ function ∷ offset ∷ size ∷ more) =
      if same kind (codes "allocation")
      then read_allocation function type_name more
      else if same kind (codes "use")
      then read_use name type_name offset (some size)
      else if same kind (codes "dynamic_use")
      then read_use name type_name offset none
      else ok none
  read_row _ = ok none

  abbrev keep : Option Entry → List Entry → List Entry
  keep none entries = entries
  keep (some e) entries = e ∷ entries

  unfoldable pub read_rows : List (List Text) → Result (List Entry)
  read_rows [] = ok []
  read_rows (row ∷ rows) = do
    entry ← read_row row
    entries ← read_rows rows
    ok (keep entry entries)

abbrev line_of : Option Site → ℤ
line_of none = pos 0
line_of (some s) = s.start_line

abbrev column_of : Option Site → ℤ
column_of none = pos 0
column_of (some s) = s.start_column

-- `<` of two keys, `less` where the first parts are equal; the `not` says that they are.
abbrev then_by : Bool → Bool → Bool → Bool
then_by less greater next = less || (not greater && next)

unfoldable pub allocation_lt : Allocation → Allocation → Bool
unfolding text_lt
allocation_lt a b = then_by (text_lt a.function b.function) (text_lt b.function a.function) (
    then_by (text_lt a.type b.type) (text_lt b.type a.type) (
      then_by (ltb_ℤ (line_of a.site) (line_of b.site)) (ltb_ℤ (line_of b.site) (line_of a.site))
        (ltb_ℤ (column_of a.site) (column_of b.site))))

unfoldable pub build_policy : List Entry → Policy
unfolding sorted_set sort_by allocation_lt
build_policy entries = record {
  types = sorted_set (map entry_type entries);
  allocations = sort_by allocation_lt (allocations_of entries);
  uses = sort_by (λ (u v : AccessUse). text_lt u.name v.name) (uses_of entries);
}

unfoldable pub codeql_policy : (Text → Option ℤ) → List (List Text) → Result Policy
unfolding read_rows read_row build_policy
codeql_policy read_int rows = do entries ← read_rows read_int rows; ok (build_policy entries)
