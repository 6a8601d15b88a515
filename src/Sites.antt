-- ===== src/Sites.antt =====
-- The site numbers, the order of instrumentation and the set of functions of `generate` in
-- tools/generate_policy.py.
pub mod Numbering
pub mod Sorted
use interspec_typed_allocato.Prelude.{
  ℕ, zero, suc, Bool, not, ◌&&◌, ◌||◌, Option, none, some, List, [], ◌∷◌, Text, same, contains,
  text_lt, sort_by, if◌then◌else◌, Error, unknown_allocation_type, Result, ok, err, ◌>>=◌, ◌>>◌,
  require,
}
use interspec_typed_allocato.Prelude.Integers.{ℤ, ltb_ℤ}
use interspec_typed_allocato.Policy.{Site, Allocation}

-- An allocation with a site, and the number of its site.
pub record Precise : Type 0 where
  pub allocation : Allocation
  pub site : Site
  pub site_id : ℕ

-- The loop that fills `site_ids`, and the list `precise`.
unfoldable pub number_sites : List Text → ℕ → List Allocation → Result (List Precise)
unfolding same
number_sites types next [] = ok []
number_sites types next (a ∷ rest) = do
  require (contains types a.type) (unknown_allocation_type a.type)
  elim a.site [
    | none ↦ number_sites types next rest
    | some site ↦ number_sites types (suc next) rest >>= λ more.
        ok (record { allocation = a; site = site; site_id = next } ∷ more)
  ]

unfoldable pub legacy_of : List Allocation → List Allocation
legacy_of [] = []
legacy_of (a ∷ rest) = let more = legacy_of rest in elim a.site [ none ↦ a ∷ more | some _ ↦ more ]

-- `<` of the sort keys, pairs of the line and the column.
unfoldable pub site_lt : Site → Site → Bool
site_lt a b =
    ltb_ℤ a.start_line b.start_line
    || (not (ltb_ℤ b.start_line a.start_line) && ltb_ℤ a.start_column b.start_column)

-- `sort(key=…, reverse=True)`: descending, and entries of one key keep their order.
unfoldable pub sort_sites : List Precise → List Precise
unfolding site_lt sort_by
sort_sites precise = sort_by (λ q p. site_lt p.site q.site) precise

-- `sorted({…})` of strings.
unfoldable pub insert_name : Text → List Text → List Text
unfolding text_lt same
insert_name name [] = name ∷ []
insert_name name (other ∷ rest) =
    let later = insert_name name rest in
    if same name other
    then other ∷ rest
    else if text_lt name other
    then name ∷ other ∷ rest
    else other ∷ later

unfoldable pub sorted_set : List Text → List Text
unfolding insert_name
sorted_set [] = []
sorted_set (name ∷ names) = insert_name name (sorted_set names)
