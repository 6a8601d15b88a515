-- ===== src/TypeIds.antt =====
-- The type numbers and the hash check of `generate` in tools/generate_policy.py and of
-- `generate_t_header` in tools/generate_wasm_boundary_policy.py.
pub mod Numbering
pub mod Accepted
use interspec_typed_allocato.Prelude.{
  ℕ, zero, suc, Option, none, some, List, [], ◌∷◌, Text, same, length, ◌==◌, if◌then◌else◌, Error,
  duplicate_type, hash_collision, Result, ok, err, ◌>>=◌, ◌>>◌, require,
}
use interspec_typed_allocato.Hash.{hash_type}

abbrev pub Ids : Type 0
Ids = List (Text × ℕ)

-- `ids[name] = value`
unfoldable pub enter : Text → ℕ → Ids → Ids
unfolding same
enter name value [] = (name, value) ∷ []
enter name value ((other, old) ∷ ids) =
    if same other name then (other, value) ∷ ids else (other, old) ∷ enter name value ids

-- `{name: index + 1 for index, name in enumerate(types)}`, from the dict so far.
unfoldable pub number_types : ℕ → Ids → List Text → Ids
unfolding enter
number_types next ids [] = ids
number_types next ids (name ∷ names) = number_types (suc next) (enter name next ids) names

abbrev pub names_of : Ids → List Text
names_of [] = []
names_of ((name, _) ∷ ids) = name ∷ names_of ids

-- The dict `hashes`, the last entry first; a key is entered once.
unfoldable pub find_hash : ℕ → List (ℕ × Text) → Option Text
find_hash value [] = none
find_hash value ((other, name) ∷ hashes) =
    if other == value then some name else find_hash value hashes

unfoldable pub check_hashes : List (ℕ × Text) → List Text → Result (Unit {0})
unfolding find_hash
check_hashes hashes [] = ok tt
check_hashes hashes (name ∷ names) = elim (find_hash (hash_type name) hashes) [
  | some other ↦ err (hash_collision other name)
  | none ↦ check_hashes ((hash_type name, name) ∷ hashes) names
]

unfoldable pub type_ids : List Text → Result Ids
unfolding number_types check_hashes
type_ids types = do
  let ids = number_types 1 [] types
  require (length ids == length types) duplicate_type
  check_hashes [] (names_of ids)
  ok ids
