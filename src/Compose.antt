-- ===== src/Compose.antt =====
-- `prepare_policy` of the two boundary generators: the policy with the boundary's types, and, for
-- the native one, the dynamic uses.
pub mod Laws
use interspec_typed_allocato.Prelude.{
  ℕ, Bool, not, ◌||◌, Option, none, some, List, [], ◌∷◌, ◌++◌, Text, same, contains, if◌then◌else◌,
  Error, empty_type_name, fixed_and_dynamic, Result, ok, err, ◌>>=◌, ◌>>◌, require,
}
use interspec_typed_allocato.Prelude.Integers.{ℤ, pos, negsuc}
use interspec_typed_allocato.MallocCall.{is_nonempty}
use interspec_typed_allocato.Policy.{AccessUse, Policy, Boundary}

-- The loop over the boundary's types; `known_types` is the set of the types so far.
unfoldable pub extend_types : List Text → List Text → Result (List Text)
unfolding same
extend_types types [] = ok types
extend_types types (name ∷ names) = do
  require (is_nonempty name) empty_type_name
  extend_types (if contains types name then types else types ++ (name ∷ [])) names

-- `"bytes" in use and int(use["bytes"]) != 0` fails.
abbrev pub has_no_bytes : Option ℤ → Bool
has_no_bytes none = Bool.true
has_no_bytes (some (pos ℕ.zero)) = Bool.true
has_no_bytes (some (pos (ℕ.suc n))) = Bool.false
has_no_bytes (some (negsuc n)) = Bool.false

-- The assignment to `bytes` of a dynamic use.
unfoldable pub prepared_use : AccessUse → AccessUse
prepared_use u = if u.dynamic_bytes then record u { bytes = some (pos 0) } else u

-- The uses with the extent of each dynamic one set to 0, and the names of those.
unfoldable pub prepare_uses : List AccessUse → Result (List AccessUse × List Text)
unfolding prepared_use
prepare_uses [] = ok ([], [])
prepare_uses (u ∷ uses) = do
  require (not u.dynamic_bytes || has_no_bytes u.bytes) (fixed_and_dynamic u.name)
  rest ← prepare_uses uses
  ok (prepared_use u ∷ rest.0, if u.dynamic_bytes then u.name ∷ rest.1 else rest.1)

-- Of the native generator.
unfoldable pub prepare_policy : Policy → Boundary → Result (Policy × List Text)
unfolding extend_types prepare_uses
prepare_policy policy boundary = do
  types ← extend_types policy.types boundary.types
  prepared ← prepare_uses policy.uses
  ok (record policy { types = types; uses = prepared.0 }, prepared.1)

-- Of the wasm2c generator.
unfoldable pub prepare_wasm_policy : Policy → Boundary → Result Policy
unfolding extend_types
prepare_wasm_policy policy boundary = do
  types ← extend_types policy.types boundary.types
  ok (record policy { types = types })
