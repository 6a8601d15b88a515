-- ===== src/Patch.antt =====
-- The text patches of the backends and the bridges: `replace` of backends/rlbox_nacl/apply_backend.py
-- and backends/rlbox_wasm2c/apply_backend.py, and `replace_once` of
-- tools/build_p9a_rlbox_only_bridge.py and tools/build_p9b_wasm2c_bridge.py.
pub mod Idempotent
use interspec_typed_allocato.Prelude.{
  ℕ, zero, suc, ◌-◌, Bool, Option, none, some, List, [], ◌∷◌, ◌++◌, Text, starts_with, length, take,
  drop, ◌==◌, if◌then◌else◌, Error, no_patch_context, Result, ok, err, ◌>>=◌, ◌>>◌, require,
  from_option,
}

-- `text.find(part)`
unfoldable pub find : Text → Text → Option ℕ
unfolding starts_with
find part [] = if starts_with part [] then some 0 else none
find part (c ∷ rest) =
    let later = find part rest in
    if starts_with part (c ∷ rest)
    then some 0
    else elim later [ none ↦ none | some n ↦ some (suc n) ]

-- `part in text`
unfoldable pub has : Text → Text → Bool
unfolding find
has part text = elim (find part text) [ none ↦ Bool.false | some _ ↦ Bool.true ]

-- `text.replace(old, new, 1)` where `old` stands at this place.
abbrev pub replace_at : Text → Text → ℕ → Text → Text
replace_at old new n text = take n text ++ (new ++ drop (length old) (drop n text))

-- The text of the file after the call; a file that has the new text already is not written.
unfoldable pub replace : Text → Text → Text → Result Text
unfolding find has
replace text old new = elim (has new text) [
  | Bool.true ↦ ok text
  | Bool.false ↦
      from_option no_patch_context (find old text) >>= λ n. ok (replace_at old new n text)
]

-- `text.count(part)`: occurrences from the left that do not overlap.
unfoldable pub count : Text → ℕ → Text → ℕ
unfolding starts_with
count part skip [] = 0
count part (suc skip) (c ∷ rest) = count part skip rest
count part zero (c ∷ rest) = elim (starts_with part (c ∷ rest)) [
  | Bool.true ↦ suc (count part (length part - 1) rest)
  | Bool.false ↦ count part 0 rest
]

unfoldable pub replace_once : Text → Text → Text → Result Text
unfolding count find
replace_once text old new = do
  require (count old 0 text == 1) no_patch_context
  n ← from_option no_patch_context (find old text)
  ok (replace_at old new n text)
