-- ===== src/Backend.antt =====
-- `replace` on a file, `require_head` and the sequence of patches of backends/rlbox_nacl/apply_backend.py
-- and backends/rlbox_wasm2c/apply_backend.py.
pub mod NaclTexts
pub mod NaclSources
pub mod Wasm2cTexts
pub mod Nacl
pub mod Wasm2c
pub mod Apart
pub mod Again
pub mod Laws
use interspec_typed_allocato.Prelude.{
  Bool, true, false, Option, none, some, List, [], ◌∷◌, Text, same, if◌then◌else◌,
  unsupported_checkout, missing_file, Result, ok, err, ◌>>=◌, ◌>>◌, require, from_option,
}
use interspec_typed_allocato.Patch.{has, replace}

-- The files below the root, by their paths.
abbrev pub Files : Type 0
Files = Text → Option Text

-- `path.write_text(text)`
abbrev pub write_text : Text → Text → Files → Files
write_text path text files = λ other. if same path other then some text else files other

-- The arguments of one call of `replace`.
pub record Patch : Type 0 where
  pub path : Text
  pub old : Text
  pub new : Text

-- A file that has the new text already is not written.
unfoldable pub replace_file : Files → Patch → Result Files
unfolding has replace
replace_file files patch = do
  text ← from_option (missing_file patch.path) (files patch.path)
  text' ← replace text patch.old patch.new
  ok (if has patch.new text then files else write_text patch.path text' files)

unfoldable pub apply_patches : Files → List Patch → Result Files
apply_patches files [] = ok files
apply_patches files (patch ∷ rest) = do files' ← replace_file files patch; apply_patches files' rest

-- `git -C repo rev-parse HEAD`, stripped, is a function of the checkout, which the patches do not change.
unfoldable pub require_head : (Text → Result Text) → Text → Text → Result (Unit {0})
unfolding same
require_head heads repo expected = do
  actual ← heads repo
  require (same actual expected) (unsupported_checkout repo)
