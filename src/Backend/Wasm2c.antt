-- ===== src/Backend/Wasm2c.antt =====
-- `apply_backend` of backends/rlbox_wasm2c/apply_backend.py.
use interspec_typed_allocato.Prelude.{List, ◌++◌, Text, codes, Result, ◌>>◌}
use interspec_typed_allocato.Backend.{Files, Patch, apply_patches, require_head}
use interspec_typed_allocato.Backend.Wasm2cTexts.{
  cmake_patches, mem_header_patches, sandbox_patches,
}

-- The commits of the manifest.
pub record Wasm2cManifest : Type 0 where
  pub rlbox_wasm2c_sandbox : Text
  pub rlbox : Text
  pub wabt : Text

abbrev pub wasm2c_patches : Text → Text → List Patch
wasm2c_patches rlbox wabt = cmake_patches rlbox wabt ++ (mem_header_patches ++ sandbox_patches)

unfoldable pub apply_wasm2c_backend : (Text → Result Text) → Wasm2cManifest → Files → Result Files
unfolding require_head apply_patches
apply_wasm2c_backend heads manifest files = do
  require_head heads (codes ".") manifest.rlbox_wasm2c_sandbox
  apply_patches files (wasm2c_patches manifest.rlbox manifest.wabt)
