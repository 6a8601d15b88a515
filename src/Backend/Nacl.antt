-- ===== src/Backend/Nacl.antt =====
-- `apply_backend` of backends/rlbox_nacl/apply_backend.py.
use interspec_typed_allocato.Prelude.{List, ◌++◌, Text, codes, Result, ◌>>◌}
use interspec_typed_allocato.Backend.{Files, Patch, apply_patches, require_head}
use interspec_typed_allocato.Backend.NaclTexts.{
  backend_patches, sel_ldr_patches, dyn_header_patches,
}
use interspec_typed_allocato.Backend.NaclSources.{
  dyn_source_patches, syscall_common_patches, sys_memory_patches,
}

-- The commits of the manifest.
pub record NaclManifest : Type 0 where
  pub rlbox_nacl_sandbox : Text
  pub nacl_sandbox_compiler : Text

abbrev pub nacl_patches : List Patch
nacl_patches =
    backend_patches
    ++ (sel_ldr_patches
        ++ (dyn_header_patches
            ++ (dyn_source_patches ++ (syscall_common_patches ++ sys_memory_patches))))

-- The paths are below the root, which is `.` itself.
unfoldable pub apply_nacl_backend : (Text → Result Text) → NaclManifest → Files → Result Files
unfolding require_head apply_patches
apply_nacl_backend heads manifest files = do
  require_head heads (codes ".") manifest.rlbox_nacl_sandbox
  require_head heads (codes "nacl_rlbox/native_client") manifest.nacl_sandbox_compiler
  apply_patches files nacl_patches
