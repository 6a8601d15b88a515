-- ===== src/Backend/Laws.antt =====
-- What the two `apply_backend` do to a checkout, and that they can be run again.
use interspec_typed_allocato.Prelude.{
  ℕ, ◌≡◌, refl, ap, ◌∙◌, true, false, not, ◌&&◌, [], ◌∷◌, ◌++◌, arith, Text, codes, same_iff, All,
  ◌==◌, Result, ok, ◌>>◌, >>=-eq-ok,
}
use interspec_typed_allocato.Backend.{Files, apply_patches, require_head}
use interspec_typed_allocato.Backend.Apart.{agrees, clashes}
use interspec_typed_allocato.Backend.Again.{
  keeps, all_keep, all_kept, IsApplied, apply_patches-IsApplied,
}
use interspec_typed_allocato.Backend.Nacl.{NaclManifest, nacl_patches, apply_nacl_backend}
use interspec_typed_allocato.Backend.Wasm2c.{Wasm2cManifest, wasm2c_patches, apply_wasm2c_backend}

nacl_patches-all_kept : all_kept nacl_patches ≡ true
unfolding all_kept all_keep keeps
nacl_patches-all_kept = refl

-- The checkout is at the commit.
require_head-same :
    (heads : Text → Result Text) (repo expected : Text) (rest : Result Files) {files : Files}
    → (require_head heads repo expected >> rest) ≡ ok files
    → (heads repo ≡ ok expected) × (require_head heads repo expected ≡ ok tt) × (rest ≡ ok files)
unfolding require_head
require_head-same heads repo expected rest h =
    let (_, e, k) = >>=-eq-ok (require_head heads repo expected) (λ _. rest) h in
    let (actual, e₁, e₂) = >>=-eq-ok (heads repo) _ e in
    (e₁ ∙ ap ok ((same_iff actual expected).0 (ground arith)), e, k)

-- Where the NaCl backend is patched, both checkouts are at the commits of the manifest. Afterwards the
-- new text of every patch is in its file, every other file is as it was, and a second run succeeds and
-- changes nothing.
pub apply_nacl_backend-IsApplied :
    (heads : Text → Result Text) (manifest : NaclManifest) (files : Files) {files' : Files}
    → apply_nacl_backend heads manifest files ≡ ok files'
    → (heads (codes ".") ≡ ok manifest.rlbox_nacl_sandbox)
      × (heads (codes "nacl_rlbox/native_client") ≡ ok manifest.nacl_sandbox_compiler)
      × IsApplied nacl_patches files files'
      × (apply_nacl_backend heads manifest files' ≡ ok files')
unfolding apply_nacl_backend
apply_nacl_backend-IsApplied heads manifest files {files'} h =
    let (head, passes, h₁) =
      require_head-same heads (codes ".") manifest.rlbox_nacl_sandbox
        (require_head heads (codes "nacl_rlbox/native_client") manifest.nacl_sandbox_compiler
          >> apply_patches files nacl_patches)
        h in
    let (head', passes', h₂) =
      require_head-same heads (codes "nacl_rlbox/native_client") manifest.nacl_sandbox_compiler
        (apply_patches files nacl_patches) h₁ in
    let applied = apply_patches-IsApplied nacl_patches files nacl_patches-all_kept h₂ in
    (
      head,
      head',
      applied,
      ap
            (λ (r : Result (Unit {0})).
              r
              >> (require_head heads (codes "nacl_rlbox/native_client")
                    manifest.nacl_sandbox_compiler
                  >> apply_patches files' nacl_patches))
            passes
          ∙ ap (λ (r : Result (Unit {0})). r >> apply_patches files' nacl_patches) passes'
          ∙ applied.again,
    )

-- A text whose first character is nowhere in the other one.
clashes-first :
    (c : ℕ) (part text after : Text)
    → All (λ (d : ℕ). (d == c) ≡ false) text
    → clashes (c ∷ part) after ≡ false
    → clashes (c ∷ part) (text ++ after) ≡ false
unfolding clashes agrees
clashes-first c part [] after h k = k
clashes-first c part (d ∷ text) after (n, more) k =
    ground (arith, clashes-first c part text after more k)

abbrev NoCapitalF : Text → Type 0
NoCapitalF commit = All (λ (c : ℕ). (c == b'F') ≡ false) commit

wasm2c_patches-all_kept :
    (rlbox wabt : Text) → NoCapitalF rlbox → all_kept (wasm2c_patches rlbox wabt) ≡ true
unfolding all_kept all_keep keeps clashes agrees
wasm2c_patches-all_kept rlbox wabt h =
    let apart : clashes
          (codes
            "FetchContent_Declare(\n  wasm2c_compiler\n  GIT_REPOSITORY https://github.com/WebAssembly/wabt/\n  GIT_TAG main)")
          (rlbox ++ codes ")")
        ≡ false =
      clashes-first b'F'
        (codes
          "etchContent_Declare(\n  wasm2c_compiler\n  GIT_REPOSITORY https://github.com/WebAssembly/wabt/\n  GIT_TAG main)")
        rlbox (codes ")") h refl in
    ap (λ b. ((not b && true) && true) && true) apart

-- Where the wasm2c backend is patched, and the commit of rlbox that is written into it has no capital
-- F, the checkout is at the commit of the manifest. Afterwards the new text of every patch is in its
-- file, every other file is as it was, and a second run succeeds and changes nothing.
pub apply_wasm2c_backend-IsApplied :
    (heads : Text → Result Text) (manifest : Wasm2cManifest) (files : Files) {files' : Files}
    → NoCapitalF manifest.rlbox
    → apply_wasm2c_backend heads manifest files ≡ ok files'
    → (heads (codes ".") ≡ ok manifest.rlbox_wasm2c_sandbox)
      × IsApplied (wasm2c_patches manifest.rlbox manifest.wabt) files files'
      × (apply_wasm2c_backend heads manifest files' ≡ ok files')
unfolding apply_wasm2c_backend
apply_wasm2c_backend-IsApplied heads manifest files {files'} n h =
    let patches = wasm2c_patches manifest.rlbox manifest.wabt in
    let (head, passes, h₁) =
      require_head-same heads (codes ".") manifest.rlbox_wasm2c_sandbox
        (apply_patches files patches) h in
    let applied =
      apply_patches-IsApplied patches files (wasm2c_patches-all_kept manifest.rlbox manifest.wabt n)
        h₁ in
    (
      head,
      applied,
      ap (λ (r : Result (Unit {0})). r >> apply_patches files' patches) passes ∙ applied.again,
    )
