-- ===== src/Tests/Backend.antt =====
-- Checkouts that are patched.
use interspec_typed_allocato.Prelude.{
  ℕ, false, none, some, List, [], ◌∷◌, ◌++◌, ◌≡◌, refl, Text, codes, same, All, arith, ◌==◌,
  if◌then◌else◌, Result, ok, err,
}
use interspec_typed_allocato.Backend.{Files, Patch, apply_patches}
use interspec_typed_allocato.Backend.Again.{IsApplied}
use interspec_typed_allocato.Backend.Nacl.{NaclManifest, nacl_patches, apply_nacl_backend}
use interspec_typed_allocato.Backend.Wasm2c.{Wasm2cManifest, wasm2c_patches, apply_wasm2c_backend}
use interspec_typed_allocato.Backend.Laws.{
  apply_nacl_backend-IsApplied, apply_wasm2c_backend-IsApplied,
}

-- A file for each path, which has the old texts of the patches at it and nothing else.
abbrev unpatched : List Patch → Files
unpatched [] path = none
unpatched (patch ∷ rest) path =
    let others = unpatched rest path in
    if same patch.path path
    then some (patch.old ++ elim others [ none ↦ [] | some text ↦ text ])
    else others

abbrev files_of : Result Files → Files
files_of r = elim r [ ok files ↦ files | err _ ↦ (λ path. none) ]

abbrev wasm2c_manifest : Wasm2cManifest
wasm2c_manifest = record {
  rlbox_wasm2c_sandbox = codes "c4f18c48cea47421617f72ba5edc95c68aa85671";
  rlbox = codes "b0157dc84f86ffbe4549e32ed5cbdfad79c17f43";
  wabt = codes "974221b1ef82f6393d004e5da6116f2ad3e44005";
}

abbrev wasm2c_heads : Text → Result Text
wasm2c_heads repo = ok wasm2c_manifest.rlbox_wasm2c_sandbox

abbrev wasm2c_files : Files
wasm2c_files = unpatched (wasm2c_patches (codes "main") (codes "main"))

abbrev wasm2c_run : Result Files
wasm2c_run = apply_wasm2c_backend wasm2c_heads wasm2c_manifest wasm2c_files

wasm2c_ok : wasm2c_run ≡ ok (files_of wasm2c_run)
unfolding apply_wasm2c_backend interspec_typed_allocato.Backend.replace_file
wasm2c_ok = refl

no_capital_f : All (λ (c : ℕ). (c == b'F') ≡ false) wasm2c_manifest.rlbox
no_capital_f = ground arith

apply_wasm2c_backend-IsApplied_example :
    (wasm2c_heads (codes ".") ≡ ok wasm2c_manifest.rlbox_wasm2c_sandbox)
    × IsApplied
        (wasm2c_patches wasm2c_manifest.rlbox wasm2c_manifest.wabt)
        wasm2c_files
        (files_of wasm2c_run)
    × (apply_wasm2c_backend wasm2c_heads wasm2c_manifest (files_of wasm2c_run)
        ≡ ok (files_of wasm2c_run))
apply_wasm2c_backend-IsApplied_example =
    apply_wasm2c_backend-IsApplied wasm2c_heads wasm2c_manifest wasm2c_files no_capital_f wasm2c_ok

abbrev nacl_manifest : NaclManifest
nacl_manifest = record {
  rlbox_nacl_sandbox = codes "0dd15342c86c0625c7c2ed7762a13feb524252d7";
  nacl_sandbox_compiler = codes "f274515ab22441ea6b4e937e519ace851fac308f";
}

abbrev nacl_heads : Text → Result Text
nacl_heads repo =
    if same repo (codes ".")
    then ok nacl_manifest.rlbox_nacl_sandbox
    else ok nacl_manifest.nacl_sandbox_compiler

abbrev nacl_files : Files
nacl_files = unpatched nacl_patches

abbrev nacl_run : Result Files
nacl_run = apply_nacl_backend nacl_heads nacl_manifest nacl_files

nacl_ok : nacl_run ≡ ok (files_of nacl_run)
unfolding apply_nacl_backend interspec_typed_allocato.Backend.replace_file
nacl_ok = refl

apply_nacl_backend-IsApplied_example :
    (nacl_heads (codes ".") ≡ ok nacl_manifest.rlbox_nacl_sandbox)
    × (nacl_heads (codes "nacl_rlbox/native_client") ≡ ok nacl_manifest.nacl_sandbox_compiler)
    × IsApplied nacl_patches nacl_files (files_of nacl_run)
    × (apply_nacl_backend nacl_heads nacl_manifest (files_of nacl_run) ≡ ok (files_of nacl_run))
apply_nacl_backend-IsApplied_example =
    apply_nacl_backend-IsApplied nacl_heads nacl_manifest nacl_files nacl_ok
