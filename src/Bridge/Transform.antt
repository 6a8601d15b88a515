-- ===== src/Bridge/Transform.antt =====
-- `transform` of the three builders of bridges.
use interspec_typed_allocato.Prelude.{
  List, [], ◌∷◌, Text, codes, forbidden_marker, Result, ok, ◌>>=◌, ◌>>◌, refuse,
}
use interspec_typed_allocato.Patch.{has}
use interspec_typed_allocato.Bridge.{Edit, once, run_edits}
use interspec_typed_allocato.Bridge.NaclOnlyTexts.{
  constructor_block, rlbox_only_constructor, copy_to_u, rlbox_only_copy_to_u, p8_no_check,
  p9a_and_p8_no_check,
}
use interspec_typed_allocato.Bridge.Wasm2cTexts.{
  sandbox_headers_edit, wasm_policy_header_edit, sandbox_type_edit, nacl_lifetime_typedefs_edit,
  nacl_lifetime_declaration_edit, nacl_callback_declarations_edit,
}
use interspec_typed_allocato.Bridge.Wasm2cEngine.{
  engine_constructor_edit, allocation_dispatch_method_edit, nacl_callback_members_edit,
  duplicate_members_edit, nacl_callback_implementations_edit,
}
use interspec_typed_allocato.Bridge.WasmOnlyTexts.{
  wasm_engine_constructor_edit, copy_to_u_edit, typed_copy_call,
}

abbrev pub rlbox_only_edits : List Edit
rlbox_only_edits =
    once constructor_block rlbox_only_constructor
    ∷ once copy_to_u rlbox_only_copy_to_u
    ∷ once p8_no_check p9a_and_p8_no_check
    ∷ []

unfoldable pub transform_rlbox_only : Text → Result Text
unfolding run_edits
transform_rlbox_only text = run_edits text rlbox_only_edits

abbrev pub wasm2c_edits : List Edit
wasm2c_edits =
    sandbox_headers_edit ∷ wasm_policy_header_edit ∷ sandbox_type_edit ∷ nacl_lifetime_typedefs_edit
    ∷ nacl_lifetime_declaration_edit ∷ nacl_callback_declarations_edit ∷ engine_constructor_edit
    ∷ allocation_dispatch_method_edit ∷ nacl_callback_members_edit ∷ duplicate_members_edit
    ∷ nacl_callback_implementations_edit ∷ []

unfoldable pub transform_wasm2c : Text → Result Text
unfolding run_edits
transform_wasm2c text = run_edits text wasm2c_edits

abbrev pub forbidden : List Text
forbidden =
    codes "reserve_typed_arena"
    ∷ codes "set_interspec_runtime"
    ∷ codes "register_wasm_allocation_policy"
    ∷ []

unfoldable pub refuse_markers : Text → List Text → Result (Unit {0})
unfolding has
refuse_markers text [] = ok tt
refuse_markers text (marker ∷ markers) = do
  refuse (has marker text) (forbidden_marker marker)
  refuse_markers text markers

abbrev pub wasm2c_only_edits : List Edit
wasm2c_only_edits = wasm_engine_constructor_edit ∷ copy_to_u_edit ∷ []

unfoldable pub transform_wasm2c_only : Text → Result Text
unfolding run_edits refuse_markers
transform_wasm2c_only text = do
  text' ← run_edits text wasm2c_only_edits
  refuse_markers text' forbidden
  refuse (has typed_copy_call text') (forbidden_marker typed_copy_call)
  ok text'
