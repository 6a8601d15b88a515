-- ===== src/Tests/Bridge.antt =====
-- Bridges that are transformed.
use interspec_typed_allocato.Prelude.{
  true, false, List, [], ◌∷◌, ◌++◌, ◌≡◌, ◌⊎◌, refl, Text, All, codes, no_patch_context, no_pattern,
  Result, ok, err,
}
use interspec_typed_allocato.Patch.{has}
use interspec_typed_allocato.Bridge.{
  Piece, exact, gap, blanks, Edit, once, every, regex, regex_once,
}
use interspec_typed_allocato.Bridge.Found.{IsIn, Replaces, regex_once-Replaces_or_refuses}
use interspec_typed_allocato.Bridge.Transform.{
  rlbox_only_edits, transform_rlbox_only, wasm2c_edits, transform_wasm2c, wasm2c_only_edits,
  transform_wasm2c_only, forbidden,
}
use interspec_typed_allocato.Bridge.WasmOnlyTexts.{typed_copy_call}
use interspec_typed_allocato.Bridge.Laws.{
  AllEdited, transform_wasm2c-AllEdited, transform_wasm2c_only-IsClean,
}
use interspec_typed_allocato.Bridge.Swapped.{Swapped, transform_rlbox_only-Swapped}

-- A text of the pattern.
abbrev sample : List Piece → Text
sample [] = []
sample (exact part ∷ pieces) = part ++ sample pieces
sample (gap ∷ pieces) = sample pieces
sample (blanks ∷ pieces) = b' ' ∷ sample pieces

abbrev untouched : List Edit → Text
untouched [] = []
untouched (once old new ∷ edits) = old ++ untouched edits
untouched (regex pieces new ∷ edits) = sample pieces ++ untouched edits
untouched (every old new ∷ edits) = untouched edits

abbrev result_of : Result Text → Text
result_of r = elim r [ ok text ↦ text | err _ ↦ [] ]

abbrev call_pattern : List Piece
call_pattern = exact (codes "call(") ∷ gap ∷ exact (codes ",") ∷ blanks ∷ exact (codes "b)") ∷ []

regular : interspec_typed_allocato.Bridge.Regex.is_regular call_pattern ≡ true
unfolding interspec_typed_allocato.Bridge.Regex.is_regular
regular = refl

regex_once-Replaces_or_refuses_example :
    (IsIn call_pattern (codes "x = call(a,  b);")
      × (result : Text) × (regex_once (codes "x = call(a,  b);") call_pattern (codes "0")
          ≡ ok result)
      × Replaces call_pattern (codes "0") (codes "x = call(a,  b);") result)
    ⊎ ((¬ IsIn call_pattern (codes "x = call(a,  b);"))
        × (regex_once (codes "x = call(a,  b);") call_pattern (codes "0") ≡ err no_pattern))
regex_once-Replaces_or_refuses_example =
    regex_once-Replaces_or_refuses (codes "x = call(a,  b);") (codes "0") call_pattern regular

replaced : regex_once (codes "x = call(a,  b);") call_pattern (codes "0") ≡ ok (codes "x = 0;")
unfolding regex_once
replaced = refl

rlbox_only_ok :
    transform_rlbox_only (untouched rlbox_only_edits)
    ≡ ok (result_of (transform_rlbox_only (untouched rlbox_only_edits)))
unfolding transform_rlbox_only interspec_typed_allocato.Bridge.edit
rlbox_only_ok = refl

transform_rlbox_only-Swapped_example :
    All (Swapped (result_of (transform_rlbox_only (untouched rlbox_only_edits)))) rlbox_only_edits
    × (transform_rlbox_only (result_of (transform_rlbox_only (untouched rlbox_only_edits)))
        ≡ err no_patch_context)
transform_rlbox_only-Swapped_example =
    transform_rlbox_only-Swapped (untouched rlbox_only_edits) rlbox_only_ok

wasm2c_ok :
    transform_wasm2c (untouched wasm2c_edits)
    ≡ ok (result_of (transform_wasm2c (untouched wasm2c_edits)))
unfolding transform_wasm2c interspec_typed_allocato.Bridge.edit
wasm2c_ok = refl

transform_wasm2c-AllEdited_example :
    AllEdited
      (untouched wasm2c_edits)
      wasm2c_edits
      (result_of (transform_wasm2c (untouched wasm2c_edits)))
transform_wasm2c-AllEdited_example = transform_wasm2c-AllEdited (untouched wasm2c_edits) wasm2c_ok

wasm2c_only_ok :
    transform_wasm2c_only (untouched wasm2c_only_edits)
    ≡ ok (result_of (transform_wasm2c_only (untouched wasm2c_only_edits)))
unfolding transform_wasm2c_only interspec_typed_allocato.Bridge.edit
wasm2c_only_ok = refl

transform_wasm2c_only-IsClean_example :
    AllEdited
      (untouched wasm2c_only_edits)
      wasm2c_only_edits
      (result_of (transform_wasm2c_only (untouched wasm2c_only_edits)))
    × All
        (λ (marker : Text).
          has marker (result_of (transform_wasm2c_only (untouched wasm2c_only_edits))) ≡ false)
        forbidden
    × (has typed_copy_call (result_of (transform_wasm2c_only (untouched wasm2c_only_edits)))
        ≡ false)
transform_wasm2c_only-IsClean_example =
    transform_wasm2c_only-IsClean (untouched wasm2c_only_edits) wasm2c_only_ok
