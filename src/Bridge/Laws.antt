-- ===== src/Bridge/Laws.antt =====
-- What the three `transform` leave behind.
use interspec_typed_allocato.Prelude.{
  ◌≡◌, sym, ap, subst, false, List, [], ◌∷◌, Text, All, forbidden_marker, Result, ok, err,
  >>=-eq-ok, refuse-eq-ok,
}
use interspec_typed_allocato.Boundary.{replace_all}
use interspec_typed_allocato.Patch.{has}
use interspec_typed_allocato.Bridge.{Edit, once, every, regex, edit, run_edits}
use interspec_typed_allocato.Bridge.Found.{Replaces, regex_once-Replaces}
use interspec_typed_allocato.Bridge.Once.{IsReplaced, replace_once-IsReplaced}
use interspec_typed_allocato.Bridge.Transform.{
  wasm2c_edits, transform_wasm2c, wasm2c_only_edits, transform_wasm2c_only, forbidden,
  refuse_markers,
}
use interspec_typed_allocato.Bridge.WasmOnlyTexts.{typed_copy_call}

-- What one edit does.
abbrev pub Edited : Text → Edit → Text → Type 0
Edited text (once [] new) result = edit text (once [] new) ≡ ok result
Edited text (once (c ∷ old) new) result = IsReplaced (c ∷ old) new text result
Edited text (regex pieces new) result = Replaces pieces new text result
Edited text (every old new) result = result ≡ replace_all old new 0 text

-- The edits one after the other.
abbrev pub AllEdited : Text → List Edit → Text → Type 0
AllEdited text [] result = text ≡ result
AllEdited text (next ∷ edits) result =
    (edited : Text) × Edited text next edited × AllEdited edited edits result

text_injective : {s t : Text} → ok s ≡ ok t → s ≡ t
text_injective {s} h = ap (λ (r : Result Text). elim r [ ok a ↦ a | err _ ↦ s ]) h

edit-Edited :
    (text : Text) (next : Edit) {result : Text}
    → edit text next ≡ ok result
    → Edited text next result
unfolding edit
edit-Edited text (once [] new) h = h
edit-Edited text (once (c ∷ old) new) h = replace_once-IsReplaced c old new text h
edit-Edited text (regex pieces new) h = regex_once-Replaces text new pieces h
edit-Edited text (every old new) h = text_injective (sym h)

run_edits-AllEdited :
    (text : Text) (edits : List Edit) {result : Text}
    → run_edits text edits ≡ ok result
    → AllEdited text edits result
unfolding run_edits
run_edits-AllEdited text [] h = text_injective h
run_edits-AllEdited text (next ∷ edits) h =
    let (edited, e, k) = >>=-eq-ok (edit text next) (λ t. run_edits t edits) h in
    (edited, edit-Edited text next e, run_edits-AllEdited edited edits k)

-- No marker is left in the text.
refuse_markers-lacks :
    (text : Text) (markers : List Text)
    → refuse_markers text markers ≡ ok tt
    → All (λ (marker : Text). has marker text ≡ false) markers
unfolding refuse_markers
refuse_markers-lacks text [] h = tt
refuse_markers-lacks text (marker ∷ markers) h =
    let (n, k) = refuse-eq-ok (has marker text) (forbidden_marker marker) _ h in
    (n, refuse_markers-lacks text markers k)

-- Where the wasm2c bridge is made of the one for NaCl, each of its edits in turn replaces the one
-- occurrence that there is of a text, or one part of the text that a pattern describes, or all
-- occurrences, and leaves the rest as it is.
pub transform_wasm2c-AllEdited :
    (text : Text) {result : Text}
    → transform_wasm2c text ≡ ok result
    → AllEdited text wasm2c_edits result
unfolding transform_wasm2c
transform_wasm2c-AllEdited text h = run_edits-AllEdited text wasm2c_edits h

-- The bridge without InterSpec that is made of a wasm2c bridge has its constructor and its copy
-- replaced, and neither a marker of the setup nor the call of the typed copy is left in it.
pub transform_wasm2c_only-IsClean :
    (text : Text) {result : Text}
    → transform_wasm2c_only text ≡ ok result
    → AllEdited text wasm2c_only_edits result
      × All (λ (marker : Text). has marker result ≡ false) forbidden
      × (has typed_copy_call result ≡ false)
unfolding transform_wasm2c_only
transform_wasm2c_only-IsClean text {result} h =
    let (edited, e, h₁) = >>=-eq-ok (run_edits text wasm2c_only_edits) _ h in
    let (_, m, h₂) = >>=-eq-ok (refuse_markers edited forbidden) _ h₁ in
    let (n, k) =
      refuse-eq-ok (has typed_copy_call edited) (forbidden_marker typed_copy_call) (ok edited) h₂ in
    subst
      (λ t.
        AllEdited text wasm2c_only_edits t
        × All (λ (marker : Text). has marker t ≡ false) forbidden
        × (has typed_copy_call t ≡ false))
      (text_injective k)
      (run_edits-AllEdited text wasm2c_only_edits e, refuse_markers-lacks edited forbidden m, n)
