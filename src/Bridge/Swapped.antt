-- ===== src/Bridge/Swapped.antt =====
-- A sequence of `replace_once` whose texts do not clash: all of them last, and it cannot run twice.
use interspec_typed_allocato.Prelude.{
  ℕ, ◌≡◌, refl, ap, subst, Bool, true, false, not, ◌&&◌, inl, inr, none, some, List, [], ◌∷◌, arith,
  Text, All, Bool-cases, Option-cases, no_patch_context, Result, ok, err, ◌>>=◌, >>=-eq-ok, ◌==◌,
}
use interspec_typed_allocato.Patch.{find, has, count, replace_once}
use interspec_typed_allocato.Backend.Apart.{clashes}
use interspec_typed_allocato.Bridge.{Edit, once, every, regex, edit, run_edits}
use interspec_typed_allocato.Bridge.Once.{IsReplaced, clash, replace_once-IsReplaced}
use interspec_typed_allocato.Bridge.Gone.{
  IsReplaced-has, IsReplaced-keeps, IsReplaced-gone, IsReplaced-lacks,
}
use interspec_typed_allocato.Bridge.NaclOnlyTexts.{
  constructor_block, rlbox_only_constructor, copy_to_u, rlbox_only_copy_to_u, p8_no_check,
  p9a_and_p8_no_check,
}
use interspec_typed_allocato.Bridge.Transform.{rlbox_only_edits, transform_rlbox_only}

-- The two texts cannot overlap.
unfoldable apart : Text → Text → Bool
unfolding clashes
apart text other = not (clashes text other) && not (clashes other text)

unfoldable is_once : Edit → Bool
is_once (once (c ∷ old) new) = true
is_once next = false

-- The later edit neither takes the new text of the earlier one away nor brings its old text back.
unfoldable spares : Edit → Edit → Bool
unfolding apart
spares (once old new) (once old' new') = apart new old' && apart old new'
spares next later = false

unfoldable all_spare : Edit → List Edit → Bool
all_spare next [] = true
all_spare next (later ∷ edits) = spares next later && all_spare next edits

unfoldable are_swaps : List Edit → Bool
are_swaps [] = true
are_swaps (once (c ∷ old) new ∷ edits) =
    apart (c ∷ old) new && (all_spare (once (c ∷ old) new) edits && are_swaps edits)
are_swaps (next ∷ edits) = false

-- The new text is there, and the old one is not.
abbrev pub Swapped : Text → Edit → Type 0
Swapped text (once old new) = (has old text ≡ false) × (has new text ≡ true)
Swapped text next = ⊥

apart-clashes :
    (text other : Text)
    → apart text other ≡ true
    → (clashes text other ≡ false) × (clashes other text ≡ false)
unfolding apart
apart-clashes text other h = (ground arith, ground arith)

and_true : (a b : Bool) → (a && b) ≡ true → (a ≡ true) × (b ≡ true)
and_true a b h = ground arith

text_injective : {s t : Text} → ok s ≡ ok t → s ≡ t
text_injective {s} h = ap (λ (r : Result Text). elim r [ ok a ↦ a | err _ ↦ s ]) h

spared :
    (next : Edit) (c : ℕ) (old new text : Text) {result : Text}
    → spares next (once (c ∷ old) new) ≡ true
    → IsReplaced (c ∷ old) new text result
    → Swapped text next
    → Swapped result next
unfolding spares
spared (once first last) c old new text g r (n, y) =
    let (g₁, g₂) = and_true (apart last (c ∷ old)) (apart first new) g in
    let (h₁, h₂) = apart-clashes last (c ∷ old) g₁ in
    let (k₁, k₂) = apart-clashes first new g₂ in
    (IsReplaced-lacks r first k₂ k₁ n, IsReplaced-keeps r last h₂ h₁ y)
spared (every first last) c old new text g r s = cc
spared (regex first last) c old new text g r s = cc

stays_Swapped :
    (next : Edit) (edits : List Edit) (text : Text) {result : Text}
    → all_spare next edits ≡ true
    → are_swaps edits ≡ true
    → run_edits text edits ≡ ok result
    → Swapped text next
    → Swapped result next
unfolding all_spare are_swaps run_edits edit
stays_Swapped next [] text g k e s = subst (λ t. Swapped t next) (text_injective e) s
stays_Swapped next (once (c ∷ old) new ∷ edits) text g k e s =
    let (edited, e₁, e₂) = >>=-eq-ok (replace_once text (c ∷ old) new) (λ t. run_edits t edits) e in
    let (g₁, g₂) = and_true (spares next (once (c ∷ old) new)) (all_spare next edits) g in
    let (_, k₂) =
      and_true (all_spare (once (c ∷ old) new) edits) (are_swaps edits)
        (and_true (apart (c ∷ old) new) (all_spare (once (c ∷ old) new) edits && are_swaps edits)
          k).1 in
    stays_Swapped next edits edited g₂ k₂ e₂
      (spared next c old new text g₁ (replace_once-IsReplaced c old new text e₁) s)
stays_Swapped next (once [] new ∷ edits) text g k e s = cc
stays_Swapped next (every old new ∷ edits) text g k e s = cc
stays_Swapped next (regex pieces new ∷ edits) text g k e s = cc

are_swaps-Swapped :
    (edits : List Edit) (text : Text) {result : Text}
    → are_swaps edits ≡ true
    → run_edits text edits ≡ ok result
    → All (Swapped result) edits
unfolding are_swaps run_edits edit
are_swaps-Swapped [] text k e = tt
are_swaps-Swapped (once (c ∷ old) new ∷ edits) text k e =
    let (edited, e₁, e₂) = >>=-eq-ok (replace_once text (c ∷ old) new) (λ t. run_edits t edits) e in
    let (k₁, more) =
      and_true (apart (c ∷ old) new) (all_spare (once (c ∷ old) new) edits && are_swaps edits) k in
    let (k₂, k₃) = and_true (all_spare (once (c ∷ old) new) edits) (are_swaps edits) more in
    let r = replace_once-IsReplaced c old new text e₁ in
    let (h₁, h₂) = apart-clashes (c ∷ old) new k₁ in
    (
      stays_Swapped (once (c ∷ old) new) edits edited k₂ k₃ e₂
          (IsReplaced-gone r h₂ h₁, IsReplaced-has r),
      are_swaps-Swapped edits edited k₃ e₂,
    )
are_swaps-Swapped (once [] new ∷ edits) text k e = cc
are_swaps-Swapped (every old new ∷ edits) text k e = cc
are_swaps-Swapped (regex pieces new ∷ edits) text k e = cc

-- A text without the old text is refused.
lacks-refused :
    (old new text : Text) → has old text ≡ false → replace_once text old new ≡ err no_patch_context
unfolding replace_once has
lacks-refused old new text h = elim (Option-cases (find old text)) [
  | inr (n, e) ↦ absurd (clash h (ap (λ o. elim o [ none ↦ false | some _ ↦ true ]) e))
  | inl e ↦ elim (Bool-cases (count old 0 text == 1)) [
    | inl y ↦ rw (y, e, replace_once) refl
    | inr n ↦ rw (n, replace_once) refl
  ]
]

rlbox_only_edits-are_swaps : are_swaps rlbox_only_edits ≡ true
unfolding are_swaps all_spare spares apart
rlbox_only_edits-are_swaps = refl

-- The NaCl bridge without InterSpec that is made of the bridge with it has the three new blocks and
-- none of the three old ones, so that it is refused when it is to be made of it once more.
pub transform_rlbox_only-Swapped :
    (text : Text) {result : Text}
    → transform_rlbox_only text ≡ ok result
    → All (Swapped result) rlbox_only_edits × (transform_rlbox_only result ≡ err no_patch_context)
unfolding transform_rlbox_only edit
transform_rlbox_only-Swapped text {result} h =
    let swapped = are_swaps-Swapped rlbox_only_edits text rlbox_only_edits-are_swaps h in
    (
      swapped,
      ap
          (λ (r : Result Text). r >>= λ t.
            run_edits t
              (once copy_to_u rlbox_only_copy_to_u ∷ once p8_no_check p9a_and_p8_no_check ∷ []))
          (lacks-refused constructor_block rlbox_only_constructor result swapped.0.0),
    )
