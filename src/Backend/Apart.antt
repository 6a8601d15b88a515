-- ===== src/Backend/Apart.antt =====
-- Texts that cannot overlap: replacing the one keeps the other.
use interspec_typed_allocato.Prelude.{
  ℕ, ◌≡◌, refl, sym, ap, ap₂, ◌∙◌, Bool, true, false, ◌&&◌, ◌||◌, inl, inr, [], ◌∷◌, ◌++◌,
  append_assoc, arith, Text, ◌==◌, Option-cases, or_false, take, drop, length,
}
use interspec_typed_allocato.Patch.{find, has}
use interspec_typed_allocato.Patch.Idempotent.{has-append, find-splits}
use mathlib.Core.List.{append_cancel_left}

-- One of the two texts begins with the other.
unfoldable pub agrees : Text → Text → Bool
agrees [] text = true
agrees (c ∷ part) [] = true
agrees (c ∷ part) (d ∷ text) = c == d && agrees part text

-- The part, or the begin of it, stands somewhere in the text.
unfoldable pub clashes : Text → Text → Bool
unfolding agrees
clashes part [] = false
clashes part (c ∷ text) = agrees (c ∷ text) part || clashes part text

agrees-append : (s t u v : Text) → s ++ u ≡ t ++ v → agrees s t ≡ true
unfolding agrees
agrees-append [] t u v h = refl
agrees-append (c ∷ s) [] u v h = refl
agrees-append (c ∷ s) (d ∷ t) u v h =
    let (same_head, same_rest) : (c ≡ d) × (s ++ u ≡ t ++ v) = (ground arith, ground arith) in
    ground (arith, agrees-append s t u v same_rest)

-- A text that stands in front of another that it does not clash with.
pub stays_in_front :
    (text part front rest after : Text)
    → clashes part text ≡ false
    → text ++ rest ≡ front ++ (part ++ after)
    → (more : Text) × (front ≡ text ++ more)
unfolding clashes
stays_in_front [] part front rest after h e = (front, refl)
stays_in_front (c ∷ text) part [] rest after h e =
    let clash = agrees-append (c ∷ text) part rest after e in ground (arith, clash)
stays_in_front (c ∷ text) part (d ∷ front) rest after h e =
    let (same_head, same_rest) : (c ≡ d) × (text ++ rest ≡ front ++ (part ++ after)) =
      (ground arith, ground arith) in
    let (more, split) =
      stays_in_front text part front rest after
        (or_false (agrees (c ∷ text) part) (clashes part text) h).1 same_rest in
    (more, ap₂ ◌∷◌ (sym same_head) split)

-- The part stands somewhere in the text.
abbrev pub Occurs : Text → Text → Type 0
Occurs part text = (before : Text) × ((after : Text) × (text ≡ before ++ (part ++ after)))

pub Occurs-has : (part text : Text) → Occurs part text → has part text ≡ true
Occurs-has part text (before, (after, e)) = ap (has part) e ∙ has-append before part after

pub has-Occurs : (part text : Text) → has part text ≡ true → Occurs part text
unfolding has
has-Occurs part text h = elim (Option-cases (find part text)) [
  | inl f ↦ ground arith
  | inr (n, f) ↦ (take n text, (drop (length part) (drop n text), find-splits part text f))
]

Occurs-cons : (c : ℕ) (part text : Text) → Occurs part text → Occurs part (c ∷ text)
Occurs-cons c part text (before, (after, e)) = (c ∷ before, (after, ap (◌∷◌ c) e))

-- A part stays in a text when another one, that it does not clash with, is replaced there.
Occurs-replaced :
    (part old new found rest before after : Text)
    → clashes old part ≡ false
    → clashes part old ≡ false
    → found ++ (part ++ rest) ≡ before ++ (old ++ after)
    → Occurs part (before ++ (new ++ after))
Occurs-replaced part old new [] rest before after h k e =
    let (more, split) = stays_in_front part old before rest after h e in
    (
      [],
      (
        more ++ (new ++ after),
        ap (λ text. text ++ (new ++ after)) split ∙ append_assoc part more (new ++ after),
      ),
    )
Occurs-replaced part old new (c ∷ found) rest [] after h k e =
    let (more, split) = stays_in_front old part (c ∷ found) after rest k (sym e) in
    let behind : after ≡ more ++ (part ++ rest) =
      append_cancel_left old _ _ (
        sym e ∙ ap (λ text. text ++ (part ++ rest)) split ∙ append_assoc old more (part ++ rest)) in
    (
      new ++ more,
      (rest, ap (λ text. new ++ text) behind ∙ sym (append_assoc new more (part ++ rest))),
    )
Occurs-replaced part old new (c ∷ found) rest (d ∷ before) after h k e =
    Occurs-cons d part (before ++ (new ++ after))
      (Occurs-replaced part old new found rest before after h k (ground arith))

pub has-replaced :
    (part old new before after : Text)
    → clashes old part ≡ false
    → clashes part old ≡ false
    → has part (before ++ (old ++ after)) ≡ true
    → has part (before ++ (new ++ after)) ≡ true
has-replaced part old new before after h k t =
    let (found, (rest, e)) = has-Occurs part (before ++ (old ++ after)) t in
    Occurs-has part (before ++ (new ++ after))
      (Occurs-replaced part old new found rest before after h k (sym e))
