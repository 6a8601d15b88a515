-- ===== src/Bridge/Once.antt =====
-- After `replace_once` the old text is gone.
use interspec_typed_allocato.Prelude.{
  ℕ, suc, ◌≤◌, ◌<◌, ◌≡◌, refl, sym, ap, ◌∙◌, Bool, true, false, inl, inr, ◌⊎◌, some, [], ◌∷◌, ◌++◌,
  append_assoc, arith, Text, starts_with, length, length-append, take, drop, take-append-drop, ◌==◌,
  ==_iff, Bool-cases, Option-cases, no_patch_context, ok, from_option, >>=-eq-ok, require-eq-ok,
  from_option-eq-ok,
}
use mathlib.Core.Option.{none-ne-some}
use mathlib.Core.List.{append_cancel_left}
use interspec_typed_allocato.Patch.{find, has, replace_at, count, replace_once}
use interspec_typed_allocato.Patch.Idempotent.{
  starts_with-append, find-splits, find-le, ok_injective,
}
use interspec_typed_allocato.Backend.Apart.{clashes, stays_in_front, Occurs, has-Occurs}

-- A text that does not clash with the one that was put in stands in front of that one or behind it.
pub Occurs-outside :
    (part new found rest before after : Text)
    → clashes new part ≡ false
    → clashes part new ≡ false
    → found ++ (part ++ rest) ≡ before ++ (new ++ after)
    → Occurs part before ⊎ Occurs part after
Occurs-outside part new [] rest before after h k e =
    let (more, split) = stays_in_front part new before rest after h e in inl ([], (more, split))
Occurs-outside part new (c ∷ found) rest [] after h k e =
    let (more, split) = stays_in_front new part (c ∷ found) after rest k (sym e) in
    inr (
      more,
      (
        rest,
        append_cancel_left new _ _ (
            sym e
            ∙ ap (λ text. text ++ (part ++ rest)) split
            ∙ append_assoc new more (part ++ rest)),
      ),
    )
Occurs-outside part new (c ∷ found) rest (d ∷ before) after h k e =
    elim (Occurs-outside part new found rest before after h k (ground arith)) [
      | inl (u, (v, s)) ↦ inl (d ∷ u, (v, ap (◌∷◌ d) s))
      | inr o ↦ inr o
    ]

some_injective : {m n : ℕ} → some m ≡ some n → m ≡ n
some_injective h = ground arith

-- The first place is not behind any other one.
find-first :
    (part before after : Text) {n : ℕ}
    → find part (before ++ (part ++ after)) ≡ some n
    → n ≤ length before
unfolding find
find-first [] [] [] h = omega (arith, some_injective h)
find-first [] [] (c ∷ after) h = omega (arith, some_injective h)
find-first (c ∷ part) [] after h =
    omega (arith, some_injective (rw (starts_with-append (c ∷ part) after, find) at h))
find-first part (d ∷ before) after {n} h =
    elim (Bool-cases (starts_with part (d ∷ (before ++ (part ++ after))))) [
      | inl y ↦ omega (arith, some_injective (rw (y, find) at h))
      | inr f ↦ elim (Option-cases (find part (before ++ (part ++ after)))) [
        | inl e ↦ absurd (none-ne-some n (rw (f, e, find) at h))
        | inr (m, e) ↦
            omega (arith, some_injective (rw (f, e, find) at h), find-first part before after e)
      ]
    ]

-- The first occurrence counts for one, and the count goes on behind it.
count-skip :
    (part skipped text : Text) → count part (length skipped) (skipped ++ text) ≡ count part 0 text
unfolding count
count-skip part [] text = refl
count-skip part (c ∷ skipped) text = count-skip part skipped text

count-here :
    (c : ℕ) (part text : Text)
    → count (c ∷ part) 0 ((c ∷ part) ++ text) ≡ suc (count (c ∷ part) 0 text)
unfolding count
count-here c part text =
    rw (starts_with-append (c ∷ part) text, count)
      (ap suc (
        ap (λ n. count (c ∷ part) n (part ++ text)) (omega arith)
        ∙ count-skip (c ∷ part) part text))

count-found :
    (c : ℕ) (part before after : Text)
    → find (c ∷ part) (before ++ ((c ∷ part) ++ after)) ≡ some (length before)
    → count (c ∷ part) 0 (before ++ ((c ∷ part) ++ after)) ≡ suc (count (c ∷ part) 0 after)
unfolding count find
count-found c part [] after h = count-here c part after
count-found c part (d ∷ before) after h =
    elim (Bool-cases (starts_with (c ∷ part) (d ∷ (before ++ ((c ∷ part) ++ after))))) [
      | inl y ↦ absurd (omega (arith, some_injective (rw (y, find) at h)))
      | inr f ↦ elim (Option-cases (find (c ∷ part) (before ++ ((c ∷ part) ++ after)))) [
        | inl e ↦ absurd (none-ne-some _ (rw (f, e, find) at h))
        | inr (m, e) ↦
            let here : m ≡ length before = omega (arith, some_injective (rw (f, e, find) at h)) in
            rw (f, count) (count-found c part before after (e ∙ ap some here))
      ]
    ]

Occurs-count :
    (c : ℕ) (part before after : Text) → 0 < count (c ∷ part) 0 (before ++ ((c ∷ part) ++ after))
unfolding count
Occurs-count c part [] after = omega (arith, count-here c part after)
Occurs-count c part (d ∷ before) after =
    elim (Bool-cases (starts_with (c ∷ part) (d ∷ (before ++ ((c ∷ part) ++ after))))) [
      | inl y ↦ rw (y, count) (omega arith)
      | inr n ↦ rw (n, count) (Occurs-count c part before after)
    ]

-- A text without the old text, and with the new one.
pub record IsReplaced (old new text result : Text) : Type 0 where
  pub before : Text
  pub after : Text
  pub counted : count old 0 text ≡ 1
  pub splits : text ≡ before ++ (old ++ after)
  pub result_is : result ≡ before ++ (new ++ after)
  pub before_lacks : has old before ≡ false
  pub after_lacks : has old after ≡ false

pub clash : {b : Bool} → b ≡ false → b ≡ true → ⊥
clash h k = cc

pub lacks : (part text : Text) → (Occurs part text → ⊥) → has part text ≡ false
lacks part text none_there = elim (Bool-cases (has part text)) [
  | inl y ↦ absurd (none_there (has-Occurs part text y))
  | inr n ↦ n
]

-- Nothing stands in front of the first place.
not_earlier :
    (c : ℕ) (old text : Text) (n : ℕ)
    → find (c ∷ old) text ≡ some n
    → Occurs (c ∷ old) (take n text)
    → ⊥
not_earlier c old text n found (u, (v, s)) =
    let part = c ∷ old in
    let whole : text ≡ u ++ (part ++ (v ++ drop n text)) =
      sym (take-append-drop n text)
      ∙ ap (λ t. t ++ drop n text) s
      ∙ append_assoc u (part ++ v) (drop n text)
      ∙ ap (λ t. u ++ t) (append_assoc part v (drop n text)) in
    let bound = find-first part u (v ++ drop n text) (ap (find part) (sym whole) ∙ found) in
    absurd (
      omega (
        arith,
        bound,
        find-le part text found,
        ap length s,
        length-append u (part ++ v),
        length-append part v,
      ))

pub replace_once-IsReplaced :
    (c : ℕ) (old new text : Text) {result : Text}
    → replace_once text (c ∷ old) new ≡ ok result
    → IsReplaced (c ∷ old) new text result
unfolding replace_once
replace_once-IsReplaced c old new text h =
    let part = c ∷ old in
    let (t, h₁) = require-eq-ok (count part 0 text == 1) no_patch_context _ h in
    let (n, e, k) =
      >>=-eq-ok (from_option no_patch_context (find part text))
        (λ m. ok (replace_at part new m text)) h₁ in
    let found = from_option-eq-ok no_patch_context _ e in
    let one = (==_iff _ _).0 t in
    let split = find-splits part text found in
    let at_before : find part text ≡ some (length (take n text)) =
      found ∙ ap some (sym (find-le part text found)) in
    let once_here : suc (count part 0 (drop (length part) (drop n text))) ≡ 1 =
      sym (
        count-found c old (take n text) (drop (length part) (drop n text))
          (ap (find part) (sym split) ∙ at_before))
      ∙ ap (count part 0) (sym split)
      ∙ one in
    record {
      before = take n text;
      after = drop (length part) (drop n text);
      counted = one;
      splits = split;
      result_is = ok_injective (sym k);
      before_lacks = lacks part (take n text) (not_earlier c old text n found);
      after_lacks = lacks part (drop (length part) (drop n text)) (λ (u, (v, s)).
          absurd (omega (arith, once_here, ap (count part 0) s, Occurs-count c old u v)));
    }
