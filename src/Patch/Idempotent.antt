-- ===== src/Patch/Idempotent.antt =====
-- A patch changes one place, and a second run of it changes nothing.
use mathlib.Core.Option.{none-ne-some}
use interspec_typed_allocato.Prelude.{
  ℕ, suc, ◌≡◌, refl, sym, ap, ◌∙◌, subst, true, false, inl, inr, ◌⊎◌, some, [], ◌∷◌, ◌++◌, arith,
  Text, starts_with, length, take, drop, Bool-cases, Option-cases, no_patch_context, Result, ok,
  err, from_option, >>=-eq-ok, from_option-eq-ok,
}
use interspec_typed_allocato.Patch.{find, has, replace_at, replace}

pub ok_injective : {x y : Text} → ok x ≡ ok y → x ≡ y
ok_injective {x} h = ap (λ (r : Result Text). elim r [ ok a ↦ a | err _ ↦ x ]) h

some_injective : {m n : ℕ} → some m ≡ some n → m ≡ n
some_injective h = ground arith

pub starts_with-append : (part rest : Text) → starts_with part (part ++ rest) ≡ true
unfolding starts_with
starts_with-append [] rest = refl
starts_with-append (c ∷ part) rest = ground (arith, starts_with-append part rest)

pub starts_with-splits :
    (part text : Text) → starts_with part text ≡ true → text ≡ part ++ drop (length part) text
unfolding starts_with
starts_with-splits [] text h = refl
starts_with-splits (c ∷ part) [] h = cc
starts_with-splits (c ∷ part) (d ∷ text) h = ground (arith, starts_with-splits part text)

pub has-append : (before part after : Text) → has part (before ++ (part ++ after)) ≡ true
unfolding has
has-append [] [] [] = refl
has-append [] [] (c ∷ after) = refl
has-append [] (c ∷ part) after = ground (arith, starts_with-append (c ∷ part) after)
has-append (c ∷ before) part after = ground (arith, has-append before part after)

-- The part stands at this place.
abbrev pub SplitsAt : Text → Text → ℕ → Type 0
SplitsAt part text n = text ≡ take n text ++ (part ++ drop (length part) (drop n text))

pub find-splits : (part text : Text) {n : ℕ} → find part text ≡ some n → SplitsAt part text n
unfolding find
find-splits part [] {n} h = elim (Bool-cases (starts_with part [])) [
  | inl s ↦
      let e : 0 ≡ n = some_injective (rw s at h) in
      subst (SplitsAt part []) e (starts_with-splits part [] s)
  | inr s ↦ absurd (none-ne-some n (rw s at h))
]
find-splits part (c ∷ rest) {n} h = elim (Bool-cases (starts_with part (c ∷ rest))) [
  | inl s ↦
      let e : 0 ≡ n = some_injective (rw (s, find) at h) in
      subst (SplitsAt part (c ∷ rest)) e (starts_with-splits part (c ∷ rest) s)
  | inr s ↦ elim (Option-cases (find part rest)) [
    | inl f ↦ absurd (none-ne-some n (ground arith))
    | inr (m, f) ↦
        let e : suc m ≡ n = ground arith in
        subst (SplitsAt part (c ∷ rest)) e (ap (◌∷◌ c) (find-splits part rest f))
  ]
]

pub find-le : (part text : Text) {n : ℕ} → find part text ≡ some n → length (take n text) ≡ n
unfolding find
find-le part [] {n} h = elim (Bool-cases (starts_with part [])) [
  | inl s ↦
      let e : 0 ≡ n = some_injective (rw s at h) in
      subst (λ k. length (take {A = ℕ} k []) ≡ k) e refl
  | inr s ↦ absurd (none-ne-some n (rw s at h))
]
find-le part (c ∷ rest) {n} h = elim (Bool-cases (starts_with part (c ∷ rest))) [
  | inl s ↦
      let e : 0 ≡ n = some_injective (rw (s, find) at h) in
      subst (λ k. length (take k (c ∷ rest)) ≡ k) e refl
  | inr s ↦ elim (Option-cases (find part rest)) [
    | inl f ↦ absurd (none-ne-some n (ground arith))
    | inr (m, f) ↦
        let e : suc m ≡ n = ground arith in
        subst (λ k. length (take k (c ∷ rest)) ≡ k) e (ap suc (find-le part rest f))
  ]
]

-- The text before and after a successful patch: nothing has changed where the new text was there
-- already, and otherwise the first occurrence of the old text is replaced by the new one.
abbrev pub Patched : Text → Text → Text → Text → Type 0
Patched old new text result =
    ((has new text ≡ true) × (result ≡ text))
    ⊎ ((has new text ≡ false)
        × ((before : Text) × ((after : Text) × (find old text ≡ some (length before))
              × (text ≡ before ++ (old ++ after))
              × (result ≡ before ++ (new ++ after)))))

replace-Patched :
    (text old new : Text) {result : Text}
    → replace text old new ≡ ok result
    → Patched old new text result
unfolding replace
replace-Patched text old new {result} h = elim (Bool-cases (has new text)) [
  | inl t ↦ inl (t, ok_injective (sym (rw (t, replace) at h)))
  | inr f ↦
      let (n, e, k) =
        >>=-eq-ok (from_option no_patch_context (find old text))
          (λ m. ok (replace_at old new m text)) (rw (f, replace) at h) in
      let found = from_option-eq-ok no_patch_context _ e in
      inr (
        f,
        (
          take n text,
          (
            drop (length old) (drop n text),
            found ∙ ap some (sym (find-le old text found)),
            find-splits old text found,
            ok_injective (sym k),
          ),
        ),
      )
]

pub Patched-has : (old new text result : Text) → Patched old new text result → has new result ≡ true
Patched-has old new text result (inl (t, e)) = rw e t
Patched-has old new text result (inr (f, (before, (after, found, s, r)))) =
    rw r (has-append before new after)

pub replace-has : (text old new : Text) → has new text ≡ true → replace text old new ≡ ok text
unfolding replace
replace-has text old new h = rw (h, replace)

-- Where a backend patch succeeds, either the file had the new text already and is left alone, or the
-- first occurrence of the old text, and nothing else, is replaced by the new one. After it the file
-- has the new text, so applying the patch again succeeds and changes nothing.
pub replace-Patched_again :
    (text old new : Text) {result : Text}
    → replace text old new ≡ ok result
    → Patched old new text result × (replace result old new ≡ ok result)
replace-Patched_again text old new {result} h =
    let p = replace-Patched text old new h in
    (p, replace-has result old new (Patched-has old new text result p))
