-- ===== src/Prelude/Sorting.antt =====
-- Python's stable sort, as an insertion sort.
use mathlib.Core.Path.{◌≡◌}
use mathlib.Core.Bool.{Bool, true, false}
use mathlib.Core.Logic.{inl, inr}
use mathlib.Core.List.{List, [], ◌∷◌, Perm}
use mathlib.Core.List.Perm
use interspec_typed_allocato.Prelude.Tests.{if◌then◌else◌, Bool-cases}
use interspec_typed_allocato.Prelude.Lists.{All}

module _ {ℓ} {A : Type ℓ} (before : A → A → Bool) where
  -- `x` goes in front of the first entry that need not stand before it.
  unfoldable pub insert_by : A → List A → List A
  insert_by x [] = x ∷ []
  insert_by x (y ∷ ys) = let later = insert_by x ys in if before y x then y ∷ later else x ∷ y ∷ ys

  unfoldable pub sort_by : List A → List A
  unfolding insert_by
  sort_by [] = []
  sort_by (x ∷ xs) = insert_by x (sort_by xs)

  insert_by-perm : (x : A) (xs : List A) → Perm (insert_by x xs) (x ∷ xs)
  unfolding insert_by
  insert_by-perm x [] = Perm.refl _
  insert_by-perm x (y ∷ ys) = elim (Bool-cases (before y x)) [
    | inl b ↦ rw (b, insert_by) (Perm.trans (Perm.cons y (insert_by-perm x ys)) (Perm.swap x y ys))
    | inr b ↦ rw (b, insert_by) (Perm.refl _)
  ]

  pub sort_by-perm : (xs : List A) → Perm (sort_by xs) xs
  unfolding sort_by
  sort_by-perm [] = Perm.refl _
  sort_by-perm (x ∷ xs) = Perm.trans (insert_by-perm x (sort_by xs)) (Perm.cons x (sort_by-perm xs))

  pub insert_by-All {κ} :
      (P : A → Type κ) (x : A) (xs : List A) → P x → All P xs → All P (insert_by x xs)
  unfolding insert_by
  insert_by-All P x [] p q = (p, tt)
  insert_by-All P x (y ∷ ys) p q = elim (Bool-cases (before y x)) [
    | inl b ↦ rw (b, insert_by) (q.0, insert_by-All P x ys p q.1)
    | inr b ↦ rw (b, insert_by) (p, q)
  ]

  pub sort_by-All {κ} : (P : A → Type κ) (xs : List A) → All P xs → All P (sort_by xs)
  unfolding sort_by
  sort_by-All P [] h = tt
  sort_by-All P (x ∷ xs) h = insert_by-All P x (sort_by xs) h.0 (sort_by-All P xs h.1)

  -- No later entry need stand before an earlier one.
  abbrev pub Ordered : List A → Type 0
  Ordered [] = Unit
  Ordered (x ∷ xs) = All (λ y. before y x ≡ false) xs × Ordered xs

  module _ (asym : (x y : A) → before x y ≡ true → before y x ≡ false)
      (ge_trans : (x y z : A) → before x y ≡ false → before y z ≡ false → before x z ≡ false) where
    not_before :
        (x y : A) (ys : List A)
        → before y x ≡ false
        → All (λ z. before z y ≡ false) ys
        → All (λ z. before z x ≡ false) ys
    not_before x y [] b h = tt
    not_before x y (z ∷ ys) b h = (ge_trans z y x h.0 b, not_before x y ys b h.1)

    insert_by-Ordered : (x : A) (xs : List A) → Ordered xs → Ordered (insert_by x xs)
    unfolding insert_by
    insert_by-Ordered x [] h = (tt, tt)
    insert_by-Ordered x (y ∷ ys) h = elim (Bool-cases (before y x)) [
      | inl b ↦
          rw (b, insert_by)
            (
              insert_by-All (λ z. before z y ≡ false) x ys (asym y x b) h.0,
              insert_by-Ordered x ys h.1,
            )
      | inr b ↦ rw (b, insert_by) ((b, not_before x y ys b h.0), h)
    ]

    pub sort_by-Ordered : (xs : List A) → Ordered (sort_by xs)
    unfolding sort_by
    sort_by-Ordered [] = tt
    sort_by-Ordered (x ∷ xs) = insert_by-Ordered x (sort_by xs) (sort_by-Ordered xs)
