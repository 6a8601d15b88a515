-- ===== src/Report/Complete.antt =====
-- When the report of `build_report` is complete.
use interspec_typed_allocato.Prelude.{
  ℕ, ◌≤◌, ◌≡◌, ◌↔◌, refl, sym, ap, ◌∙◌, subst, Bool, true, false, not, ◌&&◌, ◌||◌, inl, inr, List,
  [], ◌∷◌, ◌++◌, map, arith, Text, any, concat, filter, length, contains, leb, All, Bool-cases,
}
use mathlib.Core.Path.{fun_ext}
use interspec_typed_allocato.Codeql.Laws.{contains-sorted_set}
use interspec_typed_allocato.Sites.{insert_name, sorted_set}
use interspec_typed_allocato.Report.{
  Metrics, is_empty, Manifest, or_default, is_complete, is_p7c, shapes_of, report_of,
}

is_empty-insert_name : (name : Text) (names : List Text) → is_empty (insert_name name names) ≡ false
unfolding insert_name
is_empty-insert_name name [] = refl
is_empty-insert_name name (other ∷ rest) = ground arith

is_empty-sorted_set : (names : List Text) → is_empty (sorted_set names) ≡ is_empty names
unfolding sorted_set
is_empty-sorted_set [] = refl
is_empty-sorted_set (name ∷ names) = is_empty-insert_name name (sorted_set names)

module _ {A : Type 0} (q : A → Bool) where
  -- No element fails the test.
  pub none_fails :
      (xs : List A) → (is_empty (filter (λ x. not (q x)) xs) ≡ true) ↔ All (λ x. q x ≡ true) xs
  none_fails [] = (λ _. tt, λ _. refl)
  none_fails (x ∷ xs) = elim (Bool-cases (q x)) [
    | inl t ↦ (
      λ h. (t, (none_fails xs).0 (rw (t, is_empty) at h)),
      λ h. rw (t, is_empty) ((none_fails xs).1 h.1),
    )
    | inr f ↦ (λ h. absurd (ground arith), λ h. absurd (ground arith))
  ]

  pub All-filter :
      (p : A → Bool) (xs : List A)
      → All (λ x. q x ≡ true) (filter p xs) ↔ All (λ x. p x ≡ true → q x ≡ true) xs
  All-filter p [] = (λ _. tt, λ _. tt)
  All-filter p (x ∷ xs) = elim (Bool-cases (p x)) [
    | inl t ↦ (
      λ h. let (a, b) = rw (t, All) at h in (λ _. a, (All-filter p xs).0 b),
      λ h. rw (t, All) (h.0 t, (All-filter p xs).1 h.1),
    )
    | inr f ↦ (
      λ h. (λ t. absurd (ground arith), (All-filter p xs).0 (rw (f, All) at h)),
      λ h. rw (f, All) ((All-filter p xs).1 h.1),
    )
  ]

and_iff : (a b c : Bool) → ((a && b && c) ≡ true) ↔ ((a ≡ true) × (b ≡ true) × (c ≡ true))
and_iff a b c = (λ h. ground arith, λ h. ground arith)

-- A boundary of the role `p7c` that is complete.
abbrev pub is_full : {Float : Type 0} → Metrics Float → Bool
is_full m = is_p7c m && is_complete m

-- One that has the shape.
abbrev pub covers : {Float : Type 0} → Text → Metrics Float → Bool
covers shape m = is_full m && contains m.pointer_shapes shape

-- What the completeness of the report stands for.
pub record IsAccepted {Float : Type 0} (manifest : Manifest) (metrics : List (Metrics Float))
    : Type 0 where
  pub enough : or_default 0 manifest.required_new_boundaries ≤ length (filter is_full metrics)
  pub covered : All (λ s. any (covers s) metrics ≡ true) manifest.required_pointer_shapes
  pub all_complete : All (λ (m : Metrics Float). is_p7c m ≡ true → is_complete m ≡ true) metrics

leb-le : (a b : ℕ) → (leb a b ≡ true) ↔ (a ≤ b)
leb-le a b = (λ h. ground arith, λ h. ground arith)

filter-filter :
    {A : Type 0} (p q : A → Bool) (xs : List A)
    → filter q (filter p xs) ≡ filter (λ x. p x && q x) xs
filter-filter p q [] = refl
filter-filter p q (x ∷ xs) = elim (Bool-cases (p x)) [
  | inr n ↦ rw (n, filter) (filter-filter p q xs)
  | inl y ↦ elim (Bool-cases (q x)) [
    | inr n ↦ rw (y, n, filter) (filter-filter p q xs)
    | inl t ↦ rw (y, t, filter) (ap (◌∷◌ x) (filter-filter p q xs))
  ]
]

any-append : (s : Text) (a b : List Text) → contains (a ++ b) s ≡ (contains a s || contains b s)
any-append s [] b = refl
any-append s (x ∷ a) b = ground (arith, any-append s a b)

-- The shapes of the complete boundaries of the role.
contains-shapes :
    {Float : Type 0} (s : Text) (metrics : List (Metrics Float))
    → contains (shapes_of (filter is_full metrics)) s ≡ any (covers s) metrics
contains-shapes {Float} s metrics =
    contains-sorted_set s (shapes (filter is_full metrics)) ∙ by_metrics metrics
  where
    shapes : List (Metrics Float) → List Text
    shapes ms = concat (map (λ (m : Metrics Float). m.pointer_shapes) ms)

    by_metrics :
        (ms : List (Metrics Float)) → contains (shapes (filter is_full ms)) s ≡ any (covers s) ms
    by_metrics [] = refl
    by_metrics (m ∷ ms) = elim (Bool-cases (is_full m)) [
      | inr n ↦ rw (n, filter) (by_metrics ms)
      | inl y ↦
          rw (y, filter)
            (any-append s m.pointer_shapes (shapes (filter is_full ms))
              ∙ ap (λ b. contains m.pointer_shapes s || b) (by_metrics ms))
    ]

-- A report is complete exactly when at least the required number of boundaries are of the role `p7c`
-- and complete, every required shape of a pointer is one of such a boundary, and every boundary of
-- that role is complete.
pub report_of-IsAccepted_iff :
    {Float : Type 0} (manifest : Manifest) (metrics : List (Metrics Float))
    → ((report_of manifest metrics).complete ≡ true) ↔ IsAccepted manifest metrics
unfolding report_of
report_of-IsAccepted_iff {Float} manifest metrics =
    let p7c = filter is_p7c metrics in
    let full = filter is_complete p7c in
    let full_is : full ≡ filter is_full metrics = filter-filter is_p7c is_complete metrics in
    let required = manifest.required_pointer_shapes in
    let holds = contains (shapes_of full) in
    let holds_is : (s : Text) → holds s ≡ any (covers s) metrics = λ s.
      ap (λ (ms : List (Metrics Float)). contains (shapes_of ms) s) full_is
      ∙ contains-shapes s metrics in
    let covered_is : All (λ s. holds s ≡ true) required
        ≡ All (λ s. any (covers s) metrics ≡ true) required =
      ap (λ (test : Text → Bool). All (λ s. test s ≡ true) required) (fun_ext holds_is) in
    let count = leb-le (or_default 0 manifest.required_new_boundaries) (length full) in
    let missing = filter (λ s. not (holds s)) required in
    let parts =
      and_iff (leb (or_default 0 manifest.required_new_boundaries) (length full))
        (is_empty (sorted_set missing)) (is_empty (filter (λ m. not (is_complete m)) p7c)) in
    (
      λ h.
          let (a, b, c) = parts.0 h in
          record {
            enough =
                subst
                  (λ (ms : List (Metrics Float)).
                    or_default 0 manifest.required_new_boundaries ≤ length ms)
                  full_is (count.0 a);
            covered =
                subst (λ P. P) covered_is
                  ((none_fails holds required).0 (sym (is_empty-sorted_set missing) ∙ b));
            all_complete =
                (All-filter is_complete is_p7c metrics).0 ((none_fails is_complete p7c).0 c);
          },
      λ i. parts.1 (
        count.1 (
            subst
              (λ (ms : List (Metrics Float)).
                or_default 0 manifest.required_new_boundaries ≤ length ms)
              (sym full_is) i.enough),
        is_empty-sorted_set missing
            ∙ (none_fails holds required).1 (subst (λ P. P) (sym covered_is) i.covered),
        (none_fails is_complete p7c).1 ((All-filter is_complete is_p7c metrics).1 i.all_complete),
      ),
    )
