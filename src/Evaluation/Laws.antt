-- ===== src/Evaluation/Laws.antt =====
-- When an evaluation is complete, and what its sums count.
use interspec_typed_allocato.Prelude.{
  ℕ, ◌≡◌, ◌↔◌, refl, sym, ◌∙◌, Bool, true, not, ◌&&◌, List, [], ◌∷◌, map, arith, filter, All,
}
use interspec_typed_allocato.Report.{Metrics, is_empty, Report}
use interspec_typed_allocato.Report.Complete.{none_fails, All-filter}
use interspec_typed_allocato.Evaluation.{
  SecurityRow, passes, is_real, has_revision, has_uses, has_adversarial, failing, failed_of, build,
}

is_empty-map : {A B : Type 0} (f : A → B) (xs : List A) → is_empty (map f xs) ≡ is_empty xs
is_empty-map f [] = refl
is_empty-map f (x ∷ xs) = refl

-- Every case passed, the boundaries are complete, and each of the real ones has a revision, a
-- trusted use and adversarial cases.
pub record IsDeterministic {Float : Type 0} (security : List SecurityRow)
    (generalization : Report Float) : Type 0 where
  pub passed : All (λ r. passes r ≡ true) security
  pub generalized : generalization.complete ≡ true
  pub revised :
      All
        (λ (m : Metrics Float). is_real m ≡ true → has_revision m ≡ true)
        generalization.boundaries
  pub used :
      All (λ (m : Metrics Float). is_real m ≡ true → has_uses m ≡ true) generalization.boundaries
  pub attacked :
      All
        (λ (m : Metrics Float). is_real m ≡ true → has_adversarial m ≡ true)
        generalization.boundaries

and_iff :
    (a b c d e : Bool)
    → ((a && b && c && d && e) ≡ true)
      ↔ ((a ≡ true) × (b ≡ true) × (c ≡ true) × (d ≡ true) × (e ≡ true))
and_iff a b c d e = (λ h. ground arith, λ h. ground arith)

failing_none :
    {Float : Type 0} (test : Metrics Float → Bool) (ms : List (Metrics Float))
    → (is_empty (failing test (filter is_real ms)) ≡ true)
      ↔ All (λ (m : Metrics Float). is_real m ≡ true → test m ≡ true) ms
failing_none test ms =
    let named = is_empty-map (λ m. m.name) (filter (λ m. not (test m)) (filter is_real ms)) in
    (
      λ h. (All-filter test is_real ms).0 ((none_fails test (filter is_real ms)).0 (sym named ∙ h)),
      λ h. named ∙ (none_fails test (filter is_real ms)).1 ((All-filter test is_real ms).1 h),
    )

failed_none :
    (security : List SecurityRow)
    → (is_empty (failed_of security) ≡ true) ↔ All (λ r. passes r ≡ true) security
failed_none security =
    let named =
      is_empty-map (λ (r : SecurityRow). r.case) (filter (λ r. not (passes r)) security) in
    (
      λ h. (none_fails passes security).0 (sym named ∙ h),
      λ h. named ∙ (none_fails passes security).1 h,
    )

module _ {Float : Type 0} (zero_float : Float) (divide : ℕ → ℕ → Float) where
  -- An evaluation is complete exactly when every security case passed, the report of the boundaries
  -- is complete, and each boundary of the role `baseline` or `p7c` has a source revision, at least
  -- one trusted use and adversarial cases.
  pub build-IsDeterministic_iff :
      (security : List SecurityRow) (generalization : Report Float)
      → ((build zero_float divide security generalization).deterministic_complete ≡ true)
        ↔ IsDeterministic security generalization
  unfolding build
  build-IsDeterministic_iff security generalization =
      let real = filter is_real generalization.boundaries in
      let parts =
        and_iff (is_empty (failed_of security)) generalization.complete
          (is_empty (failing has_revision real)) (is_empty (failing has_uses real))
          (is_empty (failing has_adversarial real)) in
      let ms = generalization.boundaries in
      (
        λ h.
            let (a, b, c, d, e) = parts.0 h in
            record {
              passed = (failed_none security).0 a;
              generalized = b;
              revised = (failing_none has_revision ms).0 c;
              used = (failing_none has_uses ms).0 d;
              attacked = (failing_none has_adversarial ms).0 e;
            },
        λ i. parts.1 (
          (failed_none security).1 i.passed,
          i.generalized,
          (failing_none has_revision ms).1 i.revised,
          (failing_none has_uses ms).1 i.used,
          (failing_none has_adversarial ms).1 i.attacked,
        ),
      )
