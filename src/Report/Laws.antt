-- ===== src/Report/Laws.antt =====
-- Which boundaries of a manifest are complete, what their counts are, and when the report is.
use interspec_typed_allocato.Prelude.{
  ℕ, ◌+◌, ◌≤◌, ◌≡◌, ◌↔◌, refl, ap, subst, Bool, true, false, inl, inr, Option, none, some, List, [],
  ◌∷◌, arith, Text, codes, filter, length, same, same_iff, All, Bool-cases,
}
use interspec_typed_allocato.Policy.{Policy}
use interspec_typed_allocato.Report.{
  BoundaryEntry, RoleHelper, Counts, Outcome, incomplete, complete, default, truthy, has_site,
  has_role, unknown_role, is_empty, all_counts, counts_of, load_policy, load_helpers, with_inputs,
  outcome_of,
}

filter-None :
    {A : Type 0} (p : A → Bool) (xs : List A)
    → (is_empty (filter p xs) ≡ true) ↔ All (λ x. p x ≡ false) xs
filter-None p [] = (λ _. tt, λ _. refl)
filter-None p (x ∷ xs) = elim (Bool-cases (p x)) [
  | inl t ↦ (λ h. absurd (ground arith), λ h. absurd (ground arith))
  | inr f ↦ (
    λ h. (f, (filter-None p xs).0 (rw (f, is_empty) at h)),
    λ h. rw (f, is_empty) ((filter-None p xs).1 h.1),
  )
]

length-filter : {A : Type 0} (p : A → Bool) (xs : List A) → length (filter p xs) ≤ length xs
length-filter p [] = omega arith
length-filter p (x ∷ xs) = ground (arith, length-filter p xs)

abbrev integration : RoleHelper → Bool
integration = has_role (codes "integration")

abbrev adversary : RoleHelper → Bool
adversary = has_role (codes "adversarial")

one_role : (h : RoleHelper) → integration h ≡ true → adversary h ≡ false
unfolding same
one_role h e = elim (Bool-cases (adversary h)) [
  | inl a ↦ absurd (
      ground (
        arith,
        (same_iff (default (codes "integration") h.role) (codes "integration")).0 e,
        (same_iff (default (codes "integration") h.role) (codes "adversarial")).0 a,
      ))
  | inr n ↦ n
]

-- Without an unknown role each helper is counted once.
roles_sum :
    (helpers : List RoleHelper)
    → All (λ h. unknown_role h ≡ false) helpers
    → length (filter integration helpers) + length (filter adversary helpers) ≡ length helpers
roles_sum [] k = refl
roles_sum (h ∷ helpers) (k, ks) = ground (arith, roles_sum helpers ks, one_role h)

-- An entry whose files are there, whose helpers have known roles, and the counts of it.
pub record IsCounted {Float : Type 0} (read_policy : Text → Option Policy)
    (read_helpers : Text → Option (List RoleHelper)) (entry : BoundaryEntry) (counts : Counts Float)
    : Type 0 where
  pub status_is : entry.status ≡ codes "full"
  pub policy : Policy
  pub policy_is : load_policy read_policy entry.policy ≡ some policy
  pub helpers : List RoleHelper
  pub helpers_are : load_helpers read_helpers entry.boundary_policy ≡ some helpers
  pub revised : truthy entry.source_revision ≡ true
  pub roles_known : All (λ h. unknown_role h ≡ false) helpers
  pub inferred_is : counts.inferred_allocation_sites ≡ length policy.allocations
  pub helper_is : counts.helper_sites ≡ length helpers
  pub uses_are : counts.trusted_uses ≡ length policy.uses
  pub total_is : counts.allocation_sites ≡ counts.inferred_allocation_sites + counts.helper_sites
  pub precise_le : counts.precise_source_allocation_sites ≤ counts.inferred_allocation_sites
  pub roles_are :
      counts.integration_helper_sites + counts.adversarial_helper_sites ≡ counts.helper_sites

complete_injective : {Float : Type 0} {c d : Counts Float} → complete c ≡ complete d → c ≡ d
complete_injective {Float} {c} h =
    ap (λ (o : Outcome Float). elim o [ incomplete _ ↦ c | complete a ↦ a ]) h

incomplete-ne :
    {Float : Type 0} {missing : List Text} {c : Counts Float} → incomplete missing ≡ complete c → ⊥
incomplete-ne h = cc

module _ {Float : Type 0} (zero_float : Float) (divide : ℕ → ℕ → Float)
    (read_policy : Text → Option Policy) (read_helpers : Text → Option (List RoleHelper)) where
  abbrev IsCountOf : BoundaryEntry → Policy → List RoleHelper → Counts Float → Type 0
  IsCountOf entry policy helpers counts =
      counts_of zero_float divide entry policy helpers ≡ complete counts

  counts_of-roles :
      (entry : BoundaryEntry) (policy : Policy) (helpers : List RoleHelper) (counts : Counts Float)
      → IsCountOf entry policy helpers counts
      → (is_empty (filter unknown_role helpers) ≡ true)
        × (all_counts zero_float divide entry policy helpers ≡ counts)
  unfolding counts_of
  counts_of-roles entry policy helpers counts h =
      elim (Bool-cases (is_empty (filter unknown_role helpers))) [
        | inl e ↦ (e, complete_injective (rw e at h))
        | inr n ↦ absurd (incomplete-ne (rw n at h))
      ]

  with_inputs-complete :
      (entry : BoundaryEntry) (policy : Option Policy) (helpers : Option (List RoleHelper))
      (counts : Counts Float)
      → with_inputs zero_float divide entry policy helpers ≡ complete counts
      → (p : Policy) × (hs : List RoleHelper) × (policy ≡ some p)
        × (helpers ≡ some hs)
        × (truthy entry.source_revision ≡ true)
        × IsCountOf entry p hs counts
  unfolding with_inputs
  with_inputs-complete entry none none counts h = absurd (incomplete-ne h)
  with_inputs-complete entry none (some hs) counts h = absurd (incomplete-ne h)
  with_inputs-complete entry (some p) none counts h = absurd (incomplete-ne h)
  with_inputs-complete entry (some p) (some hs) counts h =
      elim (Bool-cases (truthy entry.source_revision)) [
        | inl t ↦ (p, hs, refl, refl, t, rw t at h)
        | inr f ↦ absurd (incomplete-ne (rw f at h))
      ]

  -- A boundary is complete only if its status is full, its policy and its boundary file are there,
  -- its revision is given and each of its helpers has one of the two roles. Then its counts are
  -- those of the policy and of the helpers: the sites are the inferred ones and the helpers
  -- together, the precise ones are among the inferred ones, and each helper is counted under one
  -- role.
  pub outcome_of-IsCounted :
      (entry : BoundaryEntry) {counts : Counts Float}
      → outcome_of zero_float divide read_policy read_helpers entry ≡ complete counts
      → IsCounted read_policy read_helpers entry counts
  unfolding outcome_of
  outcome_of-IsCounted entry {counts} h = elim (Bool-cases (same entry.status (codes "full"))) [
    | inr n ↦ absurd (incomplete-ne (rw n at h))
    | inl full ↦
        let (policy, helpers, p, hs, r, c) =
          with_inputs-complete entry (load_policy read_policy entry.policy)
            (load_helpers read_helpers entry.boundary_policy) counts (rw full at h) in
        let (roles, counts_are) = counts_of-roles entry policy helpers counts c in
        let known = (filter-None unknown_role helpers).0 roles in
        subst (IsCounted read_policy read_helpers entry) counts_are (record {
          status_is = (same_iff entry.status (codes "full")).0 full;
          policy = policy;
          policy_is = p;
          helpers = helpers;
          helpers_are = hs;
          revised = r;
          roles_known = known;
          inferred_is = refl;
          helper_is = refl;
          uses_are = refl;
          total_is = refl;
          precise_le = length-filter has_site policy.allocations;
          roles_are = roles_sum helpers known;
        })
  ]
