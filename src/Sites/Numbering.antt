-- ===== src/Sites/Numbering.antt =====
-- Which allocations `generate` accepts, and how it numbers their sites.
use interspec_typed_allocato.Prelude.{
  ℕ, suc, ◌+◌, ◌≤◌, ◌<◌, ◌≡◌, ◌↔◌, refl, sym, ap, ◌∙◌, subst, true, inl, inr, none, some, List, [],
  ◌∷◌, arith, Text, length, All, contains, Option-cases, unknown_allocation_type, ok, require-eq-ok,
  >>=-eq-ok,
}
use interspec_typed_allocato.Policy.{Allocation}
use interspec_typed_allocato.Sites.{Precise, number_sites}

-- The allocations that have a site, numbered from `next` on in the order of the policy.
unfoldable pub numbered : ℕ → List Allocation → List Precise
numbered next [] = []
numbered next (a ∷ rest) = elim a.site [
  | none ↦ numbered next rest
  | some site ↦ record { allocation = a; site = site; site_id = next } ∷ numbered (suc next) rest
]

-- The type of the allocation is one of the policy's.
abbrev pub IsKnown : List Text → Allocation → Type 0
IsKnown types a = contains types a.type ≡ true

module _ (types : List Text) where
  number_sites_known :
      (allocations : List Allocation) (next : ℕ)
      → All (IsKnown types) allocations
      → number_sites types next allocations ≡ ok (numbered next allocations)
  unfolding number_sites numbered
  number_sites_known [] next h = refl
  number_sites_known (a ∷ rest) next (k, h) = elim (Option-cases a.site) [
    | inl e ↦ rw (k, e, numbered) (number_sites_known rest next h)
    | inr (site, e) ↦ rw (k, e, numbered) (rw (number_sites_known rest (suc next) h))
  ]

  number_sites-IsKnown :
      (allocations : List Allocation) (next : ℕ) {precise : List Precise}
      → number_sites types next allocations ≡ ok precise
      → All (IsKnown types) allocations
  unfolding number_sites
  number_sites-IsKnown [] next h = tt
  number_sites-IsKnown (a ∷ rest) next h =
      let (k, h₁) = require-eq-ok (contains types a.type) (unknown_allocation_type a.type) _ h in
      elim (Option-cases a.site) [
        | inl e ↦ (k, number_sites-IsKnown rest next (rw e at h₁))
        | inr (site, e) ↦
            let (more, e', _) = >>=-eq-ok (number_sites types (suc next) rest) _ (rw e at h₁) in
            (k, number_sites-IsKnown rest (suc next) e')
      ]

ok_injective : {xs ys : List Precise} → ok xs ≡ ok ys → xs ≡ ys
ok_injective h = ground arith

-- The allocations of a policy are accepted exactly when the type of each is one of the policy's, and
-- then those with a site are numbered by consecutive numbers in the order of the policy.
pub number_sites-ok_iff :
    (types : List Text) (next : ℕ) (allocations : List Allocation) (precise : List Precise)
    → (number_sites types next allocations ≡ ok precise)
      ↔ (All (IsKnown types) allocations × (precise ≡ numbered next allocations))
number_sites-ok_iff types next allocations precise = (
  λ h.
      let k = number_sites-IsKnown types allocations next h in
      (k, ok_injective (sym h ∙ number_sites_known types allocations next k)),
  λ (k, e). number_sites_known types allocations next k ∙ ap ok (sym e),
)

-- The numbers of the sites.
abbrev pub InRange : ℕ → ℕ → Precise → Type 0
InRange low high p = (low ≤ p.site_id) × (p.site_id < high)

InRange-weaken :
    (low low' high : ℕ) (precise : List Precise)
    → low ≤ low'
    → All (InRange low' high) precise
    → All (InRange low high) precise
InRange-weaken low low' high [] h r = tt
InRange-weaken low low' high (p ∷ rest) h r =
    ((omega arith, r.0.1), InRange-weaken low low' high rest h r.1)

pub numbered-InRange :
    (next : ℕ) (allocations : List Allocation)
    → All (InRange next (next + length (numbered next allocations))) (numbered next allocations)
unfolding numbered
numbered-InRange next [] = tt
numbered-InRange next (a ∷ rest) = elim (Option-cases a.site) [
  | inl e ↦ rw (e, numbered) (numbered-InRange next rest)
  | inr (site, e) ↦
      rw (e, numbered)
        (
          (omega arith, omega arith),
          InRange-weaken next (suc next) _ _ (omega arith) (
              subst (λ n. All (InRange (suc next) n) (numbered (suc next) rest)) (omega arith)
                (numbered-InRange (suc next) rest)),
        )
]
