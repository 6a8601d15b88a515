-- ===== src/Summary/Groups.antt =====
-- The groups that the loop over the samples makes: each holds the samples of its own workload and
-- repetition, and no two are of the same.
use interspec_typed_allocato.Prelude.{
  ◌≡◌, sym, ◌∙◌, subst, false, inl, inr, List, [], ◌∷◌, arith, Text, same_iff, All, Bool-cases, ok,
}
use interspec_typed_allocato.Prelude.Integers.{ℤ}
use interspec_typed_allocato.Summary.{
  Sample, Collected, Group, is_group, group_values, add_to_group, collect_loop, collect,
}
use interspec_typed_allocato.Summary.Tables.{grouped, same_ℤ_iff, IsCollected}
use interspec_typed_allocato.Summary.Loop.{loop_step, with_sample, ok_injective}

module _ {V : Type 0} where
  -- No two groups are of one workload and repetition.
  abbrev pub GroupsApart : List (Group V) → Type 0
  GroupsApart [] = Unit
  GroupsApart (g ∷ groups) =
      All (λ (h : Group V). is_group h.workload h.repetition g ≡ false) groups × GroupsApart groups

  All-add_to_group :
      (P : Text → ℤ → Type 0) (s : Sample V) (groups : List (Group V))
      → P s.workload s.repetition
      → All (λ (h : Group V). P h.workload h.repetition) groups
      → All (λ (h : Group V). P h.workload h.repetition) (add_to_group s groups)
  unfolding add_to_group
  All-add_to_group P s [] p a = (p, tt)
  All-add_to_group P s (g ∷ groups) p (q, a) =
      elim (Bool-cases (is_group s.workload s.repetition g)) [
        | inl t ↦ rw (t, add_to_group) (q, a)
        | inr f ↦ rw (f, add_to_group) (q, All-add_to_group P s groups p a)
      ]

  add_to_group-GroupsApart :
      (s : Sample V) (groups : List (Group V))
      → GroupsApart groups
      → GroupsApart (add_to_group s groups)
  unfolding add_to_group
  add_to_group-GroupsApart s [] h = (tt, tt)
  add_to_group-GroupsApart s (g ∷ groups) (a, h) =
      elim (Bool-cases (is_group s.workload s.repetition g)) [
        | inl t ↦ rw (t, add_to_group) (a, h)
        | inr f ↦
            rw (f, add_to_group)
              (
                All-add_to_group (λ workload repetition. is_group workload repetition g ≡ false) s
                    groups f a,
                add_to_group-GroupsApart s groups h,
              )
      ]

  own-tail :
      (g : Group V) (groups rest : List (Group V))
      → All (λ (h : Group V). is_group h.workload h.repetition g ≡ false) rest
      → All (λ (h : Group V). group_values h.workload h.repetition groups ≡ h.values) rest
      → All (λ (h : Group V). group_values h.workload h.repetition (g ∷ groups) ≡ h.values) rest
  unfolding group_values
  own-tail g groups [] a b = tt
  own-tail g groups (h ∷ rest) (n, a) (e, b) = (rw (n, group_values) e, own-tail g groups rest a b)

  -- Each is found under its own workload and repetition.
  GroupsApart-own :
      (groups : List (Group V))
      → GroupsApart groups
      → All (λ (h : Group V). group_values h.workload h.repetition groups ≡ h.values) groups
  unfolding group_values
  GroupsApart-own [] h = tt
  GroupsApart-own (g ∷ groups) (a, h) = (
    ground (arith, same_iff g.workload g.workload, same_ℤ_iff g.repetition g.repetition),
    own-tail g groups groups a (GroupsApart-own groups h),
  )

  loop-GroupsApart :
      (modes : List Text) (samples : List (Sample V)) (start : Collected V)
      {collected : Collected V}
      → collect_loop modes start samples ≡ ok collected
      → GroupsApart start.groups
      → GroupsApart collected.groups
  unfolding collect_loop
  loop-GroupsApart modes [] start h a =
      subst (λ (c : Collected V). GroupsApart c.groups) (ok_injective modes h) a
  loop-GroupsApart modes (s ∷ samples) start h a =
      let (_, _, rest) = loop_step modes s samples start h in
      loop-GroupsApart modes samples (with_sample modes s start) rest
        (add_to_group-GroupsApart s start.groups a)

  -- Each group holds the samples of its workload and repetition, and no two are of the same.
  pub record IsGrouped (samples : List (Sample V)) (groups : List (Group V)) : Type 0 where
    pub groups_apart : GroupsApart groups
    pub own_samples :
        All (λ (g : Group V). g.values ≡ grouped g.workload g.repetition samples) groups

  own-samples :
      (samples : List (Sample V)) (collected : Collected V) (groups : List (Group V))
      → ((workload : Text) (repetition : ℤ)
          → group_values workload repetition collected.groups ≡ grouped workload repetition samples)
      → All
          (λ (h : Group V). group_values h.workload h.repetition collected.groups ≡ h.values)
          groups
      → All (λ (g : Group V). g.values ≡ grouped g.workload g.repetition samples) groups
  own-samples samples collected [] are a = tt
  own-samples samples collected (g ∷ groups) are (e, a) =
      (sym e ∙ are g.workload g.repetition, own-samples samples collected groups are a)

  pub collect-IsGrouped :
      (modes : List Text) (samples : List (Sample V)) {collected : Collected V}
      → collect modes samples ≡ ok collected
      → IsCollected modes samples collected
      → IsGrouped samples collected.groups
  unfolding collect
  collect-IsGrouped modes samples {collected} h is =
      let apart = loop-GroupsApart modes samples (record { by_mode = []; groups = [] }) h tt in
      record {
        groups_apart = apart;
        own_samples =
            own-samples samples collected collected.groups is.groups_are
              (GroupsApart-own collected.groups apart);
      }
