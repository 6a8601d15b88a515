-- ===== src/Summary/Loop.antt =====
-- What the loop over the samples collects.
use interspec_typed_allocato.Prelude.{
  ◌≡◌, sym, ap, ◌∙◌, subst, true, false, inl, inr, List, [], ◌∷◌, ◌++◌, append-nil, append_assoc,
  arith, Text, same_iff, contains, All, Bool-cases, unknown_mode, duplicate_sample, Result, ok, err,
  require-eq-ok, refuse-eq-ok,
}
use interspec_typed_allocato.Prelude.Integers.{ℤ}
use interspec_typed_allocato.Summary.{
  Sample, Collected, Group, keys, add_value, values_of, group_values, add_to_group, collect_loop,
  collect,
}
use interspec_typed_allocato.Summary.Tables.{
  has_repetition, sampled, grouped, values_of-add_value, group_values-add_to_group, sampled-cons,
  grouped-cons, AllNew, append-AllNew, keys-append, same_ℤ_iff, IsCollected,
}

module _ {V : Type 0} (modes : List Text) where
  pub ok_injective : {x y : Collected V} → ok x ≡ ok y → x ≡ y
  ok_injective {x} h = ap (λ (r : Result (Collected V)). elim r [ ok a ↦ a | err _ ↦ x ]) h

  -- The state after one sample.
  abbrev pub with_sample : Sample V → Collected V → Collected V
  with_sample s collected = record {
    by_mode = add_value s collected.by_mode;
    groups = add_to_group s collected.groups;
  }

  pub loop_step :
      (s : Sample V) (samples : List (Sample V)) (start : Collected V) {collected : Collected V}
      → collect_loop modes start (s ∷ samples) ≡ ok collected
      → (contains modes s.mode ≡ true)
        × (contains (keys (group_values s.workload s.repetition start.groups)) s.mode ≡ false)
        × (collect_loop modes (with_sample s start) samples ≡ ok collected)
  unfolding collect_loop
  loop_step s samples start h =
      let (k, h₁) = require-eq-ok (contains modes s.mode) (unknown_mode s.mode) _ h in
      let (n, h₂) =
        refuse-eq-ok (contains (keys (group_values s.workload s.repetition start.groups)) s.mode)
          (duplicate_sample s.workload s.mode) _ h₁ in
      (k, n, h₂)

  loop-known :
      (samples : List (Sample V)) (start : Collected V) {collected : Collected V}
      → collect_loop modes start samples ≡ ok collected
      → All (λ (s : Sample V). contains modes s.mode ≡ true) samples
  loop-known [] start h = tt
  loop-known (s ∷ samples) start h =
      let (k, _, rest) = loop_step s samples start h in
      (k, loop-known samples (with_sample s start) rest)

  loop-by_mode :
      (workload mode : Text) (samples : List (Sample V)) (start : Collected V)
      {collected : Collected V}
      → collect_loop modes start samples ≡ ok collected
      → values_of workload mode collected.by_mode
        ≡ values_of workload mode start.by_mode ++ sampled workload mode samples
  unfolding collect_loop
  loop-by_mode workload mode [] start h =
      ap (λ (c : Collected V). values_of workload mode c.by_mode) (sym (ok_injective h))
      ∙ sym (append-nil _)
  loop-by_mode workload mode (s ∷ samples) start h =
      let (_, _, rest) = loop_step s samples start h in
      loop-by_mode workload mode samples (with_sample s start) rest
      ∙ ap (λ vs. vs ++ sampled workload mode samples)
          (values_of-add_value workload mode s start.by_mode)
      ∙ append_assoc (values_of workload mode start.by_mode) _ _
      ∙ ap (λ vs. values_of workload mode start.by_mode ++ vs)
          (sym (sampled-cons workload mode s samples))

  loop-groups :
      (workload : Text) (repetition : ℤ) (samples : List (Sample V)) (start : Collected V)
      {collected : Collected V}
      → collect_loop modes start samples ≡ ok collected
      → group_values workload repetition collected.groups
        ≡ group_values workload repetition start.groups ++ grouped workload repetition samples
  unfolding collect_loop
  loop-groups workload repetition [] start h =
      ap (λ (c : Collected V). group_values workload repetition c.groups) (sym (ok_injective h))
      ∙ sym (append-nil _)
  loop-groups workload repetition (s ∷ samples) start h =
      let (_, _, rest) = loop_step s samples start h in
      loop-groups workload repetition samples (with_sample s start) rest
      ∙ ap (λ vs. vs ++ grouped workload repetition samples)
          (group_values-add_to_group workload repetition s start.groups)
      ∙ append_assoc (group_values workload repetition start.groups) _ _
      ∙ ap (λ vs. group_values workload repetition start.groups ++ vs)
          (sym (grouped-cons workload repetition s samples))

  -- One more entry of a group, or none.
  entry-AllNew :
      (workload : Text) (repetition : ℤ) (s : Sample V) (groups : List (Group V))
      → contains (keys (group_values s.workload s.repetition groups)) s.mode ≡ false
      → AllNew (keys (group_values workload repetition groups))
      → AllNew (keys (group_values workload repetition (add_to_group s groups)))
  entry-AllNew workload repetition s groups n a =
      subst (λ vs. AllNew (keys vs)) (sym (group_values-add_to_group workload repetition s groups))
        (elim (Bool-cases (has_repetition workload repetition s)) [
          | inr f ↦ rw f (rw append-nil a)
          | inl t ↦
              let w : s.workload ≡ workload = (same_iff s.workload workload).0 (ground arith) in
              let r : s.repetition ≡ repetition =
                (same_ℤ_iff s.repetition repetition).0 (ground arith) in
              let new =
                subst (λ p. contains (keys (group_values p repetition groups)) s.mode ≡ false) w
                  (subst (λ p. contains (keys (group_values s.workload p groups)) s.mode ≡ false) r
                    n) in
              rw t (rw keys-append (append-AllNew _ s.mode a new))
        ])

  loop-AllNew :
      (workload : Text) (repetition : ℤ) (samples : List (Sample V)) (start : Collected V)
      {collected : Collected V}
      → collect_loop modes start samples ≡ ok collected
      → AllNew (keys (group_values workload repetition start.groups))
      → AllNew (keys (group_values workload repetition collected.groups))
  unfolding collect_loop
  loop-AllNew workload repetition [] start h a =
      subst (λ (c : Collected V). AllNew (keys (group_values workload repetition c.groups)))
        (ok_injective h) a
  loop-AllNew workload repetition (s ∷ samples) start h a =
      let (_, n, rest) = loop_step s samples start h in
      loop-AllNew workload repetition samples (with_sample s start) rest
        (entry-AllNew workload repetition s start.groups n a)

  -- Where the samples of a summary can be collected, all their modes are known, no mode is repeated
  -- in a repetition of a workload, and the dictionaries hold exactly the samples: under a workload
  -- and a mode the values in their order, and under a workload and a repetition the modes with
  -- their values.
  pub collect-IsCollected :
      (samples : List (Sample V)) {collected : Collected V}
      → collect modes samples ≡ ok collected
      → IsCollected modes samples collected
  unfolding collect values_of group_values
  collect-IsCollected samples {collected} h =
      let start : Collected V = record { by_mode = []; groups = [] } in
      record {
        known = loop-known samples start h;
        by_mode_is = λ workload mode. loop-by_mode workload mode samples start h;
        groups_are = λ workload repetition. loop-groups workload repetition samples start h;
        once = λ workload repetition.
            subst (λ vs. AllNew (keys vs)) (loop-groups workload repetition samples start h)
              (loop-AllNew workload repetition samples start h tt);
      }
