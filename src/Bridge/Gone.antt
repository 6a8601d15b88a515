-- ===== src/Bridge/Gone.antt =====
-- What the result of `replace_once` has and what it lacks.
use interspec_typed_allocato.Prelude.{
  ◌≡◌, sym, ap, ◌∙◌, true, false, inl, inr, ◌++◌, append_assoc, Text,
}
use interspec_typed_allocato.Patch.{has}
use interspec_typed_allocato.Patch.Idempotent.{has-append}
use interspec_typed_allocato.Backend.Apart.{clashes, Occurs, Occurs-has, has-replaced}
use interspec_typed_allocato.Bridge.Once.{Occurs-outside, IsReplaced, lacks, clash}

module _ {old new text result : Text} (r : IsReplaced old new text result) where
  pub IsReplaced-has : has new result ≡ true
  IsReplaced-has = ap (has new) r.result_is ∙ has-append r.before new r.after

  -- A text that is there stays, where it does not clash with the old text.
  pub IsReplaced-keeps :
      (part : Text)
      → clashes old part ≡ false
      → clashes part old ≡ false
      → has part text ≡ true
      → has part result ≡ true
  IsReplaced-keeps part h k t =
      ap (has part) r.result_is
      ∙ has-replaced part old new r.before r.after h k (ap (has part) (sym r.splits) ∙ t)

  -- A text that is neither in front nor behind is nowhere, where it does not clash with the new text.
  outside-lacks :
      (part : Text)
      → clashes new part ≡ false
      → clashes part new ≡ false
      → has part r.before ≡ false
      → has part r.after ≡ false
      → has part result ≡ false
  outside-lacks part h k before_lacks after_lacks = lacks part result (λ (u, (v, s)).
      elim (Occurs-outside part new u v r.before r.after h k (sym s ∙ r.result_is)) [
        | inl o ↦ clash before_lacks (Occurs-has part r.before o)
        | inr o ↦ clash after_lacks (Occurs-has part r.after o)
      ])

  pub IsReplaced-gone : clashes new old ≡ false → clashes old new ≡ false → has old result ≡ false
  IsReplaced-gone h k = outside-lacks old h k r.before_lacks r.after_lacks

  -- A text that is not there does not come back.
  pub IsReplaced-lacks :
      (part : Text)
      → clashes new part ≡ false
      → clashes part new ≡ false
      → has part text ≡ false
      → has part result ≡ false
  IsReplaced-lacks part h k t =
      outside-lacks part h k
        (lacks part r.before (λ (u, (v, s)). nowhere (
          u,
          (
            v ++ (old ++ r.after),
            r.splits
                ∙ ap (λ b. b ++ (old ++ r.after)) s
                ∙ append_assoc u (part ++ v) (old ++ r.after)
                ∙ ap (λ b. u ++ b) (append_assoc part v (old ++ r.after)),
          ),
        )))
        (lacks part r.after (λ (u, (v, s)). nowhere (
          r.before ++ (old ++ u),
          (
            v,
            r.splits
                ∙ ap (λ b. r.before ++ (old ++ b)) s
                ∙ ap (λ b. r.before ++ b) (sym (append_assoc old u (part ++ v)))
                ∙ sym (append_assoc r.before (old ++ u) (part ++ v)),
          ),
        )))
    where
      nowhere : Occurs part text → ⊥
      nowhere o = clash t (Occurs-has part text o)
