-- ===== src/Summary/Tables.antt =====
-- The dictionaries of a summary, as lists of the samples themselves.
use interspec_typed_allocato.Prelude.{
  ◌≡◌, ◌↔◌, refl, sym, ap, Bool, true, false, ◌&&◌, ◌||◌, inl, inr, List, [], ◌∷◌, ◌++◌, map,
  append-nil, arith, Text, same, same_iff, contains, filter, All, Bool-cases, if◌then◌else◌,
}
use interspec_typed_allocato.Prelude.Integers.{ℤ, pos, negsuc}
use interspec_typed_allocato.Summary.{
  Sample, same_ℤ, ModeValues, Group, Collected, keys, add_value, values_of, is_group, group_values,
  add_to_group,
}

same-left : (a b c : Text) → same a b ≡ true → same a c ≡ same b c
same-left a b c h = ap (λ t. same t c) ((same_iff a b).0 h)

pub same_ℤ_iff : (a b : ℤ) → (same_ℤ a b ≡ true) ↔ (a ≡ b)
same_ℤ_iff (pos m) (pos n) = ground arith
same_ℤ_iff (negsuc m) (negsuc n) = ground arith
same_ℤ_iff (pos m) (negsuc n) = ground arith
same_ℤ_iff (negsuc m) (pos n) = ground arith

same_ℤ-left : (a b c : ℤ) → same_ℤ a b ≡ true → same_ℤ a c ≡ same_ℤ b c
same_ℤ-left a b c h = ap (λ t. same_ℤ t c) ((same_ℤ_iff a b).0 h)

module _ {V : Type 0} where
  -- Is the sample one of this workload and mode, or of this workload and repetition?
  abbrev pub has_mode : Text → Text → Sample V → Bool
  has_mode workload mode s = same s.workload workload && same s.mode mode

  abbrev pub has_repetition : Text → ℤ → Sample V → Bool
  has_repetition workload repetition s = same s.workload workload && same_ℤ s.repetition repetition

  abbrev pub sampled : Text → Text → List (Sample V) → List V
  sampled workload mode samples =
      map (λ (s : Sample V). s.value) (filter (has_mode workload mode) samples)

  abbrev pub grouped : Text → ℤ → List (Sample V) → List (Text × V)
  grouped workload repetition samples =
      map (λ (s : Sample V). (s.mode, s.value))
        (filter (has_repetition workload repetition) samples)

  -- One sample more in `by_mode`.
  pub values_of-add_value :
      (workload mode : Text) (s : Sample V) (entries : List (ModeValues V))
      → values_of workload mode (add_value s entries)
        ≡ values_of workload mode entries ++ (if has_mode workload mode s then s.value ∷ [] else [])
  unfolding values_of add_value
  values_of-add_value workload mode s [] = ground arith
  values_of-add_value workload mode s (e ∷ entries) =
      elim (Bool-cases (same e.workload s.workload && same e.mode s.mode)) [
        | inl t ↦
            let a = same-left e.workload s.workload workload (ground arith) in
            let b = same-left e.mode s.mode mode (ground arith) in
            rw t (
              rw (a, b)
                (elim (Bool-cases (has_mode workload mode s)) [
                  | inl y ↦ rw y refl
                  | inr n ↦ rw n (sym (append-nil _))
                ]))
        | inr f ↦
            let ih = values_of-add_value workload mode s entries in
            rw (f, values_of)
              (elim (Bool-cases (same e.workload workload && same e.mode mode)) [
                | inr n ↦ rw n (ih)
                | inl y ↦
                    let other : has_mode workload mode s ≡ false = ground (
                      arith,
                      same_iff e.workload s.workload,
                      same_iff e.workload workload,
                      same_iff s.workload workload,
                      same_iff e.mode s.mode,
                      same_iff e.mode mode,
                      same_iff s.mode mode,
                    ) in
                    rw (y, other) (sym (append-nil _))
              ])
      ]

  -- One sample more in the groups.
  pub group_values-add_to_group :
      (workload : Text) (repetition : ℤ) (s : Sample V) (groups : List (Group V))
      → group_values workload repetition (add_to_group s groups)
        ≡ group_values workload repetition groups
          ++ (if has_repetition workload repetition s then (s.mode, s.value) ∷ [] else [])
  unfolding group_values add_to_group
  group_values-add_to_group workload repetition s [] = ground arith
  group_values-add_to_group workload repetition s (g ∷ groups) =
      elim (Bool-cases (is_group s.workload s.repetition g)) [
        | inl t ↦
            let a = same-left g.workload s.workload workload (ground arith) in
            let b = same_ℤ-left g.repetition s.repetition repetition (ground arith) in
            rw t (
              rw (a, b)
                (elim (Bool-cases (has_repetition workload repetition s)) [
                  | inl y ↦ rw y refl
                  | inr n ↦ rw n (sym (append-nil _))
                ]))
        | inr f ↦
            let ih = group_values-add_to_group workload repetition s groups in
            rw (f, group_values)
              (elim (Bool-cases (is_group workload repetition g)) [
                | inr n ↦ rw n (ih)
                | inl y ↦
                    let other : has_repetition workload repetition s ≡ false = ground (
                      arith,
                      same_iff g.workload s.workload,
                      same_iff g.workload workload,
                      same_iff s.workload workload,
                      same_ℤ_iff g.repetition s.repetition,
                      same_ℤ_iff g.repetition repetition,
                      same_ℤ_iff s.repetition repetition,
                    ) in
                    rw (y, other) (sym (append-nil _))
              ])
      ]

  pub sampled-cons :
      (workload mode : Text) (s : Sample V) (samples : List (Sample V))
      → sampled workload mode (s ∷ samples)
        ≡ (if has_mode workload mode s then s.value ∷ [] else []) ++ sampled workload mode samples
  sampled-cons workload mode s samples = elim (Bool-cases (has_mode workload mode s)) [
    | inl y ↦ rw (y, filter) refl
    | inr n ↦ rw (n, filter) refl
  ]

  pub grouped-cons :
      (workload : Text) (repetition : ℤ) (s : Sample V) (samples : List (Sample V))
      → grouped workload repetition (s ∷ samples)
        ≡ (if has_repetition workload repetition s then (s.mode, s.value) ∷ [] else [])
          ++ grouped workload repetition samples
  grouped-cons workload repetition s samples =
      elim (Bool-cases (has_repetition workload repetition s)) [
        | inl y ↦ rw (y, filter) refl
        | inr n ↦ rw (n, filter) refl
      ]

-- No name is repeated.
abbrev pub AllNew : List Text → Type 0
AllNew [] = Unit
AllNew (t ∷ ts) = (contains ts t ≡ false) × AllNew ts

contains-append :
    (ts : List Text) (t u : Text) → contains (ts ++ (t ∷ [])) u ≡ contains ts u || same u t
contains-append [] t u = ground arith
contains-append (v ∷ ts) t u = ground (arith, contains-append ts t u)

pub append-AllNew :
    (ts : List Text) (t : Text) → AllNew ts → contains ts t ≡ false → AllNew (ts ++ (t ∷ []))
append-AllNew [] t h n = (refl, tt)
append-AllNew (u ∷ ts) t (k, h) n = (
  ground (arith, contains-append ts t u, same_iff t u, same_iff u t),
  append-AllNew ts t h (ground arith),
)

pub keys-append : {V : Type 0} (a b : List (Text × V)) → keys (a ++ b) ≡ keys a ++ keys b
keys-append [] b = refl
keys-append ((key, value) ∷ a) b = ap (◌∷◌ key) (keys-append a b)

-- The dictionaries hold exactly the samples, in their order: the values of each workload and mode,
-- and the modes with their values of each workload and repetition, where no mode is repeated.
pub record IsCollected {V : Type 0} (modes : List Text) (samples : List (Sample V))
    (collected : Collected V) : Type 0 where
  pub known : All (λ (s : Sample V). contains modes s.mode ≡ true) samples
  pub by_mode_is :
      (workload mode : Text)
      → values_of workload mode collected.by_mode ≡ sampled workload mode samples
  pub groups_are :
      (workload : Text) (repetition : ℤ)
      → group_values workload repetition collected.groups ≡ grouped workload repetition samples
  pub once :
      (workload : Text) (repetition : ℤ) → AllNew (keys (grouped workload repetition samples))
