-- ===== src/Registration/Numbers.antt =====
-- The numbers of the types, where a name may be repeated.
use interspec_typed_allocato.Prelude.{
  ℕ, suc, ◌≤◌, ◌<◌, ◌≡◌, ◌≢◌, true, inl, inr, List, [], ◌∷◌, arith, Text, same, same_iff, contains,
  ◌||◌, All, Bool-cases,
}
use interspec_typed_allocato.TypeIds.{Ids, enter, number_types, names_of}

-- A number in use is not 0 and below the next one.
abbrev IsUsed : ℕ → Text × ℕ → Type 0
IsUsed next e = (0 < e.1) × (e.1 < next)

-- No number stands for two types.
abbrev pub DistinctNumbers : Ids → Type 0
DistinctNumbers [] = Unit
DistinctNumbers (e ∷ ids) = All (λ (f : Text × ℕ). e.1 ≢ f.1) ids × DistinctNumbers ids

IsUsed-later : (ids : Ids) (next : ℕ) → All (IsUsed next) ids → All (IsUsed (suc next)) ids
IsUsed-later [] next h = tt
IsUsed-later (e ∷ ids) next ((p, l), h) = ((p, omega arith), IsUsed-later ids next h)

IsUsed-positive :
    (ids : Ids) (next : ℕ) → All (IsUsed next) ids → All (λ (e : Text × ℕ). 0 < e.1) ids
IsUsed-positive [] next h = tt
IsUsed-positive (e ∷ ids) next ((p, l), h) = (p, IsUsed-positive ids next h)

enter-IsUsed :
    (name : Text) (next : ℕ) (ids : Ids)
    → 0 < next
    → All (IsUsed next) ids
    → All (IsUsed (suc next)) (enter name next ids)
unfolding enter
enter-IsUsed name next [] z h = ((z, omega arith), tt)
enter-IsUsed name next ((other, old) ∷ ids) z ((p, l), h) = elim (Bool-cases (same other name)) [
  | inl e ↦ rw e ((z, omega arith), IsUsed-later ids next h)
  | inr e ↦ rw (e, enter) ((p, omega arith), enter-IsUsed name next ids z h)
]

-- A number that is not below the next one is not among those in use.
IsUsed-ne :
    (n next : ℕ) (ids : Ids)
    → next ≤ n
    → All (IsUsed next) ids
    → All (λ (f : Text × ℕ). n ≢ f.1) ids
IsUsed-ne n next [] z h = tt
IsUsed-ne n next (e ∷ ids) z ((p, l), h) = (λ q. omega arith, IsUsed-ne n next ids z h)

enter_ne :
    (name : Text) (n next : ℕ) (ids : Ids)
    → n ≢ next
    → All (λ (f : Text × ℕ). n ≢ f.1) ids
    → All (λ (f : Text × ℕ). n ≢ f.1) (enter name next ids)
unfolding enter
enter_ne name n next [] z h = (z, tt)
enter_ne name n next ((other, old) ∷ ids) z (p, h) = elim (Bool-cases (same other name)) [
  | inl e ↦ rw e (z, h)
  | inr e ↦ rw (e, enter) (p, enter_ne name n next ids z h)
]

enter-DistinctNumbers :
    (name : Text) (next : ℕ) (ids : Ids)
    → All (IsUsed next) ids
    → DistinctNumbers ids
    → DistinctNumbers (enter name next ids)
unfolding enter
enter-DistinctNumbers name next [] u d = (tt, tt)
enter-DistinctNumbers name next ((other, old) ∷ ids) ((p, l), u) (a, d) =
    elim (Bool-cases (same other name)) [
      | inl e ↦ rw e (IsUsed-ne next next ids (omega arith) u, d)
      | inr e ↦
          rw (e, enter)
            (
              enter_ne name old next ids (λ q. omega arith) a,
              enter-DistinctNumbers name next ids u d,
            )
    ]

pub number_types_distinct :
    (types : List Text) (next : ℕ) (ids : Ids)
    → 0 < next
    → All (IsUsed next) ids
    → DistinctNumbers ids
    → All (λ (e : Text × ℕ). 0 < e.1) (number_types next ids types)
      × DistinctNumbers (number_types next ids types)
unfolding number_types
number_types_distinct [] next ids z u d = (IsUsed-positive ids next u, d)
number_types_distinct (name ∷ types) next ids z u d =
    number_types_distinct types (suc next) (enter name next ids) (omega arith)
      (enter-IsUsed name next ids z u) (enter-DistinctNumbers name next ids u d)

contains-enter :
    (name m : Text) (value : ℕ) (ids : Ids)
    → contains (names_of (enter name value ids)) m ≡ contains (names_of ids) m || same m name
unfolding enter
contains-enter name m value [] = ground arith
contains-enter name m value ((other, old) ∷ ids) =
    ground (arith, contains-enter name m value ids, same_iff other name)

-- Every name has a number.
pub contains-number_types :
    (m : Text) (names : List Text) (next : ℕ) (ids : Ids)
    → contains (names_of ids) m || contains names m ≡ true
    → contains (names_of (number_types next ids names)) m ≡ true
unfolding number_types
contains-number_types m [] next ids h = ground arith
contains-number_types m (name ∷ names) next ids h =
    contains-number_types m names (suc next) (enter name next ids)
      (ground (arith, contains-enter name m next ids))
