-- ===== src/Registration/Constants.antt =====
-- The constants of a generated header: when no two types share one, and what a lookup finds then.
use interspec_typed_allocato.Prelude.{
  ℕ, ◌≡◌, ◌≢◌, ◌↔◌, refl, ap, subst, ◌∙◌, sym, true, false, inl, inr, some, List, [], ◌∷◌, arith,
  Text, same, same_iff, contains, All, Bool-cases,
}
use interspec_typed_allocato.Names.{cpp}
use interspec_typed_allocato.Hash.{hash_type}
use interspec_typed_allocato.OrderedMap.{find}
use interspec_typed_allocato.TypeIds.{Ids, names_of}
use interspec_typed_allocato.Registration.{type_constant, is_defined, defined_once}

-- No two of the names have one identifier.
abbrev pub DistinctIdents : List Text → Type 0
DistinctIdents [] = Unit
DistinctIdents (name ∷ names) = All (λ other. cpp other ≢ cpp name) names × DistinctIdents names

is_defined-false :
    (ident : Text) (ids : Ids)
    → (is_defined ident ids ≡ false) ↔ All (λ other. cpp other ≢ ident) (names_of ids)
unfolding is_defined
is_defined-false ident [] = (λ _. tt, λ _. refl)
is_defined-false ident ((other, id) ∷ ids) = (
  λ h. (
    λ e. ground (arith, (same_iff (cpp other) ident).1 e, h),
    (is_defined-false ident ids).0 (ground (arith, h)),
  ),
  λ h. ground (arith, same_iff (cpp other) ident, h.0, (is_defined-false ident ids).1 h.1),
)

-- The constants are defined once each exactly if no two of the types share an identifier.
pub defined_once-DistinctIdents :
    (ids : Ids) → (defined_once ids ≡ true) ↔ DistinctIdents (names_of ids)
unfolding defined_once
defined_once-DistinctIdents [] = (λ _. tt, λ _. refl)
defined_once-DistinctIdents ((name, id) ∷ ids) = (
  λ h. (
    (is_defined-false (cpp name) ids).0 (ground (arith, h)),
    (defined_once-DistinctIdents ids).0 (ground (arith, h)),
  ),
  λ h.
      ground
        (arith, (is_defined-false (cpp name) ids).1 h.0, (defined_once-DistinctIdents ids).1 h.1),
)

All-contains :
    (P : Text → Type 0) (names : List Text) (name : Text)
    → All P names
    → contains names name ≡ true
    → P name
All-contains P [] name h c = absurd (ground (arith, c))
All-contains P (other ∷ names) name (p, h) c = elim (Bool-cases (same name other)) [
  | inl e ↦ subst P (sym ((same_iff name other).0 e)) p
  | inr n ↦ All-contains P names name h (rw n at c)
]

-- Where they are, the constant named for a known type is the number of the type.
pub constant_found :
    (name : Text) (ids : Ids) (types : List (ℕ × ℕ))
    → DistinctIdents (names_of ids)
    → contains (names_of ids) name ≡ true
    → All (λ (e : Text × ℕ). find e.1 types ≡ some (hash_type e.0)) ids
    → (id : ℕ) × (type_constant (cpp name) ids ≡ some id) × (find id types ≡ some (hash_type name))
unfolding type_constant
constant_found name [] types d c h = absurd (ground (arith, c))
constant_found name ((other, id) ∷ ids) types (d, ds) c (f, h) =
    elim (Bool-cases (same name other)) [
      | inl e ↦
          let named = (same_iff name other).0 e in
          (
            id,
            rw ((same_iff (cpp other) (cpp name)).1 (ap cpp (sym named))) refl,
            f ∙ ap (λ n. some (hash_type n)) (sym named),
          )
      | inr e ↦
          let known = rw e at c in
          let other_ident : same (cpp other) (cpp name) ≡ false =
            differs (All-contains (λ t. cpp t ≢ cpp other) (names_of ids) name d known) in
          let (id', k, found) = constant_found name ids types ds known h in
          (id', rw (other_ident, type_constant) k, found)
    ]
  where
    differs : cpp name ≢ cpp other → same (cpp other) (cpp name) ≡ false
    differs n = elim (Bool-cases (same (cpp other) (cpp name))) [
      | inl y ↦ absurd (n (sym ((same_iff (cpp other) (cpp name)).0 y)))
      | inr f ↦ f
    ]

-- In such a header a constant that is named for a known type is the number of the type.
pub constant-found :
    (name : Text) (ids : Ids) (types : List (ℕ × ℕ)) (id : ℕ)
    → DistinctIdents (names_of ids)
    → contains (names_of ids) name ≡ true
    → All (λ (e : Text × ℕ). find e.1 types ≡ some (hash_type e.0)) ids
    → type_constant (cpp name) ids ≡ some id
    → find id types ≡ some (hash_type name)
constant-found name ids types id d c h e =
    let (id', k, found) = constant_found name ids types d c h in
    let one : id' ≡ id = number_injective (sym k ∙ e) in ap (λ n. find n types) (sym one) ∙ found
  where
    number_injective : {m n : ℕ} → some m ≡ some n → m ≡ n
    number_injective h = ground arith
