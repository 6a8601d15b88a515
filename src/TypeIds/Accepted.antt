-- ===== src/TypeIds/Accepted.antt =====
-- The policies whose types `type_ids` accepts: exactly those with no repeated name and no two names
-- of one hash.
use interspec_typed_allocato.Prelude.{
  ℕ, ◌≡◌, ◌≢◌, ◌↔◌, refl, sym, ap, ◌∙◌, subst, inl, inr, none, List, [], ◌∷◌, arith, Text, length,
  All, ◌==◌, ==_iff, ==_refl, Option-cases, ok, ◌>>◌, require-eq-ok, >>=-eq-ok, duplicate_type,
}
use interspec_typed_allocato.Hash.{hash_type}
use interspec_typed_allocato.TypeIds.{
  Ids, number_types, names_of, find_hash, check_hashes, type_ids,
}
use interspec_typed_allocato.TypeIds.Numbering.{
  enumerate, Fresh, DistinctHashes, number_types-Fresh, number_types-enumerate, names_of-enumerate,
  length-enumerate,
}

ok_injective : {ids ids' : Ids} → ok ids ≡ ok ids' → ids ≡ ids'
ok_injective h = ground arith

find_hash-cons :
    (value h : ℕ) (name : Text) (hashes : List (ℕ × Text))
    → find_hash value ((h, name) ∷ hashes) ≡ none
    → (h ≢ value) × (find_hash value hashes ≡ none)
unfolding find_hash
find_hash-cons value h name hashes e = ground arith

find_hash_ne :
    (value h : ℕ) (name : Text) (hashes : List (ℕ × Text))
    → h ≢ value
    → find_hash value hashes ≡ none
    → find_hash value ((h, name) ∷ hashes) ≡ none
unfolding find_hash
find_hash_ne value h name hashes e f = ground arith

-- The hash of the name is not among the values seen.
abbrev pub IsNew : List (ℕ × Text) → Text → Type 0
IsNew hashes name = find_hash (hash_type name) hashes ≡ none

IsNew-split :
    (name : Text) (hashes : List (ℕ × Text)) (names : List Text)
    → All (IsNew ((hash_type name, name) ∷ hashes)) names
    → All (λ other. hash_type name ≢ hash_type other) names × All (IsNew hashes) names
IsNew-split name hashes [] h = (tt, tt)
IsNew-split name hashes (other ∷ names) (n, h) =
    let (a, b) = find_hash-cons (hash_type other) (hash_type name) name hashes n in
    let (more, rest) = IsNew-split name hashes names h in ((a, more), (b, rest))

IsNew-join :
    (name : Text) (hashes : List (ℕ × Text)) (names : List Text)
    → All (λ other. hash_type name ≢ hash_type other) names
    → All (IsNew hashes) names
    → All (IsNew ((hash_type name, name) ∷ hashes)) names
IsNew-join name hashes [] a b = tt
IsNew-join name hashes (other ∷ names) (a, more) (b, rest) = (
  find_hash_ne (hash_type other) (hash_type name) name hashes a b,
  IsNew-join name hashes names more rest,
)

-- Where the hashes pass, they differ from each other and from those seen.
pub check_hashes-DistinctHashes :
    (names : List Text) (hashes : List (ℕ × Text))
    → check_hashes hashes names ≡ ok tt
    → All (IsNew hashes) names × DistinctHashes names
unfolding check_hashes
check_hashes-DistinctHashes [] hashes h = (tt, tt)
check_hashes-DistinctHashes (name ∷ names) hashes h =
    elim (Option-cases (find_hash (hash_type name) hashes)) [
      | inr (other, e) ↦ absurd (ground arith)
      | inl e ↦
          let (new, distinct) =
            check_hashes-DistinctHashes names ((hash_type name, name) ∷ hashes)
              (rw (e, check_hashes) at h) in
          let (apart, old) = IsNew-split name hashes names new in ((e, old), (apart, distinct))
    ]

check_hashes_distinct :
    (names : List Text) (hashes : List (ℕ × Text))
    → All (IsNew hashes) names
    → DistinctHashes names
    → check_hashes hashes names ≡ ok tt
unfolding check_hashes
check_hashes_distinct [] hashes new distinct = refl
check_hashes_distinct (name ∷ names) hashes (e, new) (apart, distinct) =
    rw (e, check_hashes)
      (check_hashes_distinct names ((hash_type name, name) ∷ hashes)
        (IsNew-join name hashes names apart new) distinct)

All-unit : (names : List Text) → All (IsNew []) names
unfolding find_hash
All-unit [] = tt
All-unit (name ∷ names) = (refl, All-unit names)

type_ids-Fresh :
    (types : List Text) (ids : Ids)
    → type_ids types ≡ ok ids
    → Fresh [] types × DistinctHashes types × (ids ≡ enumerate 1 types)
unfolding type_ids
type_ids-Fresh types ids h =
    let dict = number_types 1 [] types in
    let (t, k) =
      require-eq-ok (length dict == length types) duplicate_type
        (check_hashes [] (names_of dict) >> ok dict) h in
    let (u, c, r) = >>=-eq-ok (check_hashes [] (names_of dict)) (λ _. ok dict) k in
    let (f, g) =
      number_types-Fresh types 1 [] ((==_iff (length dict) (length types)).0 t ∙ omega arith) in
    let named = ap names_of g ∙ names_of-enumerate 1 types in
    (
      f,
      subst DistinctHashes named (check_hashes-DistinctHashes (names_of dict) [] c).1,
      ok_injective (sym r) ∙ g,
    )

type_ids-enumerate :
    (types : List Text)
    → Fresh [] types
    → DistinctHashes types
    → type_ids types ≡ ok (enumerate 1 types)
unfolding type_ids
type_ids-enumerate types f d =
    rw (number_types-enumerate types 1 [] f, length-enumerate, ==_refl)
      (rw (names_of-enumerate, check_hashes_distinct types [] (All-unit types) d))

-- The types of a policy are accepted with the numbers `ids` exactly when no name is repeated, no two
-- of them have the same hash, and the numbers are 1, 2, … in the order of the names.
pub type_ids-ok_iff :
    (types : List Text) (ids : Ids)
    → (type_ids types ≡ ok ids)
      ↔ (Fresh [] types × DistinctHashes types × (ids ≡ enumerate 1 types))
type_ids-ok_iff types ids =
    (type_ids-Fresh types ids, λ (f, d, e). type_ids-enumerate types f d ∙ ap ok (sym e))
