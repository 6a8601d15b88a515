-- ===== src/TypeIds/Numbering.antt =====
-- Which lists of types `type_ids` accepts, and how it numbers them.
use interspec_typed_allocato.Prelude.{
  ℕ, suc, ◌+◌, ◌≤◌, ◌≡◌, ◌≢◌, refl, sym, ap, ◌∙◌, true, false, inl, inr, List, [], ◌∷◌, ◌++◌,
  append_assoc, append-nil, arith, Text, length, length-append, All, same, same_iff, contains,
  Bool-cases,
}
use interspec_typed_allocato.Hash.{hash_type}
use interspec_typed_allocato.TypeIds.{Ids, enter, number_types, names_of}

-- The names with the numbers from `next` on.
unfoldable pub enumerate : ℕ → List Text → Ids
enumerate next [] = []
enumerate next (name ∷ names) = (name, next) ∷ enumerate (suc next) names

-- None of the names is among those seen, nor among the names before it.
abbrev pub Fresh : List Text → List Text → Type 0
Fresh seen [] = Unit
Fresh seen (name ∷ names) = (contains seen name ≡ false) × Fresh (seen ++ (name ∷ [])) names

abbrev pub DistinctHashes : List Text → Type 0
DistinctHashes [] = Unit
DistinctHashes (name ∷ names) =
    All (λ other. hash_type name ≢ hash_type other) names × DistinctHashes names

same_comm : (a b : Text) → same a b ≡ same b a
same_comm a b = ground (arith, same_iff a b, same_iff b a)

enter_fresh :
    (name : Text) (value : ℕ) (ids : Ids)
    → contains (names_of ids) name ≡ false
    → enter name value ids ≡ ids ++ ((name, value) ∷ [])
unfolding enter
enter_fresh name value [] h = refl
enter_fresh name value ((other, old) ∷ ids) h =
    ground (arith, enter_fresh name value ids, same_comm name other)

length-enter :
    (name : Text) (value : ℕ) (ids : Ids)
    → contains (names_of ids) name ≡ true
    → length (enter name value ids) ≡ length ids
unfolding enter
length-enter name value [] h = cc
length-enter name value ((other, old) ∷ ids) h =
    ground (arith, length-enter name value ids, same_comm name other)

length-enter-le :
    (name : Text) (value : ℕ) (ids : Ids) → length (enter name value ids) ≤ suc (length ids)
unfolding enter
length-enter-le name value [] = omega arith
length-enter-le name value ((other, old) ∷ ids) = ground (arith, length-enter-le name value ids)

length-number_types :
    (next : ℕ) (ids : Ids) (names : List Text)
    → length (number_types next ids names) ≤ length ids + length names
unfolding number_types
length-number_types next ids [] = omega arith
length-number_types next ids (name ∷ names) = omega (
  arith,
  length-number_types (suc next) (enter name next ids) names,
  length-enter-le name next ids,
)

names_of-append : (ids more : Ids) → names_of (ids ++ more) ≡ names_of ids ++ names_of more
names_of-append [] more = refl
names_of-append ((name, _) ∷ ids) more = ap (◌∷◌ name) (names_of-append ids more)

-- Where no name is lost the names were fresh, and they are numbered in their order.
pub number_types-Fresh :
    (names : List Text) (next : ℕ) (ids : Ids)
    → length (number_types next ids names) ≡ length ids + length names
    → Fresh (names_of ids) names × (number_types next ids names ≡ ids ++ enumerate next names)
unfolding number_types enumerate
number_types-Fresh [] next ids h = (tt, sym (append-nil ids))
number_types-Fresh (name ∷ names) next ids h = elim (Bool-cases (contains (names_of ids) name)) [
  | inl known ↦ absurd (
      omega (
        arith,
        length-enter name next ids known,
        length-number_types (suc next) (enter name next ids) names,
      ))
  | inr new ↦
      let e = enter_fresh name next ids new in
      let (f, g) =
        number_types-Fresh names (suc next) (ids ++ ((name, next) ∷ []))
          (rw e at h ∙ omega (arith, length-append ids ((name, next) ∷ []))) in
      (
        (new, rw names_of-append at f),
        ap (λ t. number_types (suc next) t names) e ∙ g ∙ append_assoc ids _ _,
      )
]

pub number_types-enumerate :
    (names : List Text) (next : ℕ) (ids : Ids)
    → Fresh (names_of ids) names
    → number_types next ids names ≡ ids ++ enumerate next names
unfolding number_types enumerate
number_types-enumerate [] next ids h = sym (append-nil ids)
number_types-enumerate (name ∷ names) next ids (new, f) =
    ap (λ t. number_types (suc next) t names) (enter_fresh name next ids new)
    ∙ number_types-enumerate names (suc next) (ids ++ ((name, next) ∷ [])) (rw names_of-append f)
    ∙ append_assoc ids _ _

pub names_of-enumerate : (next : ℕ) (names : List Text) → names_of (enumerate next names) ≡ names
unfolding enumerate
names_of-enumerate next [] = refl
names_of-enumerate next (name ∷ names) = ap (◌∷◌ name) (names_of-enumerate (suc next) names)

pub length-enumerate : (next : ℕ) (names : List Text) → length (enumerate next names) ≡ length names
unfolding enumerate
length-enumerate next [] = refl
length-enumerate next (name ∷ names) = ap suc (length-enumerate (suc next) names)
