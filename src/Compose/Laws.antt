-- ===== src/Compose/Laws.antt =====
-- What the boundary adds to a policy.
use interspec_typed_allocato.Prelude.{
  ◌≡◌, refl, sym, ap, ◌∙◌, Bool, true, false, ◌||◌, inl, inr, some, List, [], ◌∷◌, ◌++◌, not, subst,
  arith, Text, All, same, same_iff, contains, if◌then◌else◌, Bool-cases, empty_type_name,
  fixed_and_dynamic, ok, require-eq-ok, >>=-eq-ok, append_assoc, append-nil,
}
use interspec_typed_allocato.Prelude.Integers.{pos}
use interspec_typed_allocato.MallocCall.{is_nonempty}
use interspec_typed_allocato.Policy.{AccessUse}
use interspec_typed_allocato.TypeIds.Numbering.{Fresh}
use interspec_typed_allocato.Compose.{extend_types, has_no_bytes, prepared_use, prepare_uses}

ok_injective : {xs ys : List Text} → ok xs ≡ ok ys → xs ≡ ys
ok_injective h = ground arith

ok_pair_injective : {x y : List AccessUse × List Text} → ok x ≡ ok y → x ≡ y
ok_pair_injective h = ground arith

or_false_right : (b : Bool) → b ≡ (b || false)
or_false_right true = refl
or_false_right false = refl

contains-append :
    (xs ys : List Text) (name : Text)
    → contains (xs ++ ys) name ≡ (contains xs name || contains ys name)
contains-append [] ys name = refl
contains-append (x ∷ xs) ys name = ground (arith, contains-append xs ys name)

-- The types in front, further ones behind them, and which names the result has.
pub record Extends (types names result : List Text) : Type 0 where
  pub added : List Text
  pub result_is : result ≡ types ++ added
  pub fresh : Fresh types added
  pub nonempty : All (λ name. is_nonempty name ≡ true) names
  pub holds : (name : Text) → contains result name ≡ (contains types name || contains names name)

contains-known :
    (types names : List Text) (name other : Text)
    → contains types name ≡ true
    → (contains types other || contains names other)
      ≡ (contains types other || contains (name ∷ names) other)
contains-known types names name other k = elim (Bool-cases (same other name)) [
  | inl e ↦
      let known : contains types other ≡ true =
        ap (contains types) ((same_iff other name).0 e) ∙ k in
      rw known
  | inr n ↦ rw n
]

-- Where the types of a policy are extended by the names of a boundary, the result is the types
-- followed by new ones. None of these was there before, no name is empty, and the names of the
-- result are exactly those of the types and of the boundary.
pub extend_types-Extends :
    (names types : List Text) {result : List Text}
    → extend_types types names ≡ ok result
    → Extends types names result
unfolding extend_types
extend_types-Extends [] types h =
    let e = ok_injective (sym h) in
    record {
      added = [];
      result_is = e ∙ sym (append-nil types);
      fresh = tt;
      nonempty = tt;
      holds = λ name. ap (λ t. contains t name) e ∙ or_false_right (contains types name);
    }
extend_types-Extends (name ∷ names) types h =
    let (n, h₁) = require-eq-ok (is_nonempty name) empty_type_name _ h in
    elim (Bool-cases (contains types name)) [
      | inl known ↦
          let ih = extend_types-Extends names types (rw known at h₁) in
          record {
            added = ih.added;
            result_is = ih.result_is;
            fresh = ih.fresh;
            nonempty = (n, ih.nonempty);
            holds = λ other. ih.holds other ∙ contains-known types names name other known;
          }
      | inr new ↦
          let ih = extend_types-Extends names (types ++ (name ∷ [])) (rw new at h₁) in
          record {
            added = name ∷ ih.added;
            result_is = ih.result_is ∙ append_assoc types (name ∷ []) ih.added;
            fresh = (new, ih.fresh);
            nonempty = (n, ih.nonempty);
            holds =
                λ other. ground (arith, ih.holds other, contains-append types (name ∷ []) other);
          }
    ]

abbrev pub dynamic_names : List AccessUse → List Text
dynamic_names [] = []
dynamic_names (u ∷ uses) =
    let rest = dynamic_names uses in if u.dynamic_bytes then u.name ∷ rest else rest

-- A dynamic use declares no extent of its own.
abbrev pub IsComposable : AccessUse → Type 0
IsComposable u = (not u.dynamic_bytes || has_no_bytes u.bytes) ≡ true

-- The use after the preparation: of a dynamic one the extent is 0, and all else is as it was.
pub record IsPrepared (u v : AccessUse) : Type 0 where
  pub name : v.name ≡ u.name
  pub type : v.type ≡ u.type
  pub offset : v.offset ≡ u.offset
  pub dynamic_bytes : v.dynamic_bytes ≡ u.dynamic_bytes
  pub bytes : v.bytes ≡ (if u.dynamic_bytes then some (pos 0) else u.bytes)

abbrev pub AllPrepared : List AccessUse → List AccessUse → Type 0
AllPrepared [] [] = Unit
AllPrepared (u ∷ us) (v ∷ vs) = IsPrepared u v × AllPrepared us vs
AllPrepared _ _ = ⊥

prepared_use-IsPrepared : (u : AccessUse) → IsPrepared u (prepared_use u)
unfolding prepared_use
prepared_use-IsPrepared u = ground arith

-- The preparation of the uses of a policy succeeds only if no dynamic use declares an extent other
-- than 0. Then each use keeps its place, its name, its type and its offset, the extent of a dynamic
-- one is 0, that of any other as declared, and the names listed are those of the dynamic ones.
pub prepare_uses-AllPrepared :
    (uses : List AccessUse) {result : List AccessUse × List Text}
    → prepare_uses uses ≡ ok result
    → All IsComposable uses × AllPrepared uses result.0 × (result.1 ≡ dynamic_names uses)
unfolding prepare_uses
prepare_uses-AllPrepared [] {result} h =
    let made : ([], []) ≡ result = ok_pair_injective h in
    (
      tt,
      subst (AllPrepared []) (ap (λ (t : List AccessUse × List Text). t.0) made) tt,
      sym (ap (λ (t : List AccessUse × List Text). t.1) made),
    )
prepare_uses-AllPrepared (u ∷ uses) {result} h =
    let (c, h₁) =
      require-eq-ok (not u.dynamic_bytes || has_no_bytes u.bytes) (fixed_and_dynamic u.name) _ h in
    let (rest, e, h₂) = >>=-eq-ok (prepare_uses uses) _ h₁ in
    let (cs, ps, ns) = prepare_uses-AllPrepared uses e in
    let names = if u.dynamic_bytes then u.name ∷ rest.1 else rest.1 in
    let made : (prepared_use u ∷ rest.0, names) ≡ result = ok_pair_injective h₂ in
    (
      (c, cs),
      subst (AllPrepared (u ∷ uses)) (ap (λ (t : List AccessUse × List Text). t.0) made)
          (prepared_use-IsPrepared u, ps),
      sym (ap (λ (t : List AccessUse × List Text). t.1) made)
          ∙ ap (λ (t : List Text). if u.dynamic_bytes then u.name ∷ t else t) ns,
    )
