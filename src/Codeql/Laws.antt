-- ===== src/Codeql/Laws.antt =====
-- What the policy of a CodeQL result keeps of its rows, and why the generators accept its types.
use mathlib.Core.List.{Perm}
use interspec_typed_allocato.Prelude.{
  ◌≡◌, refl, ap, ◌∙◌, subst, true, false, ◌||◌, inl, inr, Option, List, [], ◌∷◌, map, arith, Text,
  All, same, same_iff, text_lt, contains, sort_by-perm, sort_by-All, Bool-cases, Result, ok, err,
  >>=-eq-ok,
}
use interspec_typed_allocato.Prelude.Integers.{ℤ}
use interspec_typed_allocato.Policy.{Allocation, AccessUse, Policy}
use interspec_typed_allocato.Sites.{insert_name, sorted_set}
use interspec_typed_allocato.Codeql.{
  Entry, allocation_entry, use_entry, entry_type, allocations_of, uses_of, allocation_lt,
  build_policy, read_rows, codeql_policy,
}

ok_injective : {p q : Policy} → ok p ≡ ok q → p ≡ q
ok_injective {p} h = ap (λ (r : Result Policy). elim r [ ok a ↦ a | err _ ↦ p ]) h

same_refl : (a : Text) → same a a ≡ true
same_refl a = (same_iff a a).1 refl

contains-insert_name :
    (name other : Text) (names : List Text)
    → contains (insert_name other names) name ≡ (same name other || contains names name)
unfolding insert_name
contains-insert_name name other [] = refl
contains-insert_name name other (x ∷ names) =
    ground (arith, contains-insert_name name other names, same_iff other x)

pub contains-sorted_set :
    (name : Text) (names : List Text) → contains (sorted_set names) name ≡ contains names name
unfolding sorted_set
contains-sorted_set name [] = refl
contains-sorted_set name (other ∷ names) =
    contains-insert_name name other (sorted_set names)
    ∙ ap (λ b. same name other || b) (contains-sorted_set name names)

-- Ascending, so that no name is repeated.
abbrev pub Ascending : List Text → Type 0
Ascending [] = Unit
Ascending (name ∷ names) = All (λ other. text_lt name other ≡ true) names × Ascending names

text_lt_trans : (a b c : Text) → text_lt a b ≡ true → text_lt b c ≡ true → text_lt a c ≡ true
unfolding text_lt
text_lt_trans [] [] [] h k = cc
text_lt_trans [] (y ∷ b) [] h k = cc
text_lt_trans [] _ (z ∷ c) h k = refl
text_lt_trans (x ∷ a) [] c h k = cc
text_lt_trans (x ∷ a) (y ∷ b) [] h k = cc
text_lt_trans (x ∷ a) (y ∷ b) (z ∷ c) h k = ground (arith, text_lt_trans a b c)

text_lt-total : (a b : Text) → same a b ≡ false → text_lt a b ≡ false → text_lt b a ≡ true
unfolding text_lt same
text_lt-total [] [] h k = cc
text_lt-total [] (y ∷ b) h k = cc
text_lt-total (x ∷ a) [] h k = refl
text_lt-total (x ∷ a) (y ∷ b) h k = ground (arith, text_lt-total a b)

insert_name-above :
    (low name : Text) (names : List Text)
    → text_lt low name ≡ true
    → All (λ other. text_lt low other ≡ true) names
    → All (λ other. text_lt low other ≡ true) (insert_name name names)
unfolding insert_name
insert_name-above low name [] h a = (h, tt)
insert_name-above low name (x ∷ names) h (b, a) = elim (Bool-cases (same name x)) [
  | inl e ↦ rw (e, insert_name) (b, a)
  | inr n ↦ elim (Bool-cases (text_lt name x)) [
    | inl l ↦ rw (n, l, insert_name) (h, (b, a))
    | inr g ↦ rw (n, g, insert_name) (b, insert_name-above low name names h a)
  ]
]

above_trans :
    (low high : Text) (names : List Text)
    → text_lt low high ≡ true
    → All (λ other. text_lt high other ≡ true) names
    → All (λ other. text_lt low other ≡ true) names
above_trans low high [] h a = tt
above_trans low high (x ∷ names) h (b, a) =
    (text_lt_trans low high x h b, above_trans low high names h a)

insert_name-Ascending :
    (name : Text) (names : List Text) → Ascending names → Ascending (insert_name name names)
unfolding insert_name
insert_name-Ascending name [] h = (tt, tt)
insert_name-Ascending name (x ∷ names) (a, h) = elim (Bool-cases (same name x)) [
  | inl e ↦ rw (e, insert_name) (a, h)
  | inr n ↦ elim (Bool-cases (text_lt name x)) [
    | inl l ↦ rw (n, l, insert_name) ((l, above_trans name x names l a), (a, h))
    | inr g ↦
        rw (n, g, insert_name)
          (
            insert_name-above x name names (text_lt-total name x n g) a,
            insert_name-Ascending name names h,
          )
  ]
]

pub sorted_set-Ascending : (names : List Text) → Ascending (sorted_set names)
unfolding sorted_set
sorted_set-Ascending [] = tt
sorted_set-Ascending (name ∷ names) =
    insert_name-Ascending name (sorted_set names) (sorted_set-Ascending names)

-- The type is one of the names.
abbrev IsIn : List Text → Text → Type 0
IsIn names name = contains names name ≡ true

entries-IsIn :
    (names : List Text) (entries : List Entry)
    → ((name : Text) → IsIn (map entry_type entries) name → IsIn names name)
    → All (λ e. IsIn names (entry_type e)) entries
entries-IsIn names [] f = tt
entries-IsIn names (e ∷ entries) f = (
  f (entry_type e) (ground (arith, same_refl (entry_type e))),
  entries-IsIn names entries (λ name h. f name (ground arith)),
)

allocations-IsIn :
    (names : List Text) (entries : List Entry)
    → All (λ e. IsIn names (entry_type e)) entries
    → All (λ (a : Allocation). IsIn names a.type) (allocations_of entries)
allocations-IsIn names [] h = tt
allocations-IsIn names (allocation_entry a ∷ entries) (i, h) = (i, allocations-IsIn names entries h)
allocations-IsIn names (use_entry u ∷ entries) (i, h) = allocations-IsIn names entries h

uses-IsIn :
    (names : List Text) (entries : List Entry)
    → All (λ e. IsIn names (entry_type e)) entries
    → All (λ (u : AccessUse). IsIn names u.type) (uses_of entries)
uses-IsIn names [] h = tt
uses-IsIn names (allocation_entry a ∷ entries) (i, h) = uses-IsIn names entries h
uses-IsIn names (use_entry u ∷ entries) (i, h) = (i, uses-IsIn names entries h)

-- The policy of the entries that were read.
pub record IsPolicyOf (entries : List Entry) (policy : Policy) : Type 0 where
  pub ascending : Ascending policy.types
  pub types_are :
      (name : Text) → contains policy.types name ≡ contains (map entry_type entries) name
  pub allocations_are : Perm policy.allocations (allocations_of entries)
  pub uses_are : Perm policy.uses (uses_of entries)
  pub allocations_known :
      All (λ (a : Allocation). contains policy.types a.type ≡ true) policy.allocations
  pub uses_known : All (λ (u : AccessUse). contains policy.types u.type ≡ true) policy.uses

build_policy-IsPolicyOf : (entries : List Entry) → IsPolicyOf entries (build_policy entries)
unfolding build_policy
build_policy-IsPolicyOf entries =
    let names = map entry_type entries in
    let known =
      entries-IsIn (sorted_set names) entries (λ name h. contains-sorted_set name names ∙ h) in
    record {
      ascending = sorted_set-Ascending names;
      types_are = λ name. contains-sorted_set name names;
      allocations_are = sort_by-perm allocation_lt (allocations_of entries);
      uses_are = sort_by-perm (λ (u v : AccessUse). text_lt u.name v.name) (uses_of entries);
      allocations_known =
          sort_by-All allocation_lt _ (allocations_of entries)
            (allocations-IsIn (sorted_set names) entries known);
      uses_known =
          sort_by-All (λ (u v : AccessUse). text_lt u.name v.name) _ (uses_of entries)
            (uses-IsIn (sorted_set names) entries known);
    }

-- A policy that is read from rows has the allocations and the uses of those rows, each as often as it
-- was read. Its types are those of its allocations and uses, in ascending order and so without
-- repetition, and every allocation and every use has one of them.
pub codeql_policy-IsPolicyOf :
    (read_int : Text → Option ℤ) (rows : List (List Text)) {policy : Policy}
    → codeql_policy read_int rows ≡ ok policy
    → (entries : List Entry) × (read_rows read_int rows ≡ ok entries) × IsPolicyOf entries policy
unfolding codeql_policy
codeql_policy-IsPolicyOf read_int rows h =
    let (entries, e, k) = >>=-eq-ok (read_rows read_int rows) (λ es. ok (build_policy es)) h in
    (entries, e, subst (IsPolicyOf entries) (ok_injective k) (build_policy-IsPolicyOf entries))
