-- ===== src/Tests/Texts.antt =====
-- The theorems on hashes, labels, lines, calls, rows and patches at small texts.
use interspec_typed_allocato.Prelude.{
  ◌-◌, ◌%◌, ◌^◌, ◌≡◌, refl, arith, Option, none, some, List, [], ◌∷◌, Text, codes, All, Result, ok,
  err,
}
use interspec_typed_allocato.Prelude.Integers.{ℤ, pos}
use interspec_typed_allocato.Hash.{encode, hash_type, type_hash}
use interspec_typed_allocato.Hash.Polynomial.{polynomial, IsByte, hash_type-type_hash}
use interspec_typed_allocato.MallocCall.{code, find_close}
use interspec_typed_allocato.MallocCall.Blank.{blank, behind, find_close-close_bracket}
use interspec_typed_allocato.Brackets.{close_bracket}
use interspec_typed_allocato.Policy.{Policy}
use interspec_typed_allocato.Codeql.{Entry, read_rows, codeql_policy}
use interspec_typed_allocato.Codeql.Laws.{IsPolicyOf, codeql_policy-IsPolicyOf}
use interspec_typed_allocato.Patch.{replace, replace_once}

bytes_of_char : All IsByte (encode (codes "char"))
unfolding encode
bytes_of_char = omega arith

hash_type-type_hash_example :
    (hash_type (codes "char") ≡ type_hash (encode (codes "char")))
    × (hash_type (codes "char") ≡ polynomial (encode (codes "char")) % 2 ^ 64)
hash_type-type_hash_example = hash_type-type_hash (codes "char") bytes_of_char

find_close-close_bracket_example :
    behind (find_close code 1 0 (codes "f(1 /* ) */) + 2) // )"))
    ≡ close_bracket b'(' b')' 1 0 (blank code (codes "f(1 /* ) */) + 2) // )"))
find_close-close_bracket_example =
    find_close-close_bracket code 0 0 (codes "f(1 /* ) */) + 2) // )")

abbrev row : List Text
row =
    codes "allocation"
    ∷ codes "site"
    ∷ codes "char"
    ∷ codes "f"
    ∷ codes "0"
    ∷ codes "0"
    ∷ codes "1"
    ∷ codes "1"
    ∷ codes "1"
    ∷ codes "1"
    ∷ []

-- One digit.
abbrev digit : Text → Option ℤ
digit [] = none
digit (c ∷ _) = some (pos (c - b'0'))

abbrev policy_of : Result Policy → Policy
policy_of r = elim r [ ok p ↦ p | err _ ↦ record { types = []; allocations = []; uses = [] } ]

read_ok : codeql_policy digit (row ∷ []) ≡ ok (policy_of (codeql_policy digit (row ∷ [])))
unfolding codeql_policy
read_ok = refl

codeql_policy-IsPolicyOf_example :
    (entries : List Entry) × (read_rows digit (row ∷ []) ≡ ok entries)
    × IsPolicyOf entries (policy_of (codeql_policy digit (row ∷ [])))
codeql_policy-IsPolicyOf_example = codeql_policy-IsPolicyOf digit (row ∷ []) read_ok

patch_ok :
    replace (codes "int a; int b;") (codes "int") (codes "long") ≡ ok (codes "long a; int b;")
unfolding replace
patch_ok = refl

once_ok : replace_once (codes "int a;") (codes "int") (codes "long") ≡ ok (codes "long a;")
unfolding replace_once
once_ok = refl
