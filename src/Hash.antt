-- ===== src/Hash.antt =====
-- `hash_type` of tools/generate_policy.py, and `type_hash` of include/interspec/runtime.h, which
-- the trusted side computes from the same name.
pub mod Polynomial
use interspec_typed_allocato.Prelude.{
  ℕ, ◌+◌, ◌*◌, ◌/◌, ◌%◌, ◌^◌, Bool, List, [], ◌∷◌, ◌++◌, Text, ltb, ◌==◌, if◌then◌else◌,
}

-- `str.encode`: UTF-8. A text holds Unicode scalar values.
unfoldable pub encode_char : ℕ → List ℕ
encode_char c =
    if ltb c 0x80
    then c ∷ []
    else if ltb c 0x800
    then (0xc0 + c / 64) ∷ (0x80 + c % 64) ∷ []
    else if ltb c 0x10000
    then (0xe0 + c / 4096) ∷ (0x80 + c / 64 % 64) ∷ (0x80 + c % 64) ∷ []
    else (0xf0 + c / 262144) ∷ (0x80 + c / 4096 % 64) ∷ (0x80 + c / 64 % 64) ∷ (0x80 + c % 64) ∷ []

unfoldable pub encode : Text → List ℕ
unfolding encode_char
encode [] = []
encode (c ∷ text) = encode_char c ++ encode text

-- The loop over the bytes; `& ((1 << 64) - 1)` is a remainder.
unfoldable pub hash_loop : ℕ → List ℕ → ℕ
hash_loop value [] = value
hash_loop value (byte ∷ bytes) = hash_loop ((129 * value + byte) % 2 ^ 64) bytes

unfoldable pub hash_type : Text → ℕ
unfolding encode hash_loop
hash_type name = hash_loop 0 (encode name)

-- The C++ function over the bytes behind `text`: each operation on `uint64_t` wraps round, and the
-- loop stops at the first zero byte or, in the model, where the bytes end.
unfoldable pub type_hash_loop : ℕ → List ℕ → ℕ
type_hash_loop hash [] = hash
type_hash_loop hash (byte ∷ bytes) =
    let next = type_hash_loop ((129 * hash % 2 ^ 64 + byte % 256) % 2 ^ 64) bytes in
    if byte == 0 then hash else next

unfoldable pub type_hash : List ℕ → ℕ
unfolding type_hash_loop
type_hash bytes = type_hash_loop 0 bytes
