-- ===== src/Hash/Polynomial.antt =====
-- The type hash as a polynomial in 129, and its agreement with the C++ function.
use native.Mathlib.Nat.{pow-suc, add-mul-mod_self_left, div-add-mod}
use interspec_typed_allocato.Prelude.{
  ℕ, suc, ◌+◌, ◌*◌, ◌/◌, ◌%◌, ◌^◌, ◌<◌, List, [], ◌∷◌, ◌≡◌, refl, ◌∙◌, ap, sym, arith, Text, length,
  All,
}
use interspec_typed_allocato.Hash.{encode, hash_loop, hash_type, type_hash_loop, type_hash}

abbrev pub word : ℕ
word = 2 ^ 64

-- The bytes as the digits of a number to the base 129, the first one highest.
pub polynomial : List ℕ → ℕ
polynomial [] = 0
polynomial (byte ∷ bytes) = byte * 129 ^ length bytes + polynomial bytes

mod_affine : (x p q m : ℕ) → (x % m * p + q) % m ≡ (x * p + q) % m
mod_affine x p q m =
    sym (add-mul-mod_self_left (x % m * p + q) m (x / m * p))
    ∙ ap (λ t. t % m) (omega (arith, ap (λ (t : ℕ). t * p) (div-add-mod x m)))

horner :
    (value byte n rest : ℕ)
    → (129 * value + byte) * 129 ^ n + rest ≡ value * 129 ^ suc n + (byte * 129 ^ n + rest)
horner value byte n rest = rw pow-suc (omega arith)

hash_loop-polynomial :
    (bytes : List ℕ) (value : ℕ)
    → value < word
    → hash_loop value bytes ≡ (value * 129 ^ length bytes + polynomial bytes) % word
unfolding hash_loop polynomial
hash_loop-polynomial [] value h = omega arith
hash_loop-polynomial (byte ∷ bytes) value h =
    hash_loop-polynomial bytes ((129 * value + byte) % 2 ^ 64) (omega arith)
    ∙ mod_affine (129 * value + byte) (129 ^ length bytes) (polynomial bytes) word
    ∙ ap (λ t. t % word) (horner value byte (length bytes) (polynomial bytes))

hash_loop-lt : (bytes : List ℕ) (value : ℕ) → value < word → hash_loop value bytes < word
unfolding hash_loop
hash_loop-lt [] value h = h
hash_loop-lt (byte ∷ bytes) value h =
    hash_loop-lt bytes ((129 * value + byte) % 2 ^ 64) (omega arith)

-- The hash of a name is the value of its UTF-8 bytes as a polynomial in 129, modulo 2 ^ 64.
hash_type-polynomial : (name : Text) → hash_type name ≡ polynomial (encode name) % 2 ^ 64
unfolding hash_type
hash_type-polynomial name =
    hash_loop-polynomial (encode name) 0 (omega arith) ∙ ap (λ t. t % word) (omega arith)

abbrev pub IsByte : ℕ → Type 0
IsByte b = (0 < b) × (b < 256)

type_hash_loop-hash_loop :
    (bytes : List ℕ) (value : ℕ)
    → All IsByte bytes
    → type_hash_loop value bytes ≡ hash_loop value bytes
unfolding type_hash_loop hash_loop
type_hash_loop-hash_loop [] value h = refl
type_hash_loop-hash_loop (byte ∷ bytes) value (b, h) =
    ground (arith, type_hash_loop-hash_loop bytes ((129 * value + byte) % 2 ^ 64) h)

-- For a name whose UTF-8 bytes are not zero, the hash that the generator writes is the one that the
-- C++ constant function computes from the bytes of the same name: their value as a polynomial in 129,
-- modulo 2 ^ 64.
pub hash_type-type_hash :
    (name : Text)
    → All IsByte (encode name)
    → (hash_type name ≡ type_hash (encode name))
      × (hash_type name ≡ polynomial (encode name) % 2 ^ 64)
unfolding hash_type type_hash
hash_type-type_hash name h =
    (sym (type_hash_loop-hash_loop (encode name) 0 h), hash_type-polynomial name)

pub hash_type-lt : (name : Text) → hash_type name < 2 ^ 64
unfolding hash_type
hash_type-lt name = hash_loop-lt (encode name) 0 (omega arith)
