-- ===== src/Names/Decimal.antt =====
-- `str` of a number: digits only, and the number can be read back.
use interspec_typed_allocato.Prelude.{
  ℕ, zero, suc, ◌+◌, ◌-◌, ◌*◌, ◌/◌, ◌<◌, ◌≤◌, List, [], ◌∷◌, ◌++◌, ◌≡◌, refl, ◌∙◌, ap, sym, inl,
  inr, arith, Text, All, ltb, decimal_loop, decimal, Bool-cases,
}

-- The number that digits stand for, with a value for what is read already.
pub read_decimal : ℕ → Text → ℕ
read_decimal value [] = value
read_decimal value (c ∷ text) = read_decimal (value * 10 + (c - 48)) text

read_decimal-append :
    (s t : Text) (value : ℕ) → read_decimal value (s ++ t) ≡ read_decimal (read_decimal value s) t
unfolding read_decimal
read_decimal-append [] t value = refl
read_decimal-append (c ∷ s) t value = read_decimal-append s t _

read_decimal-decimal_loop : (fuel n : ℕ) → n < fuel → read_decimal 0 (decimal_loop fuel n) ≡ n
unfolding decimal_loop read_decimal
read_decimal-decimal_loop zero n h = elim h [ ]
read_decimal-decimal_loop (suc fuel) n h = elim (Bool-cases (ltb n 10)) [
  | inl small ↦ rw small (ground arith)
  | inr large ↦
      rw (large, read_decimal-append)
        (let ih = read_decimal-decimal_loop fuel (n / 10) (ground arith) in rw ih (omega arith))
]

-- Reading back what `str` prints gives the number: the fuel of the printer is enough.
pub read_decimal-decimal : (n : ℕ) → read_decimal 0 (decimal n) ≡ n
unfolding decimal
read_decimal-decimal n = read_decimal-decimal_loop (suc n) n (omega arith)

pub decimal_injective : (m n : ℕ) → decimal m ≡ decimal n → m ≡ n
decimal_injective m n h =
    sym (read_decimal-decimal m) ∙ ap (read_decimal 0) h ∙ read_decimal-decimal n

abbrev pub IsDigit : ℕ → Type 0
IsDigit c = (48 ≤ c) × (c ≤ 57)

All-append {ℓ κ} :
    {A : Type ℓ} (P : A → Type κ) (xs ys : List A) → All P xs → All P ys → All P (xs ++ ys)
All-append P [] ys p q = q
All-append P (x ∷ xs) ys p q = (p.0, All-append P xs ys p.1 q)

decimal_loop-IsDigit : (fuel n : ℕ) → All IsDigit (decimal_loop fuel n)
unfolding decimal_loop
decimal_loop-IsDigit zero n = tt
decimal_loop-IsDigit (suc fuel) n = elim (Bool-cases (ltb n 10)) [
  | inl small ↦ rw small (ground arith)
  | inr large ↦
      rw large (
        All-append IsDigit _ _ (decimal_loop-IsDigit fuel (n / 10))
          ((omega arith, omega arith), tt))
]

pub decimal-IsDigit : (n : ℕ) → All IsDigit (decimal n)
unfolding decimal
decimal-IsDigit n = decimal_loop-IsDigit (suc n) n
