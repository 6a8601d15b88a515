-- ===== src/Prelude/Integers.antt =====
-- Signed integers, for the numbers that the tools read from JSON.
use Prim.Native.Nat.{ℕ, zero, suc, ◌+◌}
use mathlib.Core.Bool.{Bool}
use mathlib.Core.Option.{Option, none, some}
use mathlib.Core.List.{◌∷◌}
use interspec_typed_allocato.Prelude.Tests.{ltb}
use interspec_typed_allocato.Prelude.Texts.{Text, decimal}

-- `negsuc n` is -(n + 1).
pub data ℤ : Type 0 where
  pos : ℕ → ℤ
  negsuc : ℕ → ℤ

abbrev pub pos_part : ℤ → ℕ
pos_part (pos n) = n
pos_part (negsuc n) = 0

abbrev pub neg_part : ℤ → ℕ
neg_part (pos n) = 0
neg_part (negsuc n) = suc n

abbrev pub ltb_ℤ : ℤ → ℤ → Bool
ltb_ℤ a b = ltb (pos_part a + neg_part b) (pos_part b + neg_part a)

-- The value of an integer that is at least 1, less 1.
abbrev pub one_based : ℤ → Option ℕ
one_based (pos zero) = none
one_based (pos (suc n)) = some n
one_based (negsuc n) = none

-- `str(z)`
unfoldable pub decimal_ℤ : ℤ → Text
decimal_ℤ (pos n) = decimal n
decimal_ℤ (negsuc n) = b'-' ∷ decimal (suc n)
