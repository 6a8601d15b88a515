-- ===== src/Names/Spelling.antt =====
-- What the spellings are made of: the output holds no other character than an identifier may.
use interspec_typed_allocato.Prelude.{ℕ, true, ◌||◌, [], ◌∷◌, ◌≡◌, arith, Text, All, within, ◌==◌}
use interspec_typed_allocato.Names.{is_alnum, macro, symbol}

-- An upper-case letter, a digit or an underscore.
abbrev pub IsMacroChar : ℕ → Type 0
IsMacroChar c = (within b'A' b'Z' c || within b'0' b'9' c || c == b'_') ≡ true

abbrev pub IsIdentChar : ℕ → Type 0
IsIdentChar c = (is_alnum c || c == b'_') ≡ true

pub macro-IsMacroChar : (name : Text) → All IsMacroChar (macro name)
unfolding macro
macro-IsMacroChar [] = tt
macro-IsMacroChar (c ∷ name) = (ground arith, macro-IsMacroChar name)

pub symbol-IsIdentChar : (name : Text) → All IsIdentChar (symbol name)
unfolding symbol
symbol-IsIdentChar [] = tt
symbol-IsIdentChar (c ∷ name) = (ground arith, symbol-IsIdentChar name)
