-- ===== src/Names.antt =====
-- `macro`, `symbol` and `cpp` of tools/generate_policy.py: the spellings of a name in the output.
pub mod Decimal
pub mod Spelling
use interspec_typed_allocato.Prelude.{
  ℕ, ◌-◌, Bool, not, ◌&&◌, ◌||◌, List, [], ◌∷◌, ◌++◌, map, Text, within, filter, concat, ◌==◌,
  if◌then◌else◌,
}

-- `[A-Za-z0-9]`
unfoldable pub is_alnum : ℕ → Bool
is_alnum c = within b'A' b'Z' c || within b'a' b'z' c || within b'0' b'9' c

-- `.upper()` and `.lower()`, at the ASCII characters that the patterns leave.
unfoldable pub upper : ℕ → ℕ
upper c = if within b'a' b'z' c then c - 32 else c

unfoldable pub macro_char : ℕ → ℕ
unfolding is_alnum upper
macro_char c = upper (if is_alnum c then c else b'_')

unfoldable pub macro : Text → Text
unfolding macro_char
macro name = map macro_char name

unfoldable pub symbol_char : ℕ → ℕ
unfolding is_alnum
symbol_char c = if is_alnum c || c == b'_' then c else b'_'

unfoldable pub symbol : Text → Text
unfolding symbol_char
symbol name = map symbol_char name

abbrev pub cons_first : ℕ → List Text → List Text
cons_first c [] = (c ∷ []) ∷ []
cons_first c (line ∷ lines) = (c ∷ line) ∷ lines

-- A run of other characters ends here: the next character, if any, is a letter or a digit.
abbrev run_ends : Text → Bool
run_ends [] = Bool.true
run_ends (c ∷ _) = is_alnum c

-- `re.split(r"[^A-Za-z0-9]+", name)`
unfoldable pub split_words : Text → List Text
unfolding is_alnum
split_words [] = [] ∷ []
split_words (c ∷ rest) =
    let parts = split_words rest in
    if is_alnum c then cons_first c parts else if run_ends rest then [] ∷ parts else parts

abbrev capitalize : Text → Text
capitalize [] = []
capitalize (c ∷ part) = upper c ∷ part

abbrev is_part : Text → Bool
is_part [] = Bool.false
is_part (_ ∷ _) = Bool.true

unfoldable pub cpp : Text → Text
unfolding split_words upper
cpp name = concat (map capitalize (filter is_part (split_words name)))
