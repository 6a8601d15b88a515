-- ===== src/Location.antt =====
-- `source_offset` of tools/generate_policy.py: a line and a column as an offset.
pub mod Lines
pub mod Shows
pub mod Stable
use interspec_typed_allocato.Prelude.{
  ℕ, zero, suc, ◌+◌, ◌-◌, ◌<◌, Bool, true, false, not, ◌&&◌, ◌||◌, Option, none, some, List, [],
  ◌∷◌, ◌++◌, reverse, Text, length, take, drop, concat, within, ltb, ◌==◌, if◌then◌else◌, Error,
  not_one_based, line_out_of_range, column_out_of_range, Result, ok, err, ◌>>=◌, ◌>>◌, refuse,
  from_option,
}
use interspec_typed_allocato.Prelude.Integers.{ℤ, one_based}
use interspec_typed_allocato.Names.{cons_first}

-- The characters at which `splitlines` ends a line.
unfoldable pub is_break : ℕ → Bool
is_break c = within 0x0a 0x0d c || within 0x1c 0x1e c || c == 0x85 || c == 0x2028 || c == 0x2029

abbrev pub head_is : ℕ → Text → Bool
head_is c [] = false
head_is c (d ∷ rest) = d == c

-- `source.splitlines(keepends=True)`; a carriage return ends no line before a line feed.
unfoldable pub splitlines : Text → List Text
unfolding is_break
splitlines [] = []
splitlines (c ∷ rest) =
    let lines = splitlines rest in
    if is_break c && not (c == b'\r' && head_is b'\n' rest)
    then (c ∷ []) ∷ lines
    else cons_first c lines

-- `text[:-1] if text.endswith(c) else text`
abbrev pub drop_last : ℕ → Text → Text
drop_last c [] = []
drop_last c (d ∷ []) = if d == c then [] else d ∷ []
drop_last c (d ∷ e ∷ rest) = d ∷ drop_last c (e ∷ rest)

abbrev pub visible : Text → Text
visible text = drop_last b'\r' (drop_last b'\n' text)

-- `lines[line - 1]`, where there is one.
abbrev pub get_elem? : List Text → ℕ → Option Text
get_elem? [] n = none
get_elem? (line ∷ lines) zero = some line
get_elem? (line ∷ lines) (suc n) = get_elem? lines n

-- Both numbers less 1. `end` asks for the offset behind the column.
unfoldable pub offset_at : Text → ℕ → ℕ → Bool → Result ℕ
unfolding splitlines
offset_at source line column end = do
  text ← from_option line_out_of_range (get_elem? (splitlines source) line)
  refuse (ltb (length (visible text) + (if end then 1 else 0)) (suc column)) column_out_of_range
  let base = length (concat (take line (splitlines source)))
  ok (if end then base + suc column else base + column)

unfoldable pub source_offset : Text → ℤ → ℤ → Bool → Result ℕ
unfolding offset_at
source_offset source line column end = do
  l ← from_option not_one_based (one_based line)
  c ← from_option not_one_based (one_based column)
  offset_at source l c end
