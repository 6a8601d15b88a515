-- ===== src/MallocCall.antt =====
-- `malloc_call_extent` of tools/generate_policy.py.
pub mod Blank
pub mod Extent
use interspec_typed_allocato.Prelude.{
  ℕ, zero, suc, ◌+◌, ◌-◌, Bool, true, false, not, ◌&&◌, ◌||◌, Option, none, some, List, [], ◌∷◌,
  ◌++◌, Text, codes, length, take, drop, starts_with, strip, is_space, run_length, ltb, leb, ◌==◌,
  if◌then◌else◌, Error, not_at_malloc, truncated_malloc, no_argument_list, empty_size,
  span_past_call, unterminated_arguments, Result, ok, err, ◌>>=◌, ◌>>◌, require, refuse,
  from_option,
}
use interspec_typed_allocato.Location.{head_is}

-- What `quote`, `escaped`, `line_comment` and `block_comment` say together: at most one of the
-- comments and the quote is on, and `escaped` only within a quote.
pub data Mode : Type 0 where
  code line_comment block_comment : Mode
  quoted escaped : ℕ → Mode

-- The result of the loop: the position of the parenthesis that brings the depth to zero.
-- `none` is the error behind the loop, which a parenthesis that closes too much leads to as well.
unfoldable pub find_close : Mode → ℕ → ℕ → Text → Option ℕ
find_close _ depth position [] = none
find_close line_comment depth position (c ∷ rest) =
    find_close (if c == b'\n' then code else line_comment) depth (suc position) rest
find_close block_comment depth position (c ∷ []) = none
find_close block_comment depth position (c ∷ d ∷ rest) =
    let outside = find_close code depth (suc (suc position)) rest in
    let inside = find_close block_comment depth (suc position) (d ∷ rest) in
    if c == b'*' && d == b'/' then outside else inside
find_close (escaped q) depth position (c ∷ rest) = find_close (quoted q) depth (suc position) rest
find_close (quoted q) depth position (c ∷ rest) =
    find_close (if c == b'\\' then escaped q else if c == q then code else quoted q) depth
      (suc position) rest
find_close code depth position (c ∷ []) = if c == b')' && depth == 1 then some position else none
find_close code depth position (c ∷ d ∷ rest) =
    let in_line = find_close line_comment depth (suc (suc position)) rest in
    let in_block = find_close block_comment depth (suc (suc position)) rest in
    let in_quote = find_close (quoted c) depth (suc position) (d ∷ rest) in
    let deeper = find_close code (suc depth) (suc position) (d ∷ rest) in
    let shallower = find_close code (depth - 1) (suc position) (d ∷ rest) in
    let onward = find_close code depth (suc position) (d ∷ rest) in
    if c == b'/' && d == b'/'
    then in_line
    else if c == b'/' && d == b'*'
    then in_block
    else if c == b'"' || c == b'\''
    then in_quote
    else if c == b'('
    then deeper
    else if c == b')'
    then (if depth == 0 then none else if depth == 1 then some position else shallower)
    else onward

pub record Call : Type 0 where
  pub start : ℕ
  pub end : ℕ
  pub argument : Text

abbrev pub is_nonempty : Text → Bool
is_nonempty [] = false
is_nonempty (_ ∷ _) = true

-- `source[a:b]`
abbrev pub slice : Text → ℕ → ℕ → Text
slice source a b = take (b - a) (drop a source)

-- The code behind the search for the closing parenthesis.
unfoldable pub finish_call : Text → ℕ → ℕ → ℕ → ℕ → Result Call
unfolding strip
finish_call source anchor_start anchor_end open_paren close_paren = do
  let argument = strip (slice source (suc open_paren) close_paren)
  require (is_nonempty argument) empty_size
  let call_end = suc close_paren
  refuse (ltb call_end anchor_end && is_nonempty (strip (slice source call_end anchor_end)))
      span_past_call
  ok (record { start = anchor_start; end = call_end; argument = argument })

unfoldable pub malloc_call_extent : Text → ℕ → ℕ → Result Call
unfolding finish_call find_close starts_with run_length is_space
malloc_call_extent source anchor_start anchor_end = do
  refuse
      (leb anchor_end anchor_start || not (starts_with (codes "malloc") (drop anchor_start source)))
      not_at_malloc
  let name_end = anchor_start + 6
  refuse (ltb anchor_end name_end) truncated_malloc
  let open_paren = name_end + run_length is_space (drop name_end source)
  require (head_is b'(' (drop open_paren source)) no_argument_list
  close_paren ←
      from_option unterminated_arguments (find_close code 0 open_paren (drop open_paren source))
  finish_call source anchor_start anchor_end open_paren close_paren
