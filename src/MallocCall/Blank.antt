-- ===== src/MallocCall/Blank.antt =====
-- The scanner of `malloc_call_extent` as two passes: comments and literals are blanked out, and
-- the parentheses of what is left are counted.
use interspec_typed_allocato.Prelude.{
  ℕ, zero, suc, ◌-◌, ◌≡◌, refl, ap, ◌∙◌, false, ◌&&◌, ◌||◌, Option, none, some, [], ◌∷◌, arith,
  Text, length, inl, inr, Bool-cases, ◌==◌, if◌then◌else◌,
}
use interspec_typed_allocato.Brackets.{close_bracket}
use interspec_typed_allocato.MallocCall.{
  Mode, code, line_comment, block_comment, quoted, escaped, find_close,
}

-- The text with a space for each character of a comment or a literal, its delimiters included.
unfoldable pub blank : Mode → Text → Text
blank _ [] = []
blank line_comment (c ∷ rest) = b' ' ∷ blank (if c == b'\n' then code else line_comment) rest
blank block_comment (c ∷ []) = b' ' ∷ []
blank block_comment (c ∷ d ∷ rest) =
    let outside = blank code rest in
    let inside = blank block_comment (d ∷ rest) in
    if c == b'*' && d == b'/' then b' ' ∷ b' ' ∷ outside else b' ' ∷ inside
blank (escaped q) (c ∷ rest) = b' ' ∷ blank (quoted q) rest
blank (quoted q) (c ∷ rest) =
    b' ' ∷ blank (if c == b'\\' then escaped q else if c == q then code else quoted q) rest
blank code (c ∷ []) = (if c == b'"' || c == b'\'' then b' ' else c) ∷ []
blank code (c ∷ d ∷ rest) =
    let in_line = blank line_comment rest in
    let in_block = blank block_comment rest in
    let in_quote = blank (quoted c) (d ∷ rest) in
    let onward = blank code (d ∷ rest) in
    if c == b'/' && d == b'/'
    then b' ' ∷ b' ' ∷ in_line
    else if c == b'/' && d == b'*'
    then b' ' ∷ b' ' ∷ in_block
    else if c == b'"' || c == b'\''
    then b' ' ∷ in_quote
    else c ∷ onward

pub length-blank : (mode : Mode) (text : Text) → length (blank mode text) ≡ length text
unfolding blank
length-blank code [] = refl
length-blank _ [] = refl
length-blank line_comment (c ∷ rest) =
    ground (arith, length-blank line_comment rest, length-blank code rest)
length-blank block_comment (c ∷ []) = refl
length-blank block_comment (c ∷ d ∷ rest) =
    ground (arith, length-blank code rest, length-blank block_comment (d ∷ rest))
length-blank (escaped q) (c ∷ rest) = ground (arith, length-blank (quoted q) rest)
length-blank (quoted q) (c ∷ rest) =
    ground
      (arith, length-blank (quoted q) rest, length-blank code rest, length-blank (escaped q) rest)
length-blank code (c ∷ []) = refl
length-blank code (c ∷ d ∷ rest) = ground (
  arith,
  length-blank line_comment rest,
  length-blank block_comment rest,
  length-blank (quoted c) (d ∷ rest),
  length-blank code (d ∷ rest),
)

abbrev pub behind : Option ℕ → Option ℕ
behind none = none
behind (some position) = some (suc position)

not_zero : (n : ℕ) → (suc (suc n) == 0) ≡ false
not_zero n = ground arith

not_one : (n : ℕ) → (suc (suc n) == 1) ≡ false
not_one n = ground arith

-- The branch for a closing parenthesis.
find_close_closing :
    (depth position : ℕ) (text : Text)
    → ((k : ℕ)
        → behind (find_close code (suc k) (suc position) text)
          ≡ close_bracket b'(' b')' (suc k) (suc position) (blank code text))
    → behind (
        if suc depth == 0
        then none
        else if suc depth == 1
        then some position
        else find_close code (suc depth - 1) (suc position) text)
      ≡ close_bracket b'(' b')' depth (suc position) (blank code text)
unfolding close_bracket
find_close_closing zero position text ih = refl
find_close_closing (suc depth) position text ih =
    rw (not_zero depth, not_one depth)
      (ap (λ k. behind (find_close code k (suc position) text)) (omega arith) ∙ ih depth)

-- Within at least one open parenthesis the scanner, in whatever mode, stops at the parenthesis where
-- the counting of parentheses alone stops on the text with its comments and literals blanked out, or
-- neither stops.
pub find_close-close_bracket :
    (mode : Mode) (depth position : ℕ) (text : Text)
    → behind (find_close mode (suc depth) position text)
      ≡ close_bracket b'(' b')' (suc depth) position (blank mode text)
unfolding find_close close_bracket blank
find_close-close_bracket code depth position [] = refl
find_close-close_bracket _ depth position [] = refl
find_close-close_bracket line_comment depth position (c ∷ rest) =
    find_close-close_bracket (if c == b'\n' then code else line_comment) depth (suc position) rest
find_close-close_bracket block_comment depth position (c ∷ []) = refl
find_close-close_bracket block_comment depth position (c ∷ d ∷ rest) = ground (
  arith,
  find_close-close_bracket code depth (suc (suc position)) rest,
  find_close-close_bracket block_comment depth (suc position) (d ∷ rest),
)
find_close-close_bracket (escaped q) depth position (c ∷ rest) =
    find_close-close_bracket (quoted q) depth (suc position) rest
find_close-close_bracket (quoted q) depth position (c ∷ rest) =
    find_close-close_bracket (if c == b'\\' then escaped q else if c == q then code else quoted q)
      depth (suc position) rest
find_close-close_bracket code zero position (c ∷ []) = ground arith
find_close-close_bracket code (suc depth) position (c ∷ []) = ground arith
find_close-close_bracket code depth position (c ∷ d ∷ rest) = elim (Bool-cases (c == b'/')) [
  | inl slash ↦ ground (
    arith,
    find_close-close_bracket line_comment depth (suc (suc position)) rest,
    find_close-close_bracket block_comment depth (suc (suc position)) rest,
    find_close-close_bracket code depth (suc position) (d ∷ rest),
  )
  | inr other ↦ elim (Bool-cases (c == b'"' || c == b'\'')) [
    | inl quote ↦
        ground (arith, find_close-close_bracket (quoted c) depth (suc position) (d ∷ rest))
    | inr plain ↦ elim (Bool-cases (c == b'(')) [
      | inl opens ↦
          ground (arith, find_close-close_bracket code (suc depth) (suc position) (d ∷ rest))
      | inr o ↦ elim (Bool-cases (c == b')')) [
        | inl closes ↦
            rw (other, plain, o, closes, find_close, blank)
              (rw (o, closes, close_bracket)
                (find_close_closing depth position (d ∷ rest)
                  (λ k. find_close-close_bracket code k (suc position) (d ∷ rest))))
        | inr onward ↦
            rw (other, plain, o, onward, find_close, blank)
              (rw (o, onward, close_bracket)
                (find_close-close_bracket code depth (suc position) (d ∷ rest)))
      ]
    ]
  ]
]
