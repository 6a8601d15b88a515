-- ===== src/Brackets.antt =====
-- The counting loop of `function_body`, for any pair of brackets.
pub mod Grammar
use interspec_typed_allocato.Prelude.{
  ℕ, zero, suc, Option, none, some, List, [], ◌∷◌, Text, ◌==◌, if◌then◌else◌,
}

-- `while pos < len(source) and depth`. The result is the position behind the bracket that brings
-- the depth to zero, and `none` if the text ends first.
unfoldable pub close_bracket : ℕ → ℕ → ℕ → ℕ → Text → Option ℕ
close_bracket opening closing zero position text = some position
close_bracket opening closing (suc depth) position [] = none
close_bracket opening closing (suc depth) position (c ∷ rest) =
    close_bracket opening closing
      (if c == opening then suc (suc depth) else if c == closing then depth else suc depth)
      (suc position) rest
