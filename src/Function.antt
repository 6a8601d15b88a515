-- ===== src/Function.antt =====
-- `function_match`, `function_body` and `mark_precise_function_noinline` of
-- tools/generate_policy.py.
pub mod Body
use interspec_typed_allocato.Prelude.{
  ℕ, zero, suc, ◌+◌, ◌-◌, Bool, true, false, not, ◌&&◌, ◌||◌, Option, none, some, List, [], ◌∷◌,
  ◌++◌, Text, codes, length, take, drop, same, within, ltb, ◌==◌, if◌then◌else◌, Error,
  function_not_found, unterminated_function, Result, ok, err, ◌>>=◌, from_option,
}
use interspec_typed_allocato.Names.{is_alnum}
use interspec_typed_allocato.Pattern.{Token, lit, spaces, until, match_length, Span}
use interspec_typed_allocato.Brackets.{close_bracket}

-- `\s*\([^)]*\)\s*\{` behind the name.
abbrev pub definition_pattern : Text → List Token
definition_pattern function =
    lit function
    ∷ spaces
    ∷ lit (b'(' ∷ [])
    ∷ until b')'
    ∷ lit (b')' ∷ [])
    ∷ spaces
    ∷ lit (b'{' ∷ [])
    ∷ []

-- `unicode_alnum` says which characters beyond ASCII Python counts as letters or digits.
module _ (unicode_alnum : ℕ → Bool) where
  -- `\w`
  unfoldable pub is_word : ℕ → Bool
  unfolding is_alnum
  is_word c = if ltb c 128 then is_alnum c || c == b'_' else unicode_alnum c

  -- `\b` between a character, if it is one of a word, and the rest.
  unfoldable pub at_boundary : Bool → Text → Bool
  unfolding is_word
  at_boundary before [] = before
  at_boundary before (c ∷ rest) = if before then not (is_word c) else is_word c

  -- `re.search`: the leftmost match.
  unfoldable pub search_from : Text → Bool → ℕ → Text → Option Span
  unfolding at_boundary match_length
  search_from function before position [] = none
  search_from function before position (c ∷ rest) =
      let later = search_from function (is_word c) (suc position) rest in
      elim (at_boundary before (c ∷ rest)) [
        | false ↦ later
        | true ↦ elim (match_length (definition_pattern function) (c ∷ rest)) [
          | none ↦ later
          | some n ↦ some (record { start = position; end = position + n })
        ]
      ]

  unfoldable pub function_match : Text → Text → Result Span
  unfolding search_from
  function_match source function =
      from_option (function_not_found function) (search_from function false 0 source)

  -- The two ends of the text between the braces.
  unfoldable pub function_body : Text → Text → Result Span
  unfolding function_match close_bracket
  function_body source function = do
    found ← function_match source function
    position ←
        from_option (unterminated_function function)
          (close_bracket b'{' b'}' 1 found.end (drop found.end source))
    ok (record { start = found.end; end = position - 1 })

  abbrev pub marker : Text
  marker = codes "__attribute__((noinline)) "

  unfoldable pub mark_precise_function_noinline : Text → Text → Result Text
  unfolding function_match same
  mark_precise_function_noinline source function = do
    found ← function_match source function
    let before = found.start - length marker
    ok (
        if same (take (found.start - before) (drop before source)) marker
        then source
        else take found.start source ++ (marker ++ drop found.start source))
