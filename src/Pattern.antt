-- ===== src/Pattern.antt =====
-- The regular expressions of tools/generate_policy.py. In each of them what follows a repetition
-- begins with a character that the repetition does not take, so the longest run is the only one
-- that can match, and a match needs no backtracking.
pub mod Bounds
use interspec_typed_allocato.Prelude.{
  ℕ, zero, suc, ◌+◌, Bool, true, false, not, ◌&&◌, ◌||◌, Option, none, some, List, [], ◌∷◌, Text,
  length, take, drop, run_length, starts_with, is_space, within, ◌==◌, if◌then◌else◌,
}

-- `lit t` is the text t, `spaces` is `\s*`, `until c` is `[^c]*`, and `ident` is
-- `[A-Za-z_][A-Za-z0-9_]*`.
pub data Token : Type 0 where
  lit : Text → Token
  spaces : Token
  until : ℕ → Token
  ident : Token

abbrev is_ident_start : ℕ → Bool
is_ident_start c = within b'A' b'Z' c || within b'a' b'z' c || c == b'_'

abbrev is_ident : ℕ → Bool
is_ident c = is_ident_start c || within b'0' b'9' c

abbrev ident_length : Text → Option ℕ
ident_length [] = none
ident_length (c ∷ rest) = if is_ident_start c then some (suc (run_length is_ident rest)) else none

-- How much of the text the token takes, if it fits at the front.
unfoldable pub token_length : Token → Text → Option ℕ
unfolding starts_with run_length is_space
token_length (lit t) text = if starts_with t text then some (length t) else none
token_length spaces text = some (run_length is_space text)
token_length (until c) text = some (run_length (λ d. not (d == c)) text)
token_length ident text = ident_length text

abbrev plus : ℕ → Option ℕ → Option ℕ
plus n none = none
plus n (some m) = some (n + m)

unfoldable pub match_length : List Token → Text → Option ℕ
unfolding token_length
match_length [] text = some 0
match_length (token ∷ tokens) text = elim (token_length token text) [
  | none ↦ none
  | some n ↦ plus n (match_length tokens (drop n text))
]

-- `match.group(1)`: the text at the pattern's `ident`.
unfoldable pub group : List Token → Text → Text
unfolding token_length
group [] text = []
group (ident ∷ tokens) text = elim (token_length ident text) [ none ↦ [] | some n ↦ take n text ]
group (token ∷ tokens) text = elim (token_length token text) [
  | none ↦ []
  | some n ↦ group tokens (drop n text)
]

-- `match.start()` and `match.end()`.
pub record Span : Type 0 where
  pub start : ℕ
  pub end : ℕ

-- `finditer`: the matches from the left, each behind the one before. The pattern takes at least one
-- character; `skip` counts those of the last match that are still to be passed.
unfoldable pub find_all : List Token → ℕ → ℕ → Text → List Span
unfolding match_length
find_all tokens position skip [] = []
find_all tokens position (suc skip) (c ∷ rest) = find_all tokens (suc position) skip rest
find_all tokens position zero (c ∷ rest) = elim (match_length tokens (c ∷ rest)) [
  | none ↦ find_all tokens (suc position) 0 rest
  | some zero ↦ find_all tokens (suc position) 0 rest
  | some (suc n) ↦
      record { start = position; end = position + suc n } ∷ find_all tokens (suc position) n rest
]
