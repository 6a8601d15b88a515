-- ===== src/Bridge.antt =====
-- `regex_once` and the edits of `transform` of tools/build_p9a_rlbox_only_bridge.py,
-- tools/build_p9b_wasm2c_bridge.py and tools/build_p11_wasm2c_rlbox_only_bridge.py.
pub mod NaclOnlyTexts
pub mod Wasm2cTexts
pub mod Wasm2cEngine
pub mod WasmOnlyTexts
pub mod Transform
pub mod Regex
pub mod Found
pub mod Once
pub mod Gone
pub mod Swapped
pub mod Laws
use interspec_typed_allocato.Prelude.{
  ℕ, zero, suc, Bool, true, false, Option, none, some, List, [], ◌∷◌, ◌++◌, Text, codes,
  starts_with, is_space, run_length, length, take, drop, ◌==◌, if◌then◌else◌, no_pattern, Result,
  ok, err, ◌>>=◌, from_option,
}
use interspec_typed_allocato.Boundary.{replace_all}
use interspec_typed_allocato.Patch.{replace_once}

-- The patterns are made of characters that stand for themselves, `.*?` that passes line breaks too,
-- and `\s+`.
pub data Piece : Type 0 where
  exact : Text → Piece
  gap blanks : Piece

-- A match at the begin of a text: the matched text, and the text behind it.
abbrev pub Match : Type 0
Match = Option (Text × Text)

abbrev pub behind : Text → Match → Match
behind before found = elim found [ none ↦ none | some (s, rest) ↦ some (before ++ s, rest) ]

-- `.*?` tries the shortest text first.
abbrev pub shortest : (Text → Match) → Text → Match
shortest further [] = further []
shortest further (c ∷ text) =
    let later = behind (c ∷ []) (shortest further text) in
    elim (further (c ∷ text)) [ none ↦ later | some found ↦ some found ]

-- `\s+` takes all the white space there is; no pattern goes on with white space behind it.
unfoldable pub match_at : List Piece → Text → Match
unfolding starts_with is_space run_length
match_at [] text = some ([], text)
match_at (exact part ∷ pieces) text =
    let further = match_at pieces (drop (length part) text) in
    if starts_with part text then behind part further else none
match_at (gap ∷ pieces) text = shortest (match_at pieces) text
match_at (blanks ∷ pieces) text =
    let n = run_length is_space text in
    let further = match_at pieces (drop n text) in
    if n == 0 then none else behind (take n text) further

-- The first match from the left: the text in front of it, and the match.
unfoldable pub find_match : List Piece → Text → Option (Text × Text × Text)
unfolding match_at
find_match pieces [] = elim (match_at pieces []) [
  | none ↦ none
  | some (s, rest) ↦ some ([], s, rest)
]
find_match pieces (c ∷ text) =
    let later = find_match pieces text in
    elim (match_at pieces (c ∷ text)) [
      | some (s, rest) ↦ some ([], s, rest)
      | none ↦ elim later [ none ↦ none | some (before, s, rest) ↦ some (c ∷ before, s, rest) ]
    ]

-- `re.subn(…, count=1)` counts one replacement or none. No replacement has a backslash.
unfoldable pub regex_once : Text → List Piece → Text → Result Text
unfolding find_match
regex_once text pieces new = elim (find_match pieces text) [
  | none ↦ err no_pattern
  | some (before, s, rest) ↦ ok (before ++ (new ++ rest))
]

-- One assignment to `text` of a `transform`.
pub data Edit : Type 0 where
  once every : Text → Text → Edit
  regex : List Piece → Text → Edit

unfoldable pub edit : Text → Edit → Result Text
unfolding replace_once regex_once replace_all
edit text (once old new) = replace_once text old new
edit text (regex pieces new) = regex_once text pieces new
edit text (every old new) = ok (replace_all old new 0 text)

unfoldable pub run_edits : Text → List Edit → Result Text
run_edits text [] = ok text
run_edits text (next ∷ edits) = do text' ← edit text next; run_edits text' edits
