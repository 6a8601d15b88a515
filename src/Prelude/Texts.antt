-- ===== src/Prelude/Texts.antt =====
-- Python strings as lists of code points, with the methods of `str` that the tools use.
use Prim.Native.Char.{code}
use Prim.Native.String.{String}
use Prim.Native.Nat.{ℕ, zero, suc, ◌+◌, ◌/◌, ◌%◌}
use mathlib.Core.Path.{◌≡◌}
use mathlib.Core.Logic.{◌↔◌}
use mathlib.Core.Bool.{Bool, true, false, ◌&&◌, ◌||◌}
use mathlib.Core.List.{List, [], ◌∷◌, ◌++◌, reverse}
use native.Mathlib.Omega.{arith}
use interspec_typed_allocato.Prelude.Tests.{ltb, leb, ◌==◌, if◌then◌else◌}
use interspec_typed_allocato.Prelude.Lists.{drop, any}

abbrev pub Text : Type 0
Text = List ℕ

abbrev pub codes : String → Text
codes String.[] = []
codes (String.◌∷◌ c s) = code c ∷ codes s

abbrev pub within : ℕ → ℕ → ℕ → Bool
within lo hi c = leb lo c && leb c hi

-- `==` of strings.
unfoldable pub same : Text → Text → Bool
same [] [] = true
same (x ∷ xs) (y ∷ ys) = x == y && same xs ys
same _ _ = false

pub same_iff : (a b : Text) → (same a b ≡ true) ↔ (a ≡ b)
unfolding same
same_iff (x ∷ a) (y ∷ b) = ground (arith, same_iff a b)
same_iff _ _ = ground arith

-- `<` of strings: by code point, a proper prefix first.
unfoldable pub text_lt : Text → Text → Bool
text_lt [] [] = false
text_lt [] (y ∷ ys) = true
text_lt (x ∷ xs) [] = false
text_lt (x ∷ xs) (y ∷ ys) = ltb x y || (x == y && text_lt xs ys)

-- `name in names`
abbrev pub contains : List Text → Text → Bool
contains names name = any (same name) names

-- `text.startswith(part)`
unfoldable pub starts_with : Text → Text → Bool
starts_with [] text = true
starts_with (x ∷ part) [] = false
starts_with (x ∷ part) (y ∷ text) = x == y && starts_with part text

-- `str.isspace`, and `\s` of a pattern over strings.
unfoldable pub is_space : ℕ → Bool
is_space c =
    within 9 13 c
    || within 28 32 c
    || c == 0x85
    || c == 0xa0
    || c == 0x1680
    || within 0x2000 0x200a c
    || c == 0x2028
    || c == 0x2029
    || c == 0x202f
    || c == 0x205f
    || c == 0x3000

-- How many characters at the front pass the test.
unfoldable pub run_length : (ℕ → Bool) → Text → ℕ
run_length p [] = 0
run_length p (c ∷ rest) = let more = run_length p rest in if p c then suc more else 0

abbrev pub drop_while : (ℕ → Bool) → Text → Text
drop_while p text = drop (run_length p text) text

-- `text.strip()` and `text.rstrip()`
unfoldable pub rstrip : Text → Text
unfolding run_length is_space
rstrip text = reverse (drop_while is_space (reverse text))

unfoldable pub strip : Text → Text
unfolding rstrip run_length is_space
strip text = rstrip (drop_while is_space text)

-- `separator.join(parts)`
unfoldable pub join : Text → List Text → Text
join separator [] = []
join separator (part ∷ []) = part
join separator (part ∷ parts) = part ++ (separator ++ join separator parts)

-- `str(n)`; the fuel is one more than the number, and each round divides it by ten.
unfoldable pub decimal_loop : ℕ → ℕ → Text
decimal_loop zero n = []
decimal_loop (suc fuel) n =
    let shorter = decimal_loop fuel (n / 10) in
    if ltb n 10 then (48 + n) ∷ [] else shorter ++ (48 + n % 10) ∷ []

unfoldable pub decimal : ℕ → Text
unfolding decimal_loop
decimal n = decimal_loop (suc n) n
