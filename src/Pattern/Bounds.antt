-- ===== src/Pattern/Bounds.antt =====
-- A match lies within the text, and ends with what its last token takes.
use interspec_typed_allocato.Prelude.{
  ℕ, ◌+◌, ◌≤◌, ◌≡◌, sym, ap, ◌∙◌, Bool, true, inl, inr, some, List, [], ◌∷◌, ◌++◌, arith, Text,
  length, take, drop, length-append, length-take, subst, take-append-drop, is_space, not,
  append_assoc, run_length, starts_with, ◌==◌, ==_iff, Bool-cases, Option-cases,
}
use interspec_typed_allocato.Pattern.{
  Token, lit, spaces, until, ident, is_ident, token_length, match_length,
}

run_length-le : (p : ℕ → Bool) (text : Text) → run_length p text ≤ length text
unfolding run_length
run_length-le p [] = omega arith
run_length-le p (c ∷ rest) = ground (arith, run_length-le p rest)

starts_with-le : (part text : Text) → starts_with part text ≡ true → length part ≤ length text
unfolding starts_with
starts_with-le [] text h = omega arith
starts_with-le (x ∷ part) [] h = cc
starts_with-le (x ∷ part) (y ∷ text) h = ground (arith, starts_with-le part text)

token_length-le :
    (token : Token) (text : Text) {n : ℕ} → token_length token text ≡ some n → n ≤ length text
unfolding token_length
token_length-le (lit t) text h = ground (arith, starts_with-le t text)
token_length-le spaces text h = ground (arith, run_length-le is_space text)
token_length-le (until c) text h = ground (arith, run_length-le (λ d. not (d == c)) text)
token_length-le ident [] h = cc
token_length-le ident (c ∷ rest) h = ground (arith, run_length-le is_ident rest)

-- The tokens, with one character more to be found behind them.
abbrev pub followed_by : List Token → ℕ → List Token
followed_by [] c = lit (c ∷ []) ∷ []
followed_by (token ∷ tokens) c = token ∷ followed_by tokens c

-- A match is a prefix of the text that ends with that character.
pub record EndsWith (c : ℕ) (text : Text) (n : ℕ) : Type 0 where
  pub before : Text
  pub after : Text
  pub splits : text ≡ before ++ (c ∷ after)
  pub measures : n ≡ length before + 1

EndsWith-here :
    (c : ℕ) (text : Text) {n : ℕ}
    → match_length (lit (c ∷ []) ∷ []) text ≡ some n
    → EndsWith c text n
unfolding match_length
EndsWith-here c [] h = cc
EndsWith-here c (d ∷ rest) h = elim (Bool-cases (c == d)) [
  | inl same ↦ record {
    before = [];
    after = rest;
    splits = ap (λ e. e ∷ rest) (sym ((==_iff c d).0 same));
    measures = ground arith;
  }
  | inr other ↦ absurd (ground arith)
]

EndsWith-behind :
    (c : ℕ) (text : Text) (k m : ℕ)
    → k ≤ length text
    → EndsWith c (drop k text) m
    → EndsWith c text (k + m)
EndsWith-behind c text k m h e = record {
  before = take k text ++ e.before;
  after = e.after;
  splits =
      sym (take-append-drop k text)
      ∙ ap (λ t. take k text ++ t) e.splits
      ∙ sym (append_assoc (take k text) e.before (c ∷ e.after));
  measures = omega (arith, e.measures, length-append (take k text) e.before, length-take k text);
}

match_length-cons :
    (token : Token) (tokens : List Token) (text : Text) {n : ℕ}
    → match_length (token ∷ tokens) text ≡ some n
    → (k m : ℕ) × (token_length token text ≡ some k)
      × (match_length tokens (drop k text) ≡ some m)
      × (k + m ≡ n)
unfolding match_length
match_length-cons token tokens text h = elim (Option-cases (token_length token text)) [
  | inl e ↦ absurd (ground arith)
  | inr (k, e) ↦ elim (Option-cases (match_length tokens (drop k text))) [
    | inl r ↦ absurd (ground arith)
    | inr (m, r) ↦ (k, m, e, r, ground arith)
  ]
]

pub match_length-EndsWith :
    (tokens : List Token) (c : ℕ) (text : Text) {n : ℕ}
    → match_length (followed_by tokens c) text ≡ some n
    → EndsWith c text n
match_length-EndsWith [] c text h = EndsWith-here c text h
match_length-EndsWith (token ∷ tokens) c text {n} h =
    let (k, m, t, r, e) = match_length-cons token (followed_by tokens c) text h in
    subst (EndsWith c text) e (
      EndsWith-behind c text k m (token_length-le token text t)
        (match_length-EndsWith tokens c (drop k text) r))
