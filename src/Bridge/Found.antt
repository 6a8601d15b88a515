-- ===== src/Bridge/Found.antt =====
-- What the search for a pattern finds, and that it finds something where there is something.
use interspec_typed_allocato.Prelude.{
  ℕ, suc, ◌≡◌, ◌<◌, ◌⊎◌, refl, sym, ap, ap₂, ◌∙◌, subst, Bool, true, false, not, ◌&&◌, inl, inr,
  Option, none, some, List, [], ◌∷◌, ◌++◌, append_assoc, arith, Text, All, is_space, run_length,
  length, take, drop, take-length-append, drop-length-append, ◌==◌, Result, ok, err, no_pattern,
  Option-cases, if◌then◌else◌,
}
use mathlib.Core.Option.{none-ne-some}
use interspec_typed_allocato.Patch.Idempotent.{starts_with-append}
use interspec_typed_allocato.Bridge.{
  Piece, exact, gap, blanks, Match, behind, shortest, match_at, find_match, regex_once,
}
use interspec_typed_allocato.Bridge.Regex.{Language, is_regular, match_at-Splits}

-- A text that some later part of the text matches is found by trying.
some-shortest :
    (further : Text → Match) (skipped text : Text)
    → ((q : Text × Text) × (further text ≡ some q))
    → (q : Text × Text) × (shortest further (skipped ++ text) ≡ some q)
some-shortest further [] [] h = h
some-shortest further [] (c ∷ text) (q, e) = (q, rw e refl)
some-shortest further (c ∷ skipped) text h = elim (Option-cases (further (c ∷ (skipped ++ text)))) [
  | inr (q, e) ↦ (q, rw e refl)
  | inl n ↦ let (q, e) = some-shortest further skipped text h in ((c ∷ q.0, q.1), rw n (rw e refl))
]

run_length-append :
    (space : Text) (c : ℕ) (rest : Text)
    → All (λ (d : ℕ). is_space d ≡ true) space
    → is_space c ≡ false
    → run_length is_space (space ++ (c ∷ rest)) ≡ length space
unfolding run_length
run_length-append [] c rest h n = rw n refl
run_length-append (d ∷ space) c rest (y, h) n = rw y (ap suc (run_length-append space c rest h n))

match_exact :
    (part : Text) (pieces : List Piece) (text : Text) {q : Text × Text}
    → match_at pieces text ≡ some q
    → match_at (exact part ∷ pieces) (part ++ text) ≡ some (part ++ q.0, q.1)
unfolding match_at
match_exact part pieces text e =
    rw (starts_with-append part text, match_at)
      (ap (λ t. behind part (match_at pieces t)) (drop-length-append part text)
        ∙ ap (behind part) e)

match_blanks :
    (space : Text) (c : ℕ) (pieces : List Piece) (text : Text) {q : Text × Text}
    → All (λ (d : ℕ). is_space d ≡ true) space
    → 0 < length space
    → is_space c ≡ false
    → match_at pieces (c ∷ text) ≡ some q
    → match_at (blanks ∷ pieces) (space ++ (c ∷ text)) ≡ some (space ++ q.0, q.1)
unfolding match_at
match_blanks space c pieces text {q} spaces size n e =
    let run = run_length-append space c text spaces n in
    ap (by_run) run
    ∙ rw (not_empty) (
        ap₂ (λ s t. behind s (match_at pieces t)) (take-length-append space (c ∷ text))
          (drop-length-append space (c ∷ text))
        ∙ ap (behind space) e)
  where
    by_run : ℕ → Match
    by_run n =
        if n == 0
        then none
        else behind (take n (space ++ (c ∷ text))) (match_at pieces (drop n (space ++ (c ∷ text))))

    not_empty : (length space == 0) ≡ false
    not_empty = ground arith

not_and : (a b : Bool) → (not a && b) ≡ true → (a ≡ false) × (b ≡ true)
not_and false b h = (refl, h)
not_and true b h = cc

-- A part that the pattern describes is matched, or a shorter or longer one at the same place.
match_at_complete :
    (pieces : List Piece) (text after : Text)
    → is_regular pieces ≡ true
    → Language pieces text
    → (q : Text × Text) × (match_at pieces (text ++ after) ≡ some q)
unfolding match_at is_regular
match_at_complete [] text after g h = (([], text ++ after), refl)
match_at_complete (exact part ∷ pieces) text after g (rest, e, k) =
    let (q, found) = match_at_complete pieces rest after g k in
    (
      (part ++ q.0, q.1),
      ap (λ t. match_at (exact part ∷ pieces) (t ++ after)) e
          ∙ ap (match_at (exact part ∷ pieces)) (append_assoc part rest after)
          ∙ match_exact part pieces (rest ++ after) found,
    )
match_at_complete (gap ∷ pieces) text after g (skipped, rest, e, k) =
    let (q, found) =
      some-shortest (match_at pieces) skipped (rest ++ after)
        (match_at_complete pieces rest after g k) in
    (
      q,
      ap (λ t. shortest (match_at pieces) (t ++ after)) e
          ∙ ap (shortest (match_at pieces)) (append_assoc skipped rest after)
          ∙ found,
    )
match_at_complete (blanks ∷ exact (c ∷ part) ∷ pieces) text after g
      (space, rest, e, size, spaces, (more, e', k)) =
    let further = exact (c ∷ part) ∷ pieces in
    let (n, g') = not_and (is_space c) (is_regular pieces) g in
    let (q, found) = match_at_complete pieces more after g' k in
    let here = match_exact (c ∷ part) pieces (more ++ after) found in
    (
      (space ++ ((c ∷ part) ++ q.0), q.1),
      ap (match_at (blanks ∷ further)) (
            ap (λ t. t ++ after) e
            ∙ append_assoc space rest after
            ∙ ap (λ t. space ++ (t ++ after)) e'
            ∙ ap (λ t. space ++ t) (append_assoc (c ∷ part) more after))
          ∙ match_blanks space c further (part ++ (more ++ after)) spaces size n here,
    )
match_at_complete (blanks ∷ []) text after g h = cc
match_at_complete (blanks ∷ exact [] ∷ pieces) text after g h = cc
match_at_complete (blanks ∷ gap ∷ pieces) text after g h = cc
match_at_complete (blanks ∷ blanks ∷ pieces) text after g h = cc

-- A part of the text is in the language of the pattern.
abbrev pub IsIn : List Piece → Text → Type 0
IsIn pieces text =
    (before : Text) × (found : Text) × (after : Text) × (text ≡ before ++ (found ++ after))
    × Language pieces found

abbrev Found : List Piece → Text → Text × Text × Text → Type 0
Found pieces text m = (text ≡ m.0 ++ (m.1 ++ m.2)) × Language pieces m.1

triple_injective : {m n : Text × Text × Text} → some m ≡ some n → m ≡ n
triple_injective {m} h =
    ap (λ (o : Option (Text × Text × Text)). elim o [ none ↦ m | some r ↦ r ]) h

-- What the search finds is in the language.
find_match-Found :
    (pieces : List Piece) (text : Text) {m : Text × Text × Text}
    → find_match pieces text ≡ some m
    → Found pieces text m
unfolding find_match
find_match-Found pieces [] {m} h = elim (Option-cases (match_at pieces [])) [
  | inl n ↦ absurd (none-ne-some m (rw (n, find_match) at h))
  | inr (q, e) ↦
      subst (Found pieces []) (triple_injective (rw (e, find_match) at h))
        (match_at-Splits pieces [] e)
]
find_match-Found pieces (c ∷ text) {m} h = elim (Option-cases (match_at pieces (c ∷ text))) [
  | inr (q, e) ↦
      subst (Found pieces (c ∷ text)) (triple_injective (rw (e, find_match) at h))
        (match_at-Splits pieces (c ∷ text) e)
  | inl n ↦ elim (Option-cases (find_match pieces text)) [
    | inl n' ↦ absurd (none-ne-some m (rw (n, n', find_match) at h))
    | inr (o, e) ↦
        let (split, language) = find_match-Found pieces text e in
        subst (Found pieces (c ∷ text)) (triple_injective (rw (n, e, find_match) at h))
          (ap (◌∷◌ c) split, language)
  ]
]

IsIn-find_match :
    (pieces : List Piece) (before found after : Text)
    → is_regular pieces ≡ true
    → Language pieces found
    → (m : Text × Text × Text) × (find_match pieces (before ++ (found ++ after)) ≡ some m)
unfolding find_match
IsIn-find_match pieces [] found after g k =
    let (q, e) = match_at_complete pieces found after g k in begins (found ++ after) e
  where
    begins :
        (text : Text) {q : Text × Text}
        → match_at pieces text ≡ some q
        → (m : Text × Text × Text) × (find_match pieces text ≡ some m)
    begins [] {q} e = (([], q.0, q.1), rw (e, find_match) refl)
    begins (c ∷ text) {q} e = (([], q.0, q.1), rw (e, find_match) refl)
IsIn-find_match pieces (c ∷ before) found after g k =
    elim (Option-cases (match_at pieces (c ∷ (before ++ (found ++ after))))) [
      | inr (q, e) ↦ (([], q.0, q.1), rw (e, find_match) refl)
      | inl n ↦
          let (m, e) = IsIn-find_match pieces before found after g k in
          ((c ∷ m.0, m.1, m.2), rw (n, e, find_match) refl)
    ]

-- One part of the language is replaced, and the text in front of it and behind it is as it was.
abbrev pub Replaces : List Piece → Text → Text → Text → Type 0
Replaces pieces new text result =
    (before : Text) × (found : Text) × (after : Text) × (text ≡ before ++ (found ++ after))
    × Language pieces found
    × (result ≡ before ++ (new ++ after))

text_injective : {s t : Text} → ok s ≡ ok t → s ≡ t
text_injective {s} h = ap (λ (r : Result Text). elim r [ ok a ↦ a | err _ ↦ s ]) h

pub regex_once-Replaces :
    (text new : Text) (pieces : List Piece) {result : Text}
    → regex_once text pieces new ≡ ok result
    → Replaces pieces new text result
unfolding regex_once
regex_once-Replaces text new pieces {result} h = elim (Option-cases (find_match pieces text)) [
  | inl n ↦ absurd (refused (rw (n, regex_once) at h))
  | inr (m, e) ↦
      let (split, language) = find_match-Found pieces text e in
      (m.0, m.1, m.2, split, language, sym (text_injective (rw (e, regex_once) at h)))
]
  where
    refused : err no_pattern ≡ ok result → ⊥
    refused h = cc

-- A pattern whose white space is always followed by a text that begins with another character is
-- replaced where some part of the text is in its language: such a part is replaced, and the text in
-- front of it and behind it is as it was. Where no part of the text is in its language the search is
-- refused.
pub regex_once-Replaces_or_refuses :
    (text new : Text) (pieces : List Piece)
    → is_regular pieces ≡ true
    → (IsIn pieces text
        × (result : Text) × (regex_once text pieces new ≡ ok result)
        × Replaces pieces new text result)
      ⊎ ((¬ IsIn pieces text) × (regex_once text pieces new ≡ err no_pattern))
unfolding regex_once
regex_once-Replaces_or_refuses text new pieces g = elim (Option-cases (find_match pieces text)) [
  | inr (m, e) ↦
      let done : regex_once text pieces new ≡ ok (m.0 ++ (new ++ m.2)) = rw (e, regex_once) refl in
      let (split, language) = find_match-Found pieces text e in
      inl (
        (m.0, m.1, m.2, split, language),
        m.0 ++ (new ++ m.2),
        done,
        regex_once-Replaces text new pieces done,
      )
  | inl n ↦ inr (not_in n, rw (n, regex_once) refl)
]
  where
    not_in : find_match pieces text ≡ none → ¬ IsIn pieces text
    not_in n (before, found, after, split, language) =
        let (m, e) = IsIn-find_match pieces before found after g language in
        none-ne-some m (sym n ∙ ap (find_match pieces) split ∙ e)
