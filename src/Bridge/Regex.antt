-- ===== src/Bridge/Regex.antt =====
-- The search for a pattern against the language of the pattern.
use interspec_typed_allocato.Prelude.{
  ℕ, suc, ◌≡◌, ◌<◌, refl, sym, ap, ◌∙◌, subst, Bool, true, false, not, ◌&&◌, inl, inr, none, some,
  List, [], ◌∷◌, ◌++◌, append_assoc, arith, Text, All, starts_with, is_space, run_length, length,
  take, drop, take-append-drop, ◌==◌, Bool-cases, Option-cases,
}
use mathlib.Core.Option.{none-ne-some}
use interspec_typed_allocato.Patch.Idempotent.{starts_with-splits}
use interspec_typed_allocato.Bridge.{Piece, exact, gap, blanks, Match, behind, shortest, match_at}

-- The texts of a pattern.
abbrev pub Language : List Piece → Text → Type 0
Language [] text = text ≡ []
Language (exact part ∷ pieces) text = (rest : Text) × (text ≡ part ++ rest) × Language pieces rest
Language (gap ∷ pieces) text =
    (skipped : Text) × (rest : Text) × (text ≡ skipped ++ rest) × Language pieces rest
Language (blanks ∷ pieces) text =
    (space : Text) × (rest : Text) × (text ≡ space ++ rest)
    × (0 < length space)
    × All (λ (c : ℕ). is_space c ≡ true) space
    × Language pieces rest

-- White space is followed by a character that is none.
unfoldable pub is_regular : List Piece → Bool
unfolding is_space
is_regular [] = true
is_regular (blanks ∷ exact (c ∷ part) ∷ pieces) = not (is_space c) && is_regular pieces
is_regular (blanks ∷ pieces) = false
is_regular (piece ∷ pieces) = is_regular pieces

behind-eq-some :
    (before : Text) (m : Match) {p : Text × Text}
    → behind before m ≡ some p
    → (q : Text × Text) × (m ≡ some q) × (p.0 ≡ before ++ q.0) × (p.1 ≡ q.1)
behind-eq-some before none h = cc
behind-eq-some before (some q) {p} h =
    let same_pair : (before ++ q.0, q.1) ≡ p =
      ap (λ (o : Match). elim o [ none ↦ (before ++ q.0, q.1) | some r ↦ r ]) h in
    (
      q,
      refl,
      ap (λ (r : Text × Text). r.0) (sym same_pair),
      ap (λ (r : Text × Text). r.1) (sym same_pair),
    )

-- A match stands at the begin of the text, and its text is as the pieces say.
abbrev pub Splits : (Text → Type 0) → Text → Text × Text → Type 0
Splits IsPart text p = (text ≡ p.0 ++ p.1) × IsPart p.0

behind-Splits :
    (IsPart Whole : Text → Type 0) (before text : Text) (m : Match) {p : Text × Text}
    → ((q : Text × Text) → m ≡ some q → Splits IsPart text q)
    → ((s : Text) → IsPart s → Whole (before ++ s))
    → behind before m ≡ some p
    → Splits Whole (before ++ text) p
behind-Splits IsPart Whole before text m {p} part whole h =
    let (q, e, s, r) = behind-eq-some before m h in
    let (split, is_part) = part q e in
    (
      ap (λ t. before ++ t) split
          ∙ sym (append_assoc before q.0 q.1)
          ∙ ap (λ t. t ++ q.1) (sym s)
          ∙ ap (λ t. p.0 ++ t) (sym r),
      subst Whole (sym s) (whole q.0 is_part),
    )

abbrev Skipped : (Text → Type 0) → Text → Type 0
Skipped IsPart text = (skipped : Text) × (rest : Text) × (text ≡ skipped ++ rest) × IsPart rest

shortest-Splits :
    (IsPart : Text → Type 0) (further : Text → Match)
    → ((text : Text) (q : Text × Text) → further text ≡ some q → Splits IsPart text q)
    → (text : Text) {p : Text × Text} → shortest further text ≡ some p
    → Splits (Skipped IsPart) text p
shortest-Splits IsPart further part [] {p} h =
    let (split, is_part) = part [] p h in (split, ([], p.0, refl, is_part))
shortest-Splits IsPart further part (c ∷ text) {p} h =
    let later : Match = behind (c ∷ []) (shortest further text) in
    elim (Option-cases (further (c ∷ text))) [
      | inr (q, e) ↦
          let same_pair : q ≡ p =
            ap (λ (o : Match). elim o [ none ↦ q | some r ↦ r ])
              (sym (ap (λ (o : Match). elim o [ none ↦ later | some r ↦ some r ]) e) ∙ h) in
          let (split, is_part) = part (c ∷ text) p (e ∙ ap some same_pair) in
          (split, ([], p.0, refl, is_part))
      | inl n ↦
          behind-Splits (Skipped IsPart) (Skipped IsPart) (c ∷ []) text (shortest further text)
            (λ q e. shortest-Splits IsPart further part text e)
            (λ s k. let (skipped, rest, e, r) = k in (c ∷ skipped, rest, ap (◌∷◌ c) e, r))
            (sym (ap (λ (o : Match). elim o [ none ↦ later | some r ↦ some r ]) n) ∙ h)
    ]

-- The run of white space at the begin of a text.
take_run :
    (text : Text)
    → (length (take (run_length is_space text) text) ≡ run_length is_space text)
      × All (λ (c : ℕ). is_space c ≡ true) (take (run_length is_space text) text)
unfolding run_length
take_run [] = (refl, tt)
take_run (c ∷ text) = elim (Bool-cases (is_space c)) [
  | inl y ↦ rw (y, run_length) (ap suc (take_run text).0, (y, (take_run text).1))
  | inr n ↦ rw (n, run_length) (refl, tt)
]

pub match_at-Splits :
    (pieces : List Piece) (text : Text) {p : Text × Text}
    → match_at pieces text ≡ some p
    → Splits (Language pieces) text p
unfolding match_at
match_at-Splits [] text h =
    let same_pair = ap (λ (o : Match). elim o [ none ↦ ([], text) | some r ↦ r ]) h in
    (ap (λ (r : Text × Text). r.0 ++ r.1) same_pair, ap (λ (r : Text × Text). r.0) (sym same_pair))
match_at-Splits (exact part ∷ pieces) text {p} h = elim (Bool-cases (starts_with part text)) [
  | inr n ↦ absurd (none-ne-some p (rw (n, match_at) at h))
  | inl y ↦
      subst (λ t. Splits (Language (exact part ∷ pieces)) t p)
        (sym (starts_with-splits part text y))
        (behind-Splits (Language pieces) (Language (exact part ∷ pieces)) part
          (drop (length part) text) (match_at pieces (drop (length part) text))
          (λ q e. match_at-Splits pieces (drop (length part) text) e) (λ s k. (s, refl, k))
          (rw (y, match_at) at h))
]
match_at-Splits (gap ∷ pieces) text h =
    shortest-Splits (Language pieces) (match_at pieces) (λ t q e. match_at-Splits pieces t e) text h
match_at-Splits (blanks ∷ pieces) text {p} h =
    let n = run_length is_space text in
    elim (Bool-cases (n == 0)) [
      | inl y ↦ absurd (none-ne-some p (rw (y, match_at) at h))
      | inr m ↦
          let size : 0 < length (take n text) = ground (arith, (take_run text).0) in
          subst (λ t. Splits (Language (blanks ∷ pieces)) t p) (take-append-drop n text)
            (behind-Splits (Language pieces) (Language (blanks ∷ pieces)) (take n text)
              (drop n text) (match_at pieces (drop n text))
              (λ q e. match_at-Splits pieces (drop n text) e)
              (λ s k. (take n text, s, refl, size, (take_run text).1, k)) (rw (m, match_at) at h))
    ]
