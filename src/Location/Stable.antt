-- ===== src/Location/Stable.antt =====
-- An edit of a text does not move the places in front of it.
use interspec_typed_allocato.Prelude.{
  ℕ, zero, suc, ◌+◌, ◌≤◌, ◌<◌, ◌≡◌, ◌⊎◌, refl, sym, ap, ◌∙◌, subst, true, false, not, ◌&&◌, inl,
  inr, List, [], ◌∷◌, ◌++◌, arith, Text, length, length-append, ◌==◌, Bool-cases,
}
use interspec_typed_allocato.Names.{cons_first}
use interspec_typed_allocato.Location.{is_break, head_is, splitlines, visible}
use interspec_typed_allocato.Location.Shows.{
  Shows, base, ends, splitlines-ends, splitlines-continues, base-cons_first, visible-cons,
}

-- Neither a line feed nor a carriage return.
abbrev IsPlain : ℕ → Type 0
IsPlain c = ((c == b'\n') ≡ false) × ((c == b'\r') ≡ false)

-- The lines of a text by its first character.
-- The next character decides the same, where there is one.
ends-append : (c : ℕ) (p x y : Text) → 0 < length p → ends c (p ++ x) ≡ ends c (p ++ y)
ends-append c [] x y h = absurd (omega arith)
ends-append c (d ∷ p) x y h = refl

-- A text of one line break shows nothing.
line_feed-hidden :
    (c column extra : ℕ) (rest : Text)
    → (c == b'\n') ≡ true
    → Shows (splitlines (c ∷ rest)) 0 column extra
    → column < extra
unfolding is_break
line_feed-hidden c column extra rest y h =
    let e : ends c rest ≡ true = ground arith in
    let s = subst (λ lines. Shows lines 0 column extra) (splitlines-ends c rest e) h in ground arith

return-hidden :
    (c column extra : ℕ) (rest : Text)
    → (c == b'\r') ≡ true
    → Shows (splitlines (c ∷ rest)) 0 column extra
    → column < extra
unfolding is_break
return-hidden c column extra [] y h =
    let e : ends c [] ≡ true = ground arith in
    let s = subst (λ lines. Shows lines 0 column extra) (splitlines-ends c [] e) h in ground arith
return-hidden c column extra (d ∷ rest) y h = elim (Bool-cases (d == b'\n')) [
  | inr n ↦
      let e : ends c (d ∷ rest) ≡ true = ground arith in
      let s = subst (λ lines. Shows lines 0 column extra) (splitlines-ends c (d ∷ rest) e) h in
      ground arith
  | inl n ↦
      let f : ends c (d ∷ rest) ≡ false = ground arith in
      let e : ends d rest ≡ true = ground arith in
      let s =
        subst (λ lines. Shows lines 0 column extra)
          (splitlines-continues c (d ∷ rest) f ∙ ap (cons_first c) (splitlines-ends d rest e)) h in
      ground arith
]

shown-IsPlain :
    (c column extra : ℕ) (rest : Text)
    → Shows (splitlines (c ∷ rest)) 0 column extra
    → extra ≤ column
    → IsPlain c
shown-IsPlain c column extra rest h l = (
  elim (Bool-cases (c == b'\n')) [
    | inr n ↦ n
    | inl y ↦ absurd (omega (arith, line_feed-hidden c column extra rest y h))
  ],
  elim (Bool-cases (c == b'\r')) [
    | inr n ↦ n
    | inl y ↦ absurd (omega (arith, return-hidden c column extra rest y h))
  ],
)

-- The first line, without the first character.
abbrev first_line : List Text → Text
first_line [] = []
first_line (text ∷ lines) = text

cons_first-Shows :
    (c column extra : ℕ) (lines : List Text)
    → column < length (visible (c ∷ first_line lines)) + extra
    → Shows (cons_first c lines) 0 column extra
cons_first-Shows c column extra [] h = h
cons_first-Shows c column extra (text ∷ lines) h = h

Shows-cons_first :
    (c column extra : ℕ) (lines : List Text)
    → Shows (cons_first c lines) 0 column extra
    → column < length (visible (c ∷ first_line lines)) + extra
Shows-cons_first c column extra [] h = h
Shows-cons_first c column extra (text ∷ lines) h = h

-- The first column, where it is plain or an end is asked for.
first-Shows :
    (c extra : ℕ) (rest : Text) → IsPlain c ⊎ (0 < extra) → Shows (splitlines (c ∷ rest)) 0 0 extra
first-Shows c extra rest h =
    let shown : (text : Text) → 0 < length (visible (c ∷ text)) + extra = λ text. elim h [
      | inl (n, r) ↦ omega (arith, ap length (visible-cons c text n r))
      | inr l ↦ omega arith
    ] in
    elim (Bool-cases (ends c rest)) [
      | inl e ↦ subst (λ lines. Shows lines 0 0 extra) (sym (splitlines-ends c rest e)) (shown [])
      | inr n ↦
          subst (λ lines. Shows lines 0 0 extra) (sym (splitlines-continues c rest n))
            (cons_first-Shows c 0 extra (splitlines rest) (shown (first_line (splitlines rest))))
    ]

first_line-Shows :
    (column extra : ℕ) (text : Text)
    → 0 < length text
    → column < length (visible (first_line (splitlines text))) + extra
    → Shows (splitlines text) 0 column extra
first_line-Shows column extra [] l h = absurd (omega arith)
first_line-Shows column extra (c ∷ rest) l h = elim (Bool-cases (ends c rest)) [
  | inl e ↦
      let lines = splitlines-ends c rest e in
      subst (λ lines. Shows lines 0 column extra) (sym lines)
        (subst (λ lines. column < length (visible (first_line lines)) + extra) lines h)
  | inr n ↦
      let lines = splitlines-continues c rest n in
      subst (λ lines. Shows lines 0 column extra) (sym lines)
        (first_of (splitlines rest)
          (subst (λ lines. column < length (visible (first_line lines)) + extra) lines h))
]
  where
    first_of :
        (lines : List Text)
        → column < length (visible (first_line (cons_first c lines))) + extra
        → Shows (cons_first c lines) 0 column extra
    first_of [] k = k
    first_of (text ∷ lines) k = k

Shows-first_line :
    (column extra : ℕ) (lines : List Text)
    → Shows lines 0 column extra
    → column < length (visible (first_line lines)) + extra
Shows-first_line column extra [] h = absurd h
Shows-first_line column extra (text ∷ lines) h = h

-- The later lines are the same without the first character.
Shows-later :
    (c line column extra : ℕ) (lines : List Text)
    → Shows (cons_first c lines) (suc line) column extra
    → Shows lines (suc line) column extra
Shows-later c line column extra [] h = h
Shows-later c line column extra (text ∷ lines) h = h

later-Shows :
    (c line column extra : ℕ) (lines : List Text)
    → Shows lines (suc line) column extra
    → Shows (cons_first c lines) (suc line) column extra
later-Shows c line column extra [] h = absurd h
later-Shows c line column extra (text ∷ lines) h = h

-- The same place in two texts.
abbrev Kept : Text → Text → ℕ → ℕ → ℕ → Type 0
Kept source edited line column extra =
    Shows (splitlines edited) line column extra
    × (base (splitlines edited) line ≡ base (splitlines source) line)

-- The text `p` in front of an edit keeps each place that begins in it.
pub Shows-edit :
    (p x y : Text) (line column extra : ℕ)
    → extra ≤ 1
    → Shows (splitlines (p ++ x)) line column extra
    → base (splitlines (p ++ x)) line + column < length p
    → Kept (p ++ x) (p ++ y) line column extra
Shows-edit [] x y line column extra l s h = absurd (omega arith)
Shows-edit (c ∷ p) x y zero zero zero l s h =
    (first-Shows c 0 (p ++ y) (inl (shown-IsPlain c 0 0 (p ++ x) s (omega arith))), refl)
Shows-edit (c ∷ p) x y zero zero (suc extra) l s h =
    (first-Shows c (suc extra) (p ++ y) (inr (omega arith)), refl)
Shows-edit (c ∷ p) x y zero (suc column) extra l s h =
    let (n, r) = shown-IsPlain c (suc column) extra (p ++ x) s (omega arith) in
    let more : 0 < length p = omega arith in
    elim (Bool-cases (ends c (p ++ x))) [
      | inl e ↦
          let t =
            subst (λ lines. Shows lines 0 (suc column) extra) (splitlines-ends c (p ++ x) e) s in
          (
            subst (λ lines. Shows lines 0 (suc column) extra)
                (sym (splitlines-ends c (p ++ y) (sym (ends-append c p x y more) ∙ e))) t,
            refl,
          )
      | inr f ↦
          let t = Shows-cons_first c (suc column) extra (splitlines (p ++ x)) (
            subst (λ lines. Shows lines 0 (suc column) extra) (splitlines-continues c (p ++ x) f)
              s) in
          let u = rw (visible-cons c (first_line (splitlines (p ++ x))) n r) at t in
          let (kept, _) =
            Shows-edit p x y zero column extra l
              (first_line-Shows column extra (p ++ x) (omega (arith, length-append p x))
                (omega arith))
              (omega arith) in
          let v = Shows-first_line column extra (splitlines (p ++ y)) kept in
          (
            subst (λ lines. Shows lines 0 (suc column) extra)
                (sym (splitlines-continues c (p ++ y) (sym (ends-append c p x y more) ∙ f)))
                (cons_first-Shows c (suc column) extra (splitlines (p ++ y)) (
                  omega
                    (arith, ap length (visible-cons c (first_line (splitlines (p ++ y))) n r)))),
            refl,
          )
    ]
Shows-edit (c ∷ p) x y (suc line) column extra l s h = elim (Bool-cases (ends c (p ++ x))) [
  | inl e ↦
      let lines = splitlines-ends c (p ++ x) e in
      let begin = ap (λ ls. base ls (suc line)) lines in
      let lines' =
        splitlines-ends c (p ++ y) (sym (ends-append c p x y (omega (arith, begin))) ∙ e) in
      let (kept, same_base) =
        Shows-edit p x y line column extra l
          (subst (λ ls. Shows ls (suc line) column extra) lines s) (omega (arith, begin)) in
      (
        subst (λ ls. Shows ls (suc line) column extra) (sym lines') kept,
        ap (λ ls. base ls (suc line)) lines' ∙ ap suc same_base ∙ sym begin,
      )
  | inr f ↦
      let lines = splitlines-continues c (p ++ x) f in
      let begin =
        ap (λ ls. base ls (suc line)) lines ∙ base-cons_first c line (splitlines (p ++ x)) in
      let lines' =
        splitlines-continues c (p ++ y) (sym (ends-append c p x y (omega (arith, begin))) ∙ f) in
      let (kept, same_base) =
        Shows-edit p x y (suc line) column extra l
          (Shows-later c line column extra (splitlines (p ++ x))
            (subst (λ ls. Shows ls (suc line) column extra) lines s))
          (omega (arith, begin)) in
      (
        subst (λ ls. Shows ls (suc line) column extra) (sym lines')
            (later-Shows c line column extra (splitlines (p ++ y)) kept),
        ap (λ ls. base ls (suc line)) lines'
            ∙ base-cons_first c line (splitlines (p ++ y))
            ∙ ap suc same_base
            ∙ sym begin,
      )
]

-- A line that begins in front of an edit, or at it, begins there in both texts, where neither of the
-- texts behind it begins with a line feed.
pub base-edit :
    (p x y : Text) (line : ℕ)
    → 0 < length x
    → head_is b'\n' x ≡ false
    → head_is b'\n' y ≡ false
    → base (splitlines (p ++ x)) line ≤ length p
    → base (splitlines (p ++ y)) line ≡ base (splitlines (p ++ x)) line
base-edit p x y zero l h k b = refl
base-edit [] [] y (suc line) l h k b = absurd (omega arith)
base-edit [] (d ∷ x) y (suc line) l h k b = elim (Bool-cases (ends d x)) [
  | inl e ↦ absurd (omega (arith, ap (λ ls. base ls (suc line)) (splitlines-ends d x e)))
  | inr f ↦ absurd (
      omega (
        arith,
        ap (λ ls. base ls (suc line)) (splitlines-continues d x f),
        base-cons_first d line (splitlines x),
      ))
]
base-edit (c ∷ p) x y (suc line) l h k b =
    let same_ends : ends c (p ++ y) ≡ ends c (p ++ x) = same_next p in
    elim (Bool-cases (ends c (p ++ x))) [
      | inl e ↦
          let begin = ap (λ ls. base ls (suc line)) (splitlines-ends c (p ++ x) e) in
          ap (λ ls. base ls (suc line)) (splitlines-ends c (p ++ y) (same_ends ∙ e))
          ∙ ap suc (base-edit p x y line l h k (omega (arith, begin)))
          ∙ sym begin
      | inr f ↦
          let begin =
            ap (λ ls. base ls (suc line)) (splitlines-continues c (p ++ x) f)
            ∙ base-cons_first c line (splitlines (p ++ x)) in
          ap (λ ls. base ls (suc line)) (splitlines-continues c (p ++ y) (same_ends ∙ f))
          ∙ base-cons_first c line (splitlines (p ++ y))
          ∙ ap suc (base-edit p x y (suc line) l h k (omega (arith, begin)))
          ∙ sym begin
    ]
  where
    same_next : (q : Text) → ends c (q ++ y) ≡ ends c (q ++ x)
    same_next [] = ap (λ t. is_break c && not (c == b'\r' && t)) (k ∙ sym h)
    same_next (d ∷ q) = refl
