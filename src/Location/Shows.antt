-- ===== src/Location/Shows.antt =====
-- The lines of a text by recursion: which columns they show, and where they begin.
use interspec_typed_allocato.Prelude.{
  ℕ, zero, suc, ◌+◌, ◌≤◌, ◌<◌, ◌≡◌, refl, ap, ◌∙◌, Bool, true, false, not, ◌&&◌, some, List, [],
  ◌∷◌, arith, Text, length, length-append, take, concat, ltb, ◌==◌, if◌then◌else◌,
  line_out_of_range, column_out_of_range, ok, from_option, >>=-eq-ok, refuse-eq-ok,
  from_option-eq-ok,
}
use interspec_typed_allocato.Names.{cons_first}
use interspec_typed_allocato.Location.{
  is_break, head_is, splitlines, drop_last, visible, get_elem?, offset_at,
}

-- The column stands in the visible part of the line, or `extra` places behind it at most.
abbrev pub Shows : List Text → ℕ → ℕ → ℕ → Type 0
Shows [] line column extra = ⊥
Shows (text ∷ lines) zero column extra = column < length (visible text) + extra
Shows (text ∷ lines) (suc line) column extra = Shows lines line column extra

-- Where a line begins.
abbrev pub base : List Text → ℕ → ℕ
base lines line = length (concat (take line lines))

-- A character ends its line.
abbrev pub ends : ℕ → Text → Bool
ends c rest = is_break c && not (c == b'\r' && head_is b'\n' rest)

pub splitlines-ends :
    (c : ℕ) (rest : Text) → ends c rest ≡ true → splitlines (c ∷ rest) ≡ (c ∷ []) ∷ splitlines rest
unfolding splitlines
splitlines-ends c rest h = rw (h, splitlines) refl

pub splitlines-continues :
    (c : ℕ) (rest : Text)
    → ends c rest ≡ false
    → splitlines (c ∷ rest) ≡ cons_first c (splitlines rest)
unfolding splitlines
splitlines-continues c rest h = rw (h, splitlines) refl

pub base-cons_first :
    (c line : ℕ) (lines : List Text)
    → base (cons_first c lines) (suc line) ≡ suc (base lines (suc line))
base-cons_first c zero [] = omega arith
base-cons_first c (suc line) [] = omega arith
base-cons_first c line (text ∷ lines) = omega arith

pub drop_last-cons :
    (d c : ℕ) (text : Text) → (c == d) ≡ false → drop_last d (c ∷ text) ≡ c ∷ drop_last d text
drop_last-cons d c [] h = rw h
drop_last-cons d c (e ∷ text) h = refl

-- A character that is neither a line feed nor a carriage return stays visible.
pub visible-cons :
    (c : ℕ) (text : Text)
    → (c == b'\n') ≡ false
    → (c == b'\r') ≡ false
    → visible (c ∷ text) ≡ c ∷ visible text
visible-cons c text h k =
    ap (drop_last b'\r') (drop_last-cons b'\n' c text h)
    ∙ drop_last-cons b'\r' c (drop_last b'\n' text) k

pub length-drop_last-le : (c : ℕ) (text : Text) → length (drop_last c text) ≤ length text
length-drop_last-le c [] = omega arith
length-drop_last-le c (d ∷ []) = ground arith
length-drop_last-le c (d ∷ e ∷ rest) = omega (arith, length-drop_last-le c (e ∷ rest))

-- A visible column of a line stands in front of every later line.
pub base_lt :
    (lines : List Text) (line later column : ℕ)
    → line < later
    → Shows lines line column 0
    → base lines line + column < base lines later
base_lt [] line later column h s = absurd s
base_lt (text ∷ lines) line zero column h s = absurd (omega arith)
base_lt (text ∷ lines) zero (suc later) column h s = omega (
  arith,
  length-append text (concat (take later lines)),
  length-drop_last-le b'\n' text,
  length-drop_last-le b'\r' (drop_last b'\n' text),
)
base_lt (text ∷ lines) (suc line) (suc later) column h s = omega (
  arith,
  base_lt lines line later column (omega arith) s,
  length-append text (concat (take line lines)),
  length-append text (concat (take later lines)),
)

get_elem?-Shows :
    (lines : List Text) (line column extra : ℕ) {text : Text}
    → get_elem? lines line ≡ some text
    → column < length (visible text) + extra
    → Shows lines line column extra
get_elem?-Shows [] line column extra e h = cc
get_elem?-Shows (t ∷ lines) zero column extra {text} e h =
    let same_text : t ≡ text = ground arith in
    omega (arith, ap (λ u. length (visible u)) same_text, h)
get_elem?-Shows (t ∷ lines) (suc line) column extra e h =
    get_elem?-Shows lines line column extra e h

Shows-get_elem? :
    (lines : List Text) (line column extra : ℕ)
    → Shows lines line column extra
    → (text : Text) × (get_elem? lines line ≡ some text) × (column < length (visible text) + extra)
Shows-get_elem? [] line column extra h = absurd h
Shows-get_elem? (t ∷ lines) zero column extra h = (t, refl, h)
Shows-get_elem? (t ∷ lines) (suc line) column extra h = Shows-get_elem? lines line column extra h

-- An offset is the begin of a line and a column that the line shows.
pub offset_at-Shows :
    (source : Text) (line column : ℕ) (end : Bool) {offset : ℕ}
    → offset_at source line column end ≡ ok offset
    → Shows (splitlines source) line column (if end then 1 else 0)
      × (offset ≡ base (splitlines source) line + column + (if end then 1 else 0))
unfolding offset_at
offset_at-Shows source line column end h =
    let lines = splitlines source in
    let extra : ℕ = if end then 1 else 0 in
    let (text, e, h₁) = >>=-eq-ok (from_option line_out_of_range (get_elem? lines line)) _ h in
    let (t, h₂) =
      refuse-eq-ok (ltb (length (visible text) + extra) (suc column)) column_out_of_range _ h₁ in
    (
      get_elem?-Shows lines line column extra (from_option-eq-ok line_out_of_range _ e)
          (ground arith),
      ground arith,
    )

pub Shows-offset_at :
    (source : Text) (line column : ℕ) (end : Bool)
    → Shows (splitlines source) line column (if end then 1 else 0)
    → offset_at source line column end
      ≡ ok (base (splitlines source) line + column + (if end then 1 else 0))
unfolding offset_at
Shows-offset_at source line column end h =
    let lines = splitlines source in
    let (text, e, l) = Shows-get_elem? lines line column (if end then 1 else 0) h in
    rw (e, offset_at) (ground (arith, l))
