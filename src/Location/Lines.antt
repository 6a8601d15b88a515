-- ===== src/Location/Lines.antt =====
-- Lines put together again give the source, and an offset lies in the line that it was asked for.
use interspec_typed_allocato.Prelude.{
  ℕ, zero, suc, ◌+◌, ◌≤◌, ◌<◌, ◌≡◌, refl, sym, ap, ◌∙◌, Bool, not, ◌&&◌, inl, inr, some, List, [],
  ◌∷◌, ◌++◌, append_assoc, arith, Text, length, length-append, take, drop, concat, ltb, ◌==◌,
  if◌then◌else◌, Bool-cases, not_one_based, line_out_of_range, column_out_of_range, ok, from_option,
  >>=-eq-ok, refuse-eq-ok, from_option-eq-ok,
}
use interspec_typed_allocato.Prelude.Integers.{ℤ, pos, negsuc, one_based}
use interspec_typed_allocato.Names.{cons_first}
use interspec_typed_allocato.Location.{
  is_break, head_is, splitlines, drop_last, visible, get_elem?, offset_at, source_offset,
}

concat-cons_first : (c : ℕ) (lines : List Text) → concat (cons_first c lines) ≡ c ∷ concat lines
concat-cons_first c [] = refl
concat-cons_first c (line ∷ lines) = refl

-- The lines of a text, put together, are the text.
concat-splitlines : (source : Text) → concat (splitlines source) ≡ source
unfolding splitlines
concat-splitlines [] = refl
concat-splitlines (c ∷ rest) =
    elim (Bool-cases (is_break c && not (c == b'\r' && head_is b'\n' rest))) [
      | inl ends ↦ rw (ends, splitlines) (ap (◌∷◌ c) (concat-splitlines rest))
      | inr more ↦
          rw (more, splitlines)
            (concat-cons_first c (splitlines rest) ∙ ap (◌∷◌ c) (concat-splitlines rest))
    ]

get_elem?-splits :
    (n : ℕ) (lines : List Text) {line : Text}
    → get_elem? lines n ≡ some line
    → (lines ≡ take n lines ++ (line ∷ drop (suc n) lines)) × (length (take n lines) ≡ n)
get_elem?-splits n [] h = cc
get_elem?-splits zero (x ∷ lines) h = (ground arith, refl)
get_elem?-splits (suc n) (x ∷ lines) h =
    let (s, l) = get_elem?-splits n lines h in (ap (◌∷◌ x) s, ap suc l)

concat-append : (xs ys : List Text) → concat (xs ++ ys) ≡ concat xs ++ concat ys
concat-append [] ys = refl
concat-append (x ∷ xs) ys = ap (◌++◌ x) (concat-append xs ys) ∙ sym (append_assoc x _ _)

drop_last-le : (c : ℕ) (text : Text) → length (drop_last c text) ≤ length text
drop_last-le c [] = omega arith
drop_last-le c (d ∷ []) = ground arith
drop_last-le c (d ∷ e ∷ rest) = omega (arith, drop_last-le c (e ∷ rest))

-- A line of the source, the text before it and behind it, and an offset in it: of the column
-- counted from 0, or of the place behind that column.
pub record IsAt (source : Text) (line column : ℕ) (end : Bool) (offset : ℕ) : Type 0 where
  pub before : List Text
  pub text : Text
  pub after : List Text
  pub lines_are : splitlines source ≡ before ++ (text ∷ after)
  pub source_is : source ≡ concat before ++ (text ++ concat after)
  pub line_is : length before ≡ line
  pub column_lt : column < length (visible text) + (if end then 1 else 0)
  pub offset_is : offset ≡ length (concat before) + column + (if end then 1 else 0)

pub offset_at-IsAt :
    (source : Text) (line column : ℕ) (end : Bool) {offset : ℕ}
    → offset_at source line column end ≡ ok offset
    → IsAt source line column end offset
unfolding offset_at
offset_at-IsAt source line column end h =
    let lines = splitlines source in
    let (text, e, h₁) = >>=-eq-ok (from_option line_out_of_range (get_elem? lines line)) _ h in
    let (t, h₂) =
      refuse-eq-ok (ltb (length (visible text) + (if end then 1 else 0)) (suc column))
        column_out_of_range _ h₁ in
    let (s, l) = get_elem?-splits line lines (from_option-eq-ok line_out_of_range _ e) in
    record {
      before = take line lines;
      text = text;
      after = drop (suc line) lines;
      lines_are = s;
      source_is = sym (concat-splitlines source) ∙ ap concat s ∙ concat-append (take line lines) _;
      line_is = l;
      column_lt = ground arith;
      offset_is = ground arith;
    }

IsAt-lt :
    (source : Text) (line column : ℕ) (end : Bool) {offset : ℕ}
    → IsAt source line column end offset
    → offset < length source + (if end then 2 else 0)
IsAt-lt source line column end i =
    let total =
      ap length i.source_is ∙ length-append (concat i.before) (i.text ++ concat i.after) in
    ground (
      arith,
      total,
      length-append i.text (concat i.after),
      drop_last-le b'\n' i.text,
      drop_last-le b'\r' (drop_last b'\n' i.text),
      i.column_lt,
      i.offset_is,
    )

pub one_based-eq-some : (z : ℤ) {n : ℕ} → one_based z ≡ some n → z ≡ pos (suc n)
one_based-eq-some (pos zero) h = cc
one_based-eq-some (pos (suc m)) h = ground arith
one_based-eq-some (negsuc m) h = cc

-- Where a line and a column, both counted from 1, have an offset, it stands in that line of the
-- source at a visible column, or for an end at most one place behind the visible text. So an offset
-- of a start lies within the source, and one of an end at most one place behind it.
pub source_offset-IsAt :
    (source : Text) (line column : ℤ) (end : Bool) {offset : ℕ}
    → source_offset source line column end ≡ ok offset
    → (l c : ℕ) × (line ≡ pos (suc l))
      × (column ≡ pos (suc c))
      × IsAt source l c end offset
      × (offset < length source + (if end then 2 else 0))
unfolding source_offset
source_offset-IsAt source line column end h =
    let (l, e, h₁) = >>=-eq-ok (from_option not_one_based (one_based line)) _ h in
    let (c, e', h₂) =
      >>=-eq-ok (from_option not_one_based (one_based column)) (λ c. offset_at source l c end) h₁ in
    let i = offset_at-IsAt source l c end h₂ in
    (
      l,
      c,
      one_based-eq-some line (from_option-eq-ok not_one_based _ e),
      one_based-eq-some column (from_option-eq-ok not_one_based _ e'),
      i,
      IsAt-lt source l c end i,
    )
