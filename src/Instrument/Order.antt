-- ===== src/Instrument/Order.antt =====
-- Why the sites are rewritten from the last place to the first: an edit does not move the places in
-- front of it.
use interspec_typed_allocato.Prelude.{
  ℕ, zero, suc, ◌+◌, ◌≤◌, ◌<◌, ◌≡◌, ◌≢◌, refl, sym, ap, ◌∙◌, true, false, inl, inr, ◌⊎◌, [], ◌∷◌,
  ◌++◌, append_assoc, arith, Text, codes, length, length-append, length-take, length-drop, take,
  drop, take-append-drop, starts_with, ltb, Bool-cases, not_one_based, Result, ok, from_option,
  from_option-eq-ok, >>=-eq-ok,
}
use interspec_typed_allocato.Prelude.Integers.{ℤ, pos, pos_part, neg_part, one_based}
use interspec_typed_allocato.Policy.{Site}
use interspec_typed_allocato.Sites.{site_lt}
use interspec_typed_allocato.Location.{head_is, splitlines, offset_at, source_offset}
use interspec_typed_allocato.Location.Lines.{one_based-eq-some}
use interspec_typed_allocato.Location.Shows.{Shows, base, offset_at-Shows, Shows-offset_at}
use interspec_typed_allocato.Location.Stable.{Shows-edit}
use interspec_typed_allocato.Instrument.{splice}

-- The place of a site's start.
pub record IsPlace (site : Site) (line column : ℕ) : Type 0 where
  pub line_is : site.start_line ≡ pos (suc line)
  pub column_is : site.start_column ≡ pos (suc column)

abbrev pub start_of : Text → Site → Result ℕ
start_of source site = source_offset source site.start_line site.start_column false

pub start_of-Shows :
    (source : Text) (site : Site) {offset : ℕ}
    → start_of source site ≡ ok offset
    → (line column : ℕ) × IsPlace site line column
      × Shows (splitlines source) line column 0
      × (offset ≡ base (splitlines source) line + column)
unfolding source_offset
start_of-Shows source site h =
    let (l, e, h₁) = >>=-eq-ok (from_option not_one_based (one_based site.start_line)) _ h in
    let (c, e', h₂) =
      >>=-eq-ok (from_option not_one_based (one_based site.start_column))
        (λ c. offset_at source l c false) h₁ in
    let (s, o) = offset_at-Shows source l c false h₂ in
    (
      l,
      c,
      record {
        line_is = one_based-eq-some site.start_line (from_option-eq-ok not_one_based _ e);
        column_is = one_based-eq-some site.start_column (from_option-eq-ok not_one_based _ e');
      },
      s,
      omega (arith, o),
    )

Shows-start_of :
    (source : Text) (site : Site) (line column : ℕ)
    → IsPlace site line column
    → Shows (splitlines source) line column 0
    → start_of source site ≡ ok (base (splitlines source) line + column)
unfolding source_offset
Shows-start_of source site line column p s =
    ap (λ z. source_offset source z site.start_column false) p.line_is
    ∙ ap (λ z. source_offset source (pos (suc line)) z false) p.column_is
    ∙ Shows-offset_at source line column false s
    ∙ ap (λ (n : ℕ). ok n) (omega arith)

parts :
    (y z : ℤ) {m n : ℕ}
    → y ≡ pos m
    → z ≡ pos n
    → ((pos_part y ≡ m) × (neg_part y ≡ 0)) × ((pos_part z ≡ n) × (neg_part z ≡ 0))
parts y z h k = ((ap pos_part h, ap neg_part h), (ap pos_part k, ap neg_part k))

-- The first of two places is not behind the second.
pub place_le :
    (a b : Site) (line column line' column' : ℕ)
    → IsPlace a line column
    → IsPlace b line' column'
    → site_lt b a ≡ false
    → (line < line') ⊎ ((line ≡ line') × (column ≤ column'))
unfolding site_lt
place_le a b line column line' column' p q h =
    let (l, l') = parts a.start_line b.start_line p.line_is q.line_is in
    let (c, c') = parts a.start_column b.start_column p.column_is q.column_is in
    elim (Bool-cases (ltb line line')) [
      | inl t ↦ inl (ground arith)
      | inr f ↦ inr (ground arith, ground arith)
    ]

take-append-le : (n : ℕ) (p x : Text) → n ≤ length p → take n (p ++ x) ≡ take n p
take-append-le zero p x h = refl
take-append-le (suc n) [] x h = absurd (omega arith)
take-append-le (suc n) (c ∷ p) x h = ap (◌∷◌ c) (take-append-le n p x (omega arith))

drop-append-le : (n : ℕ) (p x : Text) → n ≤ length p → drop n (p ++ x) ≡ drop n p ++ x
drop-append-le zero p x h = refl
drop-append-le (suc n) [] x h = absurd (omega arith)
drop-append-le (suc n) (c ∷ p) x h = drop-append-le n p x (omega arith)

-- Two texts with the same characters in front of an edit, at the place of the site that was edited
-- last. Behind them the one has the call, the other its replacement.
pub record Edited (origin current : Text) (site : Site) : Type 0 where
  pub front : Text
  pub call : Text
  pub replacement : Text
  pub origin_is : origin ≡ front ++ call
  pub current_is : current ≡ front ++ replacement
  pub call_positive : 0 < length call
  pub call_head : head_is b'\n' call ≡ false
  pub replacement_head : head_is b'(' replacement ≡ true
  pub line : ℕ
  pub column : ℕ
  pub place : IsPlace site line column
  pub place_is : base (splitlines origin) line + column ≡ length front

-- What an edit at a site in front of the earlier ones finds and leaves.
pub record Moved (origin current : Text) (site : Site) (start end : ℕ) (replacement : Text)
    : Type 0 where
  pub at_origin : start_of origin site ≡ ok start
  pub front_is : take start current ≡ take start origin
  pub edited : Edited origin (splice current start end replacement) site
  pub front_length : length edited.front ≡ start

pub named_head :
    (text : Text)
    → starts_with (codes "malloc") text ≡ true
    → (head_is b'm' text ≡ true) × (0 < length text)
unfolding starts_with
named_head [] h = cc
named_head (c ∷ text) h = (ground arith, omega arith)

head-append : (c : ℕ) (s t : Text) → 0 < length s → head_is c (s ++ t) ≡ head_is c s
head-append c [] t h = absurd (omega arith)
head-append c (d ∷ s) t h = refl

pub head_ne : (c d : ℕ) (text : Text) → c ≢ d → head_is c text ≡ true → head_is d text ≡ false
head_ne c d [] n h = refl
head_ne c d (e ∷ text) n h = ground arith

-- A call in the common part of the two texts.
pub edit-Moved :
    (front x y : Text) (site : Site) (start end : ℕ) (replacement : Text)
    → start < length front
    → start_of (front ++ y) site ≡ ok start
    → starts_with (codes "malloc") (drop start (front ++ y)) ≡ true
    → head_is b'(' replacement ≡ true
    → Moved (front ++ x) (front ++ y) site start end replacement
edit-Moved front x y site start end replacement within_front h named opens =
    let (line, column, place, shows, offset) = start_of-Shows (front ++ y) site h in
    let (kept, same_base) =
      Shows-edit front y x line column 0 (omega arith) shows (omega (arith, offset)) in
    let here : base (splitlines (front ++ x)) line + column ≡ start =
      omega (arith, same_base, offset) in
    let rest = drop start front in
    let size : 0 < length rest = omega (arith, length-drop start front) in
    let (m, _) = named_head (drop start (front ++ y)) named in
    let head : head_is b'm' rest ≡ true =
      sym (head-append b'm' rest y size)
      ∙ ap (head_is b'm') (sym (drop-append-le start front y (omega arith)))
      ∙ m in
    let (at_x, at_y) : (take start (front ++ x) ≡ take start front)
        × (take start (front ++ y) ≡ take start front) =
      (take-append-le start front x (omega arith), take-append-le start front y (omega arith)) in
    record {
      at_origin = Shows-start_of (front ++ x) site line column place kept ∙ ap ok here;
      front_is = at_y ∙ sym at_x;
      edited = record {
        front = take start front;
        call = rest ++ x;
        replacement = replacement ++ drop end (front ++ y);
        origin_is =
            ap (λ f. f ++ x) (sym (take-append-drop start front))
            ∙ append_assoc (take start front) rest x;
        current_is = ap (λ f. f ++ (replacement ++ drop end (front ++ y))) at_y;
        call_positive = omega (arith, length-append rest x);
        call_head = head-append b'\n' rest x size ∙ head_ne b'm' b'\n' rest (λ e. omega arith) head;
        replacement_head =
            head-append b'(' replacement (drop end (front ++ y)) (filled replacement opens) ∙ opens;
        line = line;
        column = column;
        place = place;
        place_is = here ∙ omega (arith, length-take start front);
      };
      front_length = omega (arith, length-take start front);
    }
  where
    filled : (t : Text) → head_is b'(' t ≡ true → 0 < length t
    filled [] e = cc
    filled (c ∷ t) e = omega arith
