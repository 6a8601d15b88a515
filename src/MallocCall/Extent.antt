-- ===== src/MallocCall/Extent.antt =====
-- What `malloc_call_extent` returns: the complete call at the anchor.
use mathlib.Core.Option.{none-ne-some}
use interspec_typed_allocato.Prelude.{
  ℕ, zero, suc, ◌+◌, ◌-◌, ◌≤◌, ◌≡◌, refl, sym, ap, ◌∙◌, subst, true, false, not, ◌&&◌, ◌||◌, ◌⊎◌,
  some, [], ◌∷◌, ◌++◌, arith, Text, codes, length, length-append, append_assoc, drop, starts_with,
  strip, is_space, run_length, ltb, leb, ==_iff, not_at_malloc, truncated_malloc, no_argument_list,
  empty_size, span_past_call, unterminated_arguments, ok, from_option, >>=-eq-ok, require-eq-ok,
  refuse-eq-ok, from_option-eq-ok,
}
use interspec_typed_allocato.Location.{head_is}
use interspec_typed_allocato.Brackets.Grammar.{Balanced, Closes, done, segment, close_bracket-Stops}
use interspec_typed_allocato.MallocCall.{
  code, find_close, Call, is_nonempty, slice, finish_call, malloc_call_extent,
}
use interspec_typed_allocato.MallocCall.Blank.{blank, behind, find_close-close_bracket}

-- An argument list in parentheses from one offset to another: with its comments and literals blanked
-- out, the text between the two is balanced, and the second is a closing parenthesis.
pub record IsArguments (source : Text) (open_paren close_paren : ℕ) : Type 0 where
  pub opens : head_is b'(' (drop open_paren source) ≡ true
  pub inner : Text
  pub after : Text
  pub splits : blank code (drop (suc open_paren) source) ≡ inner ++ (b')' ∷ after)
  pub ends : close_paren ≡ suc open_paren + length inner
  pub balanced : Balanced b'(' b')' inner

-- The call at an anchor.
pub record IsCall (source : Text) (anchor_start anchor_end : ℕ) (call : Call) : Type 0 where
  pub open_paren : ℕ
  pub starts : call.start ≡ anchor_start
  pub named : starts_with (codes "malloc") (drop anchor_start source) ≡ true
  pub only_space :
      open_paren ≡ anchor_start + 6 + run_length is_space (drop (anchor_start + 6) source)
  pub arguments : IsArguments source open_paren (call.end - 1)
  pub argument_is : call.argument ≡ strip (slice source (suc open_paren) (call.end - 1))
  pub argument_ne_nil : is_nonempty call.argument ≡ true
  pub covers :
      (anchor_end ≤ call.end) ⊎ (is_nonempty (strip (slice source call.end anchor_end)) ≡ false)

-- The scan of a text that begins with the opening parenthesis.
find_close_open :
    (position : ℕ) (text : Text) {q : ℕ}
    → head_is b'(' text ≡ true
    → find_close code 0 position text ≡ some q
    → (rest : Text) × (text ≡ b'(' ∷ rest) × (find_close code 1 (suc position) rest ≡ some q)
unfolding find_close
find_close_open position [] h e = cc
find_close_open position (c ∷ []) {q} h e =
    let opening = (==_iff c b'(').0 h in
    absurd (none-ne-some q (subst (λ k. find_close code 0 position (k ∷ []) ≡ some q) opening e))
find_close_open position (c ∷ d ∷ rest) {q} h e =
    let opening = (==_iff c b'(').0 h in
    (
      d ∷ rest,
      ap (λ k. k ∷ d ∷ rest) opening,
      subst (λ k. find_close code 0 position (k ∷ d ∷ rest) ≡ some q) opening e,
    )

drop-suc : (n c : ℕ) (text rest : Text) → drop n text ≡ c ∷ rest → drop (suc n) text ≡ rest
drop-suc zero c [] rest h = ground arith
drop-suc zero c (d ∷ text) rest h = ground arith
drop-suc (suc n) c [] rest h = ground arith
drop-suc (suc n) c (d ∷ text) rest h = drop-suc n c text rest h

Closes-one :
    {text : Text}
    → Closes b'(' b')' refl 1 text
    → (body : Text) × (text ≡ body ++ (b')' ∷ [])) × Balanced b'(' b')' body
Closes-one (segment {text} b done) = (text, refl, b)

-- Where the scan stops, the parentheses of the argument list are balanced.
find_close-IsArguments :
    (source : Text) (open_paren close_paren : ℕ)
    → head_is b'(' (drop open_paren source) ≡ true
    → find_close code 0 open_paren (drop open_paren source) ≡ some close_paren
    → IsArguments source open_paren close_paren
find_close-IsArguments source open_paren close_paren h e =
    let (rest, r, f) = find_close_open open_paren (drop open_paren source) h e in
    let scanned = sym (find_close-close_bracket code 0 (suc open_paren) rest) ∙ ap behind f in
    let s = close_bracket-Stops b'(' b')' refl 1 (suc open_paren) (blank code rest) scanned in
    let (body, read_is, b) = Closes-one s.closes in
    record {
      opens = h;
      inner = body;
      after = s.unread;
      splits =
          ap (blank code) (drop-suc open_paren b'(' source rest r)
          ∙ s.splits
          ∙ ap (λ t. t ++ s.unread) read_is
          ∙ append_assoc body (b')' ∷ []) s.unread;
      ends = omega (arith, s.moves, ap length read_is, length-append body (b')' ∷ []));
      balanced = b;
    }

finish_call-IsCall :
    (source : Text) (anchor_start anchor_end open_paren close_paren : ℕ) {call : Call}
    → starts_with (codes "malloc") (drop anchor_start source) ≡ true
    → open_paren ≡ anchor_start + 6 + run_length is_space (drop (anchor_start + 6) source)
    → IsArguments source open_paren close_paren
    → finish_call source anchor_start anchor_end open_paren close_paren ≡ ok call
    → IsCall source anchor_start anchor_end call
unfolding finish_call
finish_call-IsCall source anchor_start anchor_end open_paren close_paren {call} n o a h =
    let argument = strip (slice source (suc open_paren) close_paren) in
    let past = strip (slice source (suc close_paren) anchor_end) in
    let (t₁, h₁) = require-eq-ok (is_nonempty argument) empty_size _ h in
    let (t₂, h₂) =
      refuse-eq-ok (ltb (suc close_paren) anchor_end && is_nonempty past) span_past_call _ h₁ in
    let made : Call = record { start = anchor_start; end = suc close_paren; argument = argument } in
    let e : made ≡ call = ground arith in
    subst (IsCall source anchor_start anchor_end) e (record {
      open_paren = open_paren;
      starts = refl;
      named = n;
      only_space = o;
      arguments = subst (IsArguments source open_paren) (omega arith) a;
      argument_is = ap (λ k. strip (slice source (suc open_paren) k)) (omega arith);
      argument_ne_nil = t₁;
      covers = ground arith;
    })

-- Where an extent is found it is a complete call of `malloc`: it begins at the anchor with that word,
-- its argument list is balanced once comments and literals are set aside, its argument is the text
-- between the parentheses without the space around it and is not empty, and of the anchor at most
-- space stands behind it.
pub malloc_call_extent-IsCall :
    (source : Text) (anchor_start anchor_end : ℕ) {call : Call}
    → malloc_call_extent source anchor_start anchor_end ≡ ok call
    → IsCall source anchor_start anchor_end call
unfolding malloc_call_extent
malloc_call_extent-IsCall source anchor_start anchor_end {call} h =
    let open_paren = anchor_start + 6 + run_length is_space (drop (anchor_start + 6) source) in
    let (t₁, h₁) =
      refuse-eq-ok
        (leb anchor_end anchor_start
          || not (starts_with (codes "malloc") (drop anchor_start source)))
        not_at_malloc _ h in
    let (t₂, h₂) = refuse-eq-ok (ltb anchor_end (anchor_start + 6)) truncated_malloc _ h₁ in
    let (t₃, h₃) = require-eq-ok (head_is b'(' (drop open_paren source)) no_argument_list _ h₂ in
    let (close_paren, e, h₄) =
      >>=-eq-ok
        (from_option unterminated_arguments (find_close code 0 open_paren (drop open_paren source)))
        (finish_call source anchor_start anchor_end open_paren) h₃ in
    let found = from_option-eq-ok unterminated_arguments _ e in
    finish_call-IsCall source anchor_start anchor_end open_paren close_paren (ground arith) refl
      (find_close-IsArguments source open_paren close_paren t₃ found) h₄
