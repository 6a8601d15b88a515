-- ===== src/Function/Body.antt =====
-- What `function_body` finds: the balanced text behind the first match.
use mathlib.Core.Path.{ap₂, subst₂}
use interspec_typed_allocato.Prelude.{
  ℕ, suc, ◌+◌, ◌-◌, ◌≡◌, refl, sym, ap, ◌∙◌, Bool, false, inl, inr, ◌⊎◌, some, [], ◌∷◌, ◌++◌,
  append_assoc, arith, Text, length, drop, length-append, drop-length-append, subst, Bool-cases,
  Option-cases, function_not_found, unterminated_function, ok, from_option, >>=-eq-ok,
  from_option-eq-ok,
}
use interspec_typed_allocato.Pattern.{lit, spaces, until, match_length, Span}
use interspec_typed_allocato.Pattern.Bounds.{EndsWith, match_length-EndsWith}
use interspec_typed_allocato.Brackets.{close_bracket}
use interspec_typed_allocato.Brackets.Grammar.{Balanced, Closes, done, segment, close_bracket-Stops}
use interspec_typed_allocato.Function.{
  definition_pattern, at_boundary, search_from, is_word, function_match, function_body,
}

-- The text between two offsets of the source stands behind an opening brace, is balanced, and is
-- followed by the closing one.
pub record IsBody (source : Text) (start end : ℕ) : Type 0 where
  pub before : Text
  pub body : Text
  pub after : Text
  pub splits : source ≡ before ++ (b'{' ∷ (body ++ (b'}' ∷ after)))
  pub start_is : start ≡ length before + 1
  pub end_is : end ≡ start + length body
  pub balanced : Balanced b'{' b'}' body

drop-EndsWith : (source : Text) (n : ℕ) (w : EndsWith b'{' source n) → drop n source ≡ w.after
drop-EndsWith source n w =
    ap₂ drop (w.measures ∙ omega (arith, length-append w.before (b'{' ∷ [])))
      (w.splits ∙ sym (append_assoc w.before (b'{' ∷ []) w.after))
    ∙ drop-length-append (w.before ++ (b'{' ∷ [])) w.after

module _ (unicode_alnum : ℕ → Bool) where
  search_from-cases :
      (function : Text) (before : Bool) (position c : ℕ) (rest : Text) {found : Span}
      → search_from unicode_alnum function before position (c ∷ rest) ≡ some found
      → (search_from unicode_alnum function (is_word unicode_alnum c) (suc position) rest
          ≡ some found)
        ⊎ ((n : ℕ) × (match_length (definition_pattern function) (c ∷ rest) ≡ some n)
            × (found ≡ record { start = position; end = position + n }))
  unfolding search_from
  search_from-cases function before position c rest h =
      elim (Bool-cases (at_boundary unicode_alnum before (c ∷ rest))) [
        | inl b ↦ elim (Option-cases (match_length (definition_pattern function) (c ∷ rest))) [
          | inl e ↦ inl (rw (b, e, search_from) at h)
          | inr (n, e) ↦ inr (n, e, ground arith)
        ]
        | inr b ↦ inl (rw (b, search_from) at h)
      ]

  search_from-EndsWith :
      (function : Text) (before : Bool) (position : ℕ) (text : Text) {found : Span}
      → search_from unicode_alnum function before position text ≡ some found
      → (n : ℕ) × (found.end ≡ position + n) × EndsWith b'{' text n
  unfolding search_from
  search_from-EndsWith function before position [] h = cc
  search_from-EndsWith function before position (c ∷ rest) {found} h =
      elim (search_from-cases function before position c rest h) [
        | inr (n, m, e) ↦ (
          n,
          ap (λ (s : Span). s.end) e,
          match_length-EndsWith
              (lit function ∷ spaces ∷ lit (b'(' ∷ []) ∷ until b')' ∷ lit (b')' ∷ []) ∷ spaces ∷ [])
              b'{' (c ∷ rest) m,
        )
        | inl later ↦
            let (n, e, w) =
              search_from-EndsWith function (is_word unicode_alnum c) (suc position) rest later in
            (
              suc n,
              omega arith,
              record {
                before = c ∷ w.before;
                after = w.after;
                splits = ap (◌∷◌ c) w.splits;
                measures = omega (arith, w.measures);
              },
            )
      ]

  Closes-one :
      {text : Text}
      → Closes b'{' b'}' refl 1 text
      → (body : Text) × (text ≡ body ++ (b'}' ∷ [])) × Balanced b'{' b'}' body
  Closes-one (segment {text} b done) = (text, refl, b)

  -- The body behind a match that ends at `start`, where the loop stops at `q`.
  IsBody-close :
      (source : Text) (start q : ℕ)
      → EndsWith b'{' source start
      → close_bracket b'{' b'}' 1 start (drop start source) ≡ some q
      → IsBody source start (q - 1)
  IsBody-close source start q w c =
      let s = close_bracket-Stops b'{' b'}' refl 1 start (drop start source) c in
      let (body, read_is, b) = Closes-one s.closes in
      record {
        before = w.before;
        body = body;
        after = s.unread;
        splits =
            w.splits
            ∙ ap (λ t. w.before ++ (b'{' ∷ t))
                (sym (drop-EndsWith source start w)
                  ∙ s.splits
                  ∙ ap (λ t. t ++ s.unread) read_is
                  ∙ append_assoc body (b'}' ∷ []) s.unread);
        start_is = w.measures;
        end_is = omega (arith, s.moves, ap length read_is, length-append body (b'}' ∷ []));
        balanced = b;
      }

  -- Where the body of a function is found, it is a balanced text between two braces of the source,
  -- and the offsets are its ends.
  pub function_body-IsBody :
      (source function : Text) {found : Span}
      → function_body unicode_alnum source function ≡ ok found
      → IsBody source found.start found.end
  unfolding function_body
  function_body-IsBody source function {found} h =
      let (m, e, h') = >>=-eq-ok (function_match unicode_alnum source function) _ h in
      let (n, ends, w) =
        search_from-EndsWith function false 0 source
          (from_option-eq-ok (function_not_found function) _ e) in
      let (q, e', h'') =
        >>=-eq-ok
          (from_option (unterminated_function function)
            (close_bracket b'{' b'}' 1 m.end (drop m.end source)))
          (λ position. ok (record { start = m.end; end = position - 1 })) h' in
      subst₂ (IsBody source) (ground arith) (ground arith) (
        IsBody-close source m.end q (subst (EndsWith b'{' source) (omega (arith, ends)) w)
          (from_option-eq-ok (unterminated_function function) _ e'))
