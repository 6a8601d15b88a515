-- ===== src/Instrument/Sequence.antt =====
-- The sites in the order in which they are rewritten: each is found at its place in the first source.
use interspec_typed_allocato.Prelude.{
  ℕ, ◌+◌, ◌≤◌, ◌<◌, ◌≡◌, ◌≢◌, sym, ap, ◌∙◌, subst, true, false, inl, inr, List, [], ◌∷◌, ◌++◌,
  append-nil, arith, Text, codes, length, length-drop, take, drop, drop-length-append, starts_with,
  Ordered, ok,
}
use interspec_typed_allocato.Policy.{Site}
use interspec_typed_allocato.Location.{head_is, splitlines, source_offset}
use interspec_typed_allocato.Location.Shows.{base, base_lt}
use interspec_typed_allocato.Location.Stable.{base-edit}
use interspec_typed_allocato.MallocCall.{Call}
use interspec_typed_allocato.Sites.{Precise, site_lt, sort_sites}
use interspec_typed_allocato.Sites.Sorted.{after_place, sort_sites-Ordered}
use interspec_typed_allocato.Instrument.{splice}
use interspec_typed_allocato.Instrument.Splice.{IsLocated}
use interspec_typed_allocato.Instrument.Order.{
  IsPlace, start_of, start_of-Shows, place_le, Edited, Moved, named_head, head_ne, edit-Moved,
}

-- The first site that is rewritten.
first-Moved :
    (source : Text) (site : Site) (start end : ℕ) (replacement : Text)
    → start_of source site ≡ ok start
    → starts_with (codes "malloc") (drop start source) ≡ true
    → head_is b'(' replacement ≡ true
    → Moved source source site start end replacement
first-Moved source site start end replacement h named opens =
    let whole = append-nil source in
    let (_, size) = named_head (drop start source) named in
    subst (λ text. Moved text text site start end replacement) whole
      (edit-Moved source [] [] site start end replacement (omega (arith, length-drop start source))
        (subst (λ text. start_of text site ≡ ok start) (sym whole) h)
        (subst (λ text. starts_with (codes "malloc") (drop start text) ≡ true) (sym whole) named)
        opens)

-- A site that is not behind the one edited last stands in front of that edit.
within_front :
    (front call replacement : Text) (site edited : Site) (start line column : ℕ)
    → 0 < length call
    → head_is b'\n' call ≡ false
    → head_is b'(' replacement ≡ true
    → IsPlace edited line column
    → base (splitlines (front ++ call)) line + column ≡ length front
    → site_lt edited site ≡ false
    → start_of (front ++ replacement) site ≡ ok start
    → starts_with (codes "malloc") (drop start (front ++ replacement)) ≡ true
    → start < length front
within_front front call replacement site edited start line column size no_break opens place at_front
      order h named =
    let (l, c, here, shows, offset) = start_of-Shows (front ++ replacement) site h in
    let same_base : base (splitlines (front ++ replacement)) line
        ≡ base (splitlines (front ++ call)) line =
      base-edit front call replacement line size no_break
        (head_ne b'(' b'\n' replacement (λ e. omega arith) opens) (omega arith) in
    let bound : start ≤ length front =
      elim (place_le site edited l c line column here place order) [
        | inl lt ↦ omega (
          arith,
          same_base,
          offset,
          base_lt (splitlines (front ++ replacement)) l line c lt shows,
        )
        | inr (e, le) ↦
            omega (arith, same_base, offset, ap (base (splitlines (front ++ replacement))) e)
      ] in
    let (m, _) = named_head (drop start (front ++ replacement)) named in
    let apart : start ≢ length front = λ e. absurd (
      clash replacement opens (
        ap (head_is b'm') (
          sym (drop-length-append front replacement)
          ∙ ap (λ n. drop n (front ++ replacement)) (sym e))
        ∙ m)) in
    omega (arith, bound, apart)
  where
    clash : (t : Text) → head_is b'(' t ≡ true → head_is b'm' t ≡ true → ⊥
    clash [] e f = cc
    clash (c ∷ t) e f = ground arith

next-Moved :
    (origin current : Text) (site edited : Site) (start end : ℕ) (replacement : Text)
    → (e : Edited origin current edited) → site_lt edited site ≡ false
    → start_of current site ≡ ok start
    → starts_with (codes "malloc") (drop start current) ≡ true
    → head_is b'(' replacement ≡ true
    → (start < length e.front) × Moved origin current site start end replacement
next-Moved origin current site edited start end replacement e order h named opens =
    let same_origin = sym e.origin_is in
    let same_current = sym e.current_is in
    let h' = subst (λ text. start_of text site ≡ ok start) e.current_is h in
    let named' =
      subst (λ text. starts_with (codes "malloc") (drop start text) ≡ true) e.current_is named in
    let within =
      within_front e.front e.call e.replacement site edited start e.line e.column e.call_positive
        e.call_head e.replacement_head e.place
        (subst (λ text. base (splitlines text) e.line + e.column ≡ length e.front) e.origin_is
          e.place_is)
        order h' named' in
    (
      within,
      subst (λ text. Moved text current site start end replacement) same_origin
          (subst (λ text. Moved (e.front ++ e.call) text site start end replacement) same_current
            (edit-Moved e.front e.call e.replacement site start end replacement within h' named'
              opens)),
    )

-- The call at a site, in the source as the sites in front of it in the list have left it: the site is
-- at its place of the first source, and up to there the two sources are the same.
pub record FoundAt (origin source : Text) (bound : ℕ) (site : Site) (start end : ℕ) (call : Call)
    : Type 0 where
  pub at_origin : source_offset origin site.start_line site.start_column false ≡ ok start
  pub in_front : start < bound
  pub front_is : take start source ≡ take start origin
  pub end_at : source_offset source site.end_line site.end_column true ≡ ok end
  pub located : IsLocated source start end call

module _ (replacement : Precise → Text → Text) where
  -- The sites one after the other, each at its own location in the source as it is then, and the
  -- source that the last one leaves.
  abbrev pub AllLocated : Text → List Precise → Text → Type 0
  AllLocated source [] result = source ≡ result
  AllLocated source (p ∷ rest) result =
      (start : ℕ) × (end : ℕ) × (call : Call) × (source_offset source p.site.start_line
          p.site.start_column false
        ≡ ok start)
      × (source_offset source p.site.end_line p.site.end_column true ≡ ok end)
      × IsLocated source start end call
      × AllLocated (splice source call.start call.end (replacement p call.argument)) rest result

  -- The same, with each site at its place of the first source and in front of the one before it.
  abbrev pub AllFound : Text → Text → ℕ → List Precise → Text → Type 0
  AllFound origin source bound [] result = source ≡ result
  AllFound origin source bound (p ∷ rest) result =
      (start : ℕ) × (end : ℕ) × (call : Call) × FoundAt origin source bound p.site start end call
      × AllFound origin (splice source call.start call.end (replacement p call.argument)) start rest
          result

  -- A site that is found, and the sites behind it.
  found_here :
      (origin source result : Text) (bound : ℕ) (q : Precise) (rest : List Precise) (start end : ℕ)
      → (call : Call) → start < bound
      → (moved : Moved origin source q.site start call.end (replacement q call.argument))
      → source_offset source q.site.end_line q.site.end_column true ≡ ok end
      → IsLocated source start end call
      → AllFound origin
          (splice source start call.end (replacement q call.argument))
          (length moved.edited.front)
          rest
          result
      → AllFound origin source bound (q ∷ rest) result
  found_here origin source result bound q rest start end call within moved t located behind =
      let new_text = replacement q call.argument in
      (
        start,
        end,
        call,
        record {
          at_origin = moved.at_origin;
          in_front = within;
          front_is = moved.front_is;
          end_at = t;
          located = located;
        },
        subst (λ n. AllFound origin (splice source n call.end new_text) start rest result)
            (sym located.is_call.starts)
            (subst (λ n. AllFound origin (splice source start call.end new_text) n rest result)
              moved.front_length behind),
      )

  module _
      (opens : (p : Precise) (argument : Text) → head_is b'(' (replacement p argument) ≡ true) where
    found_after :
        (origin source result : Text) (p : Precise) (rest : List Precise)
        → (e : Edited origin source p.site) → Ordered after_place (p ∷ rest)
        → AllLocated source rest result
        → AllFound origin source (length e.front) rest result
    found_after origin source result p [] e order h = h
    found_after origin source result p (q ∷ rest) e order (start, end, call, s, t, located, more) =
        let new_text = replacement q call.argument in
        let (within, moved) =
          next-Moved origin source q.site p.site start call.end new_text e order.0.0 s
            located.is_call.named (opens q call.argument) in
        let at_start =
          subst (λ n. AllLocated (splice source n call.end new_text) rest result)
            located.is_call.starts more in
        found_here origin source result (length e.front) q rest start end call within moved t
          located
          (found_after origin (splice source start call.end new_text) result q rest moved.edited
            order.1 at_start)

    pub AllLocated-AllFound :
        (source result : Text) (sites : List Precise)
        → Ordered after_place sites
        → AllLocated source sites result
        → AllFound source source (length source) sites result
    AllLocated-AllFound source result [] order h = h
    AllLocated-AllFound source result (p ∷ rest) order (start, end, call, s, t, located, more) =
        let new_text = replacement p call.argument in
        let (_, size) = named_head (drop start source) located.is_call.named in
        let moved =
          first-Moved source p.site start call.end new_text s located.is_call.named
            (opens p call.argument) in
        let at_start =
          subst (λ n. AllLocated (splice source n call.end new_text) rest result)
            located.is_call.starts more in
        found_here source source result (length source) p rest start end call
          (omega (arith, length-drop start source)) moved t located
          (found_after source (splice source start call.end new_text) result p rest moved.edited
            order at_start)

    -- The sorted sites are found at their places of the first source.
    pub sort_sites-AllFound :
        (source result : Text) (precise : List Precise)
        → AllLocated source (sort_sites precise) result
        → AllFound source source (length source) (sort_sites precise) result
    sort_sites-AllFound source result precise =
        AllLocated-AllFound source result (sort_sites precise) (sort_sites-Ordered precise).1
