-- ===== src/Generate/Laws.antt =====
-- When `generate` succeeds, and which numbers its headers are made of.
use interspec_typed_allocato.Prelude.{
  ℕ, ◌≡◌, sym, ap, ap₂, ◌∙◌, subst, Bool, true, false, ◌||◌, some, List, [], ◌∷◌, ◌++◌, map, Text,
  codes, All, contains, or_false, join, length, unknown_use_type, missing_key, negative_range,
  Result, ok, err, from_option, require-eq-ok, refuse-eq-ok, >>=-eq-ok, from_option-eq-ok,
}
use interspec_typed_allocato.Prelude.Integers.{ℤ, pos, ltb_ℤ}
use interspec_typed_allocato.Policy.{AccessUse, Policy}
use interspec_typed_allocato.TypeIds.{type_ids}
use interspec_typed_allocato.TypeIds.Numbering.{enumerate, Fresh, DistinctHashes}
use interspec_typed_allocato.TypeIds.Accepted.{type_ids-ok_iff}
use interspec_typed_allocato.Sites.{Precise, number_sites, legacy_of, sort_sites, sorted_set}
use interspec_typed_allocato.Sites.Numbering.{numbered, IsKnown, number_sites-ok_iff}
use interspec_typed_allocato.NativeHeaders.{
  newline, u_header_lines, use_lines, access_lines, t_header_lines,
}
use interspec_typed_allocato.Generate.Located.{native_text, instrument_sites-AllFound}
use interspec_typed_allocato.Instrument.Sequence.{AllFound}
use interspec_typed_allocato.Generate.{
  Output, instrument_sites, mark_functions, instrument_all_legacy, generate,
}

-- The type of the use is one of the policy's, and its range is declared and not negative.
pub record IsAccess (types : List Text) (u : AccessUse) : Type 0 where
  pub known : contains types u.type ≡ true
  pub size : ℤ
  pub declared : u.bytes ≡ some size
  pub offset_nonneg : ltb_ℤ u.offset (pos 0) ≡ false
  pub size_nonneg : ltb_ℤ size (pos 0) ≡ false

access_lines-IsAccess :
    (types : List Text) (uses : List AccessUse) {lines : List Text}
    → access_lines types uses ≡ ok lines
    → All (IsAccess types) uses
unfolding access_lines
access_lines-IsAccess types [] h = tt
access_lines-IsAccess types (u ∷ uses) h =
    let (k, h₁) = require-eq-ok (contains types u.type) (unknown_use_type u.type) _ h in
    let (size, e, h₂) = >>=-eq-ok (from_option (missing_key (codes "bytes")) u.bytes) _ h₁ in
    let (t, h₃) =
      refuse-eq-ok (ltb_ℤ u.offset (pos 0) || ltb_ℤ size (pos 0)) (negative_range u.name) _ h₂ in
    let (o, s) = or_false (ltb_ℤ u.offset (pos 0)) (ltb_ℤ size (pos 0)) t in
    let (rest, e', h₄) =
      >>=-eq-ok (access_lines types uses) (λ rest. ok (use_lines u size ++ rest)) h₃ in
    (
      record {
        known = k;
        size = size;
        declared = from_option-eq-ok (missing_key (codes "bytes")) _ e;
        offset_nonneg = o;
        size_nonneg = s;
      },
      access_lines-IsAccess types uses e',
    )

-- What an accepted policy is like, and what the headers say of it.
pub record IsGenerated (unicode_alnum : ℕ → Bool) (policy : Policy) (source : Text)
    (output : Output) : Type 0 where
  pub instrumented : Text
  pub all_found :
      AllFound native_text source source
        (length source)
        (sort_sites (numbered 1 policy.allocations))
        instrumented
  pub marked : Text
  pub marked_is :
      mark_functions unicode_alnum instrumented
        (sorted_set (map (λ (p : Precise). p.allocation.function) (numbered 1 policy.allocations)))
      ≡ ok marked
  pub source_is :
      instrument_all_legacy unicode_alnum marked (legacy_of policy.allocations) ≡ ok output.source
  pub fresh : Fresh [] policy.types
  pub distinct : DistinctHashes policy.types
  pub allocations_known : All (IsKnown policy.types) policy.allocations
  pub uses_valid : All (IsAccess policy.types) policy.uses
  pub accesses : List Text
  pub accesses_are : access_lines policy.types policy.uses ≡ ok accesses
  pub u_header_is : output.u_header ≡ join newline (u_header_lines (enumerate 1 policy.types))
  pub t_header_is :
      output.t_header
      ≡ join newline
          (t_header_lines (enumerate 1 policy.types) (numbered 1 policy.allocations) accesses)

output_injective : {x y : Output} → ok x ≡ ok y → x ≡ y
output_injective {x} h = ap (λ (r : Result Output). elim r [ ok a ↦ a | err _ ↦ x ]) h

module _ (unicode_alnum : ℕ → Bool) where
  -- The native generator succeeds only on a policy with no repeated type, no two types of one hash, and
  -- allocations and uses of known types, each use with a declared range that is not negative. Its
  -- headers then number the types from 1 on in the order of the policy, and the allocations that have
  -- a site from 1 on in theirs. The source is made in three steps: each of these allocations, in the
  -- order of the sorted sites, has a call of `malloc` at its place of the given source that is replaced
  -- by the expression with the allocation's number, where the text up to the call is still that of the
  -- given source; then their functions are marked; then the legacy allocations are rewritten.
  pub generate-IsGenerated :
      (policy : Policy) (source : Text) {output : Output}
      → generate unicode_alnum policy source ≡ ok output
      → IsGenerated unicode_alnum policy source output
  unfolding generate
  generate-IsGenerated policy source {output} h =
      let (ids, i, h₁) = >>=-eq-ok (type_ids policy.types) _ h in
      let (precise, n, h₂) = >>=-eq-ok (number_sites policy.types 1 policy.allocations) _ h₁ in
      let (s₁, e₁, h₃) =
        >>=-eq-ok (instrument_sites unicode_alnum source (sort_sites precise)) _ h₂ in
      let (s₂, e₂, h₄) =
        >>=-eq-ok
          (mark_functions unicode_alnum s₁
            (sorted_set (map (λ (p : Precise). p.allocation.function) precise)))
          _ h₃ in
      let (s₃, e₃, h₅) =
        >>=-eq-ok (instrument_all_legacy unicode_alnum s₂ (legacy_of policy.allocations)) _ h₄ in
      let (accesses, a, h₆) = >>=-eq-ok (access_lines policy.types policy.uses) _ h₅ in
      let (f, d, ids_are) = (type_ids-ok_iff policy.types ids).0 i in
      let (k, precise_are) = (number_sites-ok_iff policy.types 1 policy.allocations precise).0 n in
      let made = output_injective h₆ in
      record {
        instrumented = s₁;
        all_found = instrument_sites-AllFound unicode_alnum source (numbered 1 policy.allocations) (
            subst (λ ps. instrument_sites unicode_alnum source (sort_sites ps) ≡ ok s₁) precise_are
              e₁);
        marked = s₂;
        marked_is =
            subst
              (λ ps.
                mark_functions unicode_alnum s₁
                  (sorted_set (map (λ (p : Precise). p.allocation.function) ps))
                ≡ ok s₂)
              precise_are e₂;
        source_is = e₃ ∙ ap ok (ap (λ (o : Output). o.source) made);
        fresh = f;
        distinct = d;
        allocations_known = k;
        uses_valid = access_lines-IsAccess policy.types policy.uses a;
        accesses = accesses;
        accesses_are = a;
        u_header_is =
            sym (ap (λ (o : Output). o.u_header) made)
            ∙ ap (λ t. join newline (u_header_lines t)) ids_are;
        t_header_is =
            sym (ap (λ (o : Output). o.t_header) made)
            ∙ ap₂ (λ t p. join newline (t_header_lines t p accesses)) ids_are precise_are;
      }
