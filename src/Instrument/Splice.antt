-- ===== src/Instrument/Splice.antt =====
-- The frame of an instrumented site: the call is replaced, and nothing else changes.
use interspec_typed_allocato.Prelude.{
  ℕ, ◌≤◌, ◌≡◌, subst, Bool, true, false, ◌||◌, arith, Text, ltb, leb, ltb→ge, or_false,
  invalid_site, site_escapes, call_escapes, ok, >>=-eq-ok, refuse-eq-ok,
}
use interspec_typed_allocato.Policy.{Site, Allocation}
use interspec_typed_allocato.Function.{function_body}
use interspec_typed_allocato.Function.Body.{IsBody, function_body-IsBody}
use interspec_typed_allocato.Location.{source_offset}
use interspec_typed_allocato.MallocCall.{Call, malloc_call_extent}
use interspec_typed_allocato.MallocCall.Extent.{IsCall, malloc_call_extent-IsCall}
use interspec_typed_allocato.Instrument.{splice, site_replacement, locate_call, instrument_site}

-- A call of `malloc` at an anchor, within the body of the allocation's function.
pub record IsLocated (source : Text) (anchor_start anchor_end : ℕ) (call : Call) : Type 0 where
  pub start : ℕ
  pub end : ℕ
  pub body : IsBody source start end
  pub is_call : IsCall source anchor_start anchor_end call
  pub starts_within : start ≤ call.start
  pub ends_within : call.end ≤ end
  pub anchor_within : anchor_end ≤ end

module _ (unicode_alnum : ℕ → Bool) where
  pub locate_call-IsLocated :
      (source : Text) (allocation : Allocation) (anchor_start anchor_end : ℕ) {call : Call}
      → locate_call unicode_alnum source allocation anchor_start anchor_end ≡ ok call
      → IsLocated source anchor_start anchor_end call
  unfolding locate_call
  locate_call-IsLocated source allocation anchor_start anchor_end {call} h =
      let (body, e, h₁) = >>=-eq-ok (function_body unicode_alnum source allocation.function) _ h in
      let (t₁, h₂) =
        refuse-eq-ok (ltb anchor_start body.start || ltb body.end anchor_end)
          (site_escapes allocation.function) _ h₁ in
      let (found, e', h₃) = >>=-eq-ok (malloc_call_extent source anchor_start anchor_end) _ h₂ in
      let (t₂, h₄) =
        refuse-eq-ok (ltb body.end found.end) (call_escapes allocation.function) _ h₃ in
      let c = malloc_call_extent-IsCall source anchor_start anchor_end e' in
      let (low, high) = or_false (ltb anchor_start body.start) (ltb body.end anchor_end) t₁ in
      let same_call : found ≡ call = ground arith in
      subst (IsLocated source anchor_start anchor_end) same_call (record {
        start = body.start;
        end = body.end;
        body = function_body-IsBody unicode_alnum source allocation.function e;
        is_call = c;
        starts_within = omega (arith, ltb→ge anchor_start body.start low, c.starts);
        ends_within = ltb→ge body.end found.end t₂;
        anchor_within = ltb→ge body.end anchor_end high;
      })

  -- An instrumented source is the old one with one call of `malloc` replaced by the site's statement
  -- expression, which holds the argument of that call. The call is the one at the site's location: the
  -- text of the source at the offset of the site's start. It lies in a body between braces that are
  -- balanced, and the text in front of it and behind it is as it was.
  pub instrument_site-IsLocated :
      (source : Text) (allocation : Allocation) (site : Site) (site_id : ℕ) {result : Text}
      → instrument_site unicode_alnum source allocation site site_id ≡ ok result
      → (anchor_start anchor_end : ℕ) × (call : Call) × (source_offset source site.start_line
            site.start_column false
          ≡ ok anchor_start)
        × (source_offset source site.end_line site.end_column true ≡ ok anchor_end)
        × IsLocated source anchor_start anchor_end call
        × (result
            ≡ splice source call.start call.end
                (site_replacement call.argument allocation.function site_id))
  unfolding instrument_site
  instrument_site-IsLocated source allocation site site_id h =
      let (anchor_start, e, h₁) =
        >>=-eq-ok (source_offset source site.start_line site.start_column false) _ h in
      let (anchor_end, e', h₂) =
        >>=-eq-ok (source_offset source site.end_line site.end_column true) _ h₁ in
      let (t, h₃) =
        refuse-eq-ok (leb anchor_end anchor_start) (invalid_site allocation.function) _ h₂ in
      let (call, e'', h₄) =
        >>=-eq-ok (locate_call unicode_alnum source allocation anchor_start anchor_end) _ h₃ in
      (
        anchor_start,
        anchor_end,
        call,
        e,
        e',
        locate_call-IsLocated source allocation anchor_start anchor_end e'',
        ground arith,
      )
