-- ===== src/Generate/Located.antt =====
-- The loop over the precise sites, from the last place of the source to the first.
use interspec_typed_allocato.Prelude.{
  ℕ, ◌≡◌, refl, ap, subst, Bool, true, List, [], ◌∷◌, Text, length, Result, ok, err, >>=-eq-ok,
}
use interspec_typed_allocato.Location.{head_is}
use interspec_typed_allocato.Sites.{Precise, sort_sites}
use interspec_typed_allocato.Instrument.{site_replacement, instrument_site}
use interspec_typed_allocato.Instrument.Splice.{instrument_site-IsLocated}
use interspec_typed_allocato.Instrument.Sequence.{AllLocated, AllFound, sort_sites-AllFound}
use interspec_typed_allocato.Generate.{instrument_sites}

-- The expression with the site's number.
abbrev pub native_text : Precise → Text → Text
native_text p argument = site_replacement argument p.allocation.function p.site_id

native_text_opens : (p : Precise) (argument : Text) → head_is b'(' (native_text p argument) ≡ true
unfolding site_replacement
native_text_opens p argument = refl

ok_injective : {s t : Text} → ok s ≡ ok t → s ≡ t
ok_injective {s} h = ap (λ (r : Result Text). elim r [ ok a ↦ a | err _ ↦ s ]) h

module _ (unicode_alnum : ℕ → Bool) where
  instrument_sites-AllLocated :
      (source : Text) (precise : List Precise) {result : Text}
      → instrument_sites unicode_alnum source precise ≡ ok result
      → AllLocated native_text source precise result
  unfolding instrument_sites
  instrument_sites-AllLocated source [] h = ok_injective h
  instrument_sites-AllLocated source (p ∷ rest) {result} h =
      let (next, e, k) =
        >>=-eq-ok (instrument_site unicode_alnum source p.allocation p.site p.site_id) _ h in
      let (anchor_start, anchor_end, call, s, t, located, made) =
        instrument_site-IsLocated unicode_alnum source p.allocation p.site p.site_id e in
      (
        anchor_start,
        anchor_end,
        call,
        s,
        t,
        located,
        subst (λ u. AllLocated native_text u rest result) made
            (instrument_sites-AllLocated next rest k),
      )

  -- The sorted sites, rewritten one after the other, are each found at their place in the source that
  -- was given: the offset of a site's start in it is where the site's call of `malloc` is replaced, the
  -- text up to there is still that of the given source, and the offset is smaller than that of the
  -- site before it.
  pub instrument_sites-AllFound :
      (source : Text) (precise : List Precise) {result : Text}
      → instrument_sites unicode_alnum source (sort_sites precise) ≡ ok result
      → AllFound native_text source source (length source) (sort_sites precise) result
  instrument_sites-AllFound source precise {result} h =
      sort_sites-AllFound native_text native_text_opens source result precise
        (instrument_sites-AllLocated source (sort_sites precise) h)
