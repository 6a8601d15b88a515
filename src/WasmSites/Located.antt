-- ===== src/WasmSites/Located.antt =====
-- The loop of `generate_wasm_boundary` over the sites, from the last place of the source to the first.
use interspec_typed_allocato.Prelude.{
  ℕ, ◌≡◌, refl, sym, ap, subst, Bool, false, true, List, [], ◌∷◌, Text, length, Result, ok, err,
  >>=-eq-ok,
}
use interspec_typed_allocato.Location.{head_is, source_offset}
use interspec_typed_allocato.Sites.{Precise, sort_sites}
use interspec_typed_allocato.Instrument.{locate_call}
use interspec_typed_allocato.Instrument.Splice.{locate_call-IsLocated}
use interspec_typed_allocato.Instrument.Sequence.{AllLocated, AllFound, sort_sites-AllFound}
use interspec_typed_allocato.WasmSites.{
  wasm_replacement, instrument_wasm_site, instrument_wasm_sites,
}

-- The call of the import with the site's number.
abbrev pub wasm_text : Text → Precise → Text → Text
wasm_text namespace_name p argument = wasm_replacement argument namespace_name p.site_id

wasm_text_opens :
    (namespace_name : Text) (p : Precise) (argument : Text)
    → head_is b'(' (wasm_text namespace_name p argument) ≡ true
unfolding wasm_replacement
wasm_text_opens namespace_name p argument = refl

ok_injective : {s t : Text} → ok s ≡ ok t → s ≡ t
ok_injective {s} h = ap (λ (r : Result Text). elim r [ ok a ↦ a | err _ ↦ s ]) h

module _ (unicode_alnum : ℕ → Bool) (namespace_name : Text) where
  instrument_wasm_sites-AllLocated :
      (source : Text) (precise : List Precise) {result : Text}
      → instrument_wasm_sites unicode_alnum namespace_name source precise ≡ ok result
      → AllLocated (wasm_text namespace_name) source precise result
  unfolding instrument_wasm_sites instrument_wasm_site
  instrument_wasm_sites-AllLocated source [] h = ok_injective h
  instrument_wasm_sites-AllLocated source (p ∷ rest) {result} h =
      let (next, e, k) =
        >>=-eq-ok
          (instrument_wasm_site unicode_alnum namespace_name source p.allocation p.site p.site_id) _
          h in
      let (start, s, e₁) =
        >>=-eq-ok (source_offset source p.site.start_line p.site.start_column false) _ e in
      let (end, t, e₂) =
        >>=-eq-ok (source_offset source p.site.end_line p.site.end_column true) _ e₁ in
      let (call, c, e₃) =
        >>=-eq-ok (locate_call unicode_alnum source p.allocation start end) _ e₂ in
      (
        start,
        end,
        call,
        s,
        t,
        locate_call-IsLocated unicode_alnum source p.allocation start end c,
        subst (λ u. AllLocated (wasm_text namespace_name) u rest result) (ok_injective (sym e₃))
            (instrument_wasm_sites-AllLocated next rest k),
      )

  pub instrument_wasm_sites-AllFound :
      (source : Text) (precise : List Precise) {result : Text}
      → instrument_wasm_sites unicode_alnum namespace_name source (sort_sites precise) ≡ ok result
      → AllFound
          (wasm_text namespace_name)
          source
          source
          (length source)
          (sort_sites precise)
          result
  instrument_wasm_sites-AllFound source precise {result} h =
      sort_sites-AllFound (wasm_text namespace_name) (wasm_text_opens namespace_name) source result
        precise (instrument_wasm_sites-AllLocated source (sort_sites precise) h)
