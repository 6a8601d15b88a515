-- ===== src/Instrument/Symbols.antt =====
-- The labels of two sites differ when their numbers do, whatever their names are.
use mathlib.Core.List.{append_cancel_right}
use interspec_typed_allocato.Prelude.{
  ℕ, ◌≡◌, ◌≢◌, sym, ap, ◌∙◌, false, [], ◌∷◌, ◌++◌, append_assoc, append-nil, arith, Text, codes,
  All, ◌==◌, if◌then◌else◌,
}
use interspec_typed_allocato.Names.{symbol}
use interspec_typed_allocato.Names.Decimal.{IsDigit, decimal-IsDigit, decimal_injective}
use interspec_typed_allocato.Instrument.{site_prefix, site_symbols}

-- The text behind the last underscore, with what is read since the last one.
after_underscore : Text → Text → Text
after_underscore read [] = read
after_underscore read (c ∷ text) =
    after_underscore (if c == b'_' then [] else read ++ (c ∷ [])) text

after_underscore-digits :
    (read text : Text) → All IsDigit text → after_underscore read text ≡ read ++ text
unfolding after_underscore
after_underscore-digits read [] h = sym (append-nil read)
after_underscore-digits read (c ∷ text) (d, h) =
    rw (digit_ne c d)
      (after_underscore-digits (read ++ (c ∷ [])) text h ∙ append_assoc read (c ∷ []) text)
  where
    digit_ne : (c : ℕ) → IsDigit c → (c == b'_') ≡ false
    digit_ne c d = ground arith

after_underscore-append :
    (read stem text : Text)
    → All IsDigit text
    → after_underscore read (stem ++ (b'_' ∷ text)) ≡ text
unfolding after_underscore
after_underscore-append read [] text h = after_underscore-digits [] text h
after_underscore-append read (c ∷ stem) text h =
    after_underscore-append (if c == b'_' then [] else read ++ (c ∷ [])) stem text h

site_prefix_injective : (s t : Text) (i j : ℕ) → site_prefix s i ≡ site_prefix t j → i ≡ j
site_prefix_injective s t i j h = decimal_injective i j (
    sym (after_underscore-append [] (codes "interspec_alloc_site_" ++ s) _ (decimal-IsDigit i))
    ∙ ap (after_underscore []) h
    ∙ after_underscore-append [] (codes "interspec_alloc_site_" ++ t) _ (decimal-IsDigit j))

pub site_prefix_ne :
    (s t suffix : Text) (i j : ℕ) → i ≢ j → site_prefix s i ++ suffix ≢ site_prefix t j ++ suffix
site_prefix_ne s t suffix i j d h =
    d (site_prefix_injective s t i j (append_cancel_right _ _ suffix h))

-- Two sites with different numbers have different begin labels and different end labels, whatever
-- the names of their functions are.
pub site_symbols_ne :
    (f g : Text) (i j : ℕ)
    → i ≢ j
    → ((site_symbols f i).0 ≢ (site_symbols g j).0) × ((site_symbols f i).1 ≢ (site_symbols g j).1)
unfolding site_symbols
site_symbols_ne f g i j d = (
  site_prefix_ne (symbol f) (symbol g) (codes "_begin") i j d,
  site_prefix_ne (symbol f) (symbol g) (codes "_end") i j d,
)
