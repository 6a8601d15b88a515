-- ===== src/Sites/Sorted.antt =====
-- The order in which the sites are rewritten.
use mathlib.Core.List.{Perm}
use interspec_typed_allocato.Prelude.{
  ◌≡◌, Bool, true, false, List, arith, Ordered, sort_by-perm, sort_by-Ordered,
}
use interspec_typed_allocato.Prelude.Integers.{ℤ, ltb_ℤ}
use interspec_typed_allocato.Policy.{Site}
use interspec_typed_allocato.Sites.{Precise, site_lt, sort_sites}

ltb_ℤ-asym : (a b : ℤ) → ltb_ℤ a b ≡ true → ltb_ℤ b a ≡ false
ltb_ℤ-asym a b h = ground arith

ltb_ℤ-ge_trans : (a b c : ℤ) → ltb_ℤ a b ≡ false → ltb_ℤ b c ≡ false → ltb_ℤ a c ≡ false
ltb_ℤ-ge_trans a b c h k = ground arith

site_lt-asym : (a b : Site) → site_lt a b ≡ true → site_lt b a ≡ false
unfolding site_lt
site_lt-asym a b h =
    ground (arith, ltb_ℤ-asym a.start_line b.start_line, ltb_ℤ-asym a.start_column b.start_column)

site_lt-ge_trans : (a b c : Site) → site_lt a b ≡ false → site_lt b c ≡ false → site_lt a c ≡ false
unfolding site_lt
site_lt-ge_trans a b c h k = ground (
  arith,
  ltb_ℤ-ge_trans a.start_line b.start_line c.start_line,
  ltb_ℤ-ge_trans b.start_line a.start_line c.start_line,
  ltb_ℤ-ge_trans a.start_line c.start_line b.start_line,
  ltb_ℤ-ge_trans c.start_line b.start_line a.start_line,
  ltb_ℤ-ge_trans b.start_line c.start_line a.start_line,
  ltb_ℤ-ge_trans c.start_line a.start_line b.start_line,
  ltb_ℤ-ge_trans a.start_column b.start_column c.start_column,
)

-- Whether the first stands behind the second in the source.
abbrev pub after_place : Precise → Precise → Bool
after_place q p = site_lt p.site q.site

-- The sites are rewritten in an order in which no site is followed by one at a later place of the
-- source, and each of them once.
pub sort_sites-Ordered :
    (precise : List Precise)
    → Perm (sort_sites precise) precise × Ordered after_place (sort_sites precise)
unfolding sort_sites
sort_sites-Ordered precise = (
  sort_by-perm after_place precise,
  sort_by-Ordered after_place (λ p q. site_lt-asym q.site p.site)
      (λ p q r h k. site_lt-ge_trans r.site q.site p.site k h) precise,
)
