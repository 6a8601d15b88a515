-- ===== src/Boundary/Helpers.antt =====
-- The helper sites of a boundary: their numbers, and their labels beside those of the sites.
use mathlib.Core.Path.{subst₂}
use interspec_typed_allocato.Prelude.{
  ℕ, suc, ◌+◌, ◌≤◌, ◌<◌, ◌≡◌, ◌≢◌, ◌↔◌, refl, sym, ap, ◌∙◌, true, false, List, [], ◌∷◌, ◌++◌, arith,
  Text, codes, length, All, contains, duplicate_helper, unknown_helper_type, ok, require-eq-ok,
  refuse-eq-ok, >>=-eq-ok,
}
use interspec_typed_allocato.Names.{symbol}
use interspec_typed_allocato.Policy.{Allocation, HelperSite}
use interspec_typed_allocato.Sites.{Precise, number_sites}
use interspec_typed_allocato.Sites.Numbering.{
  numbered, numbered-InRange, InRange, number_sites-ok_iff,
}
use interspec_typed_allocato.Instrument.{begin_symbol, end_symbol}
use interspec_typed_allocato.Instrument.Symbols.{site_prefix_ne}
use interspec_typed_allocato.Boundary.{HelperEntry, helper_symbols, helper_entries, count_precise}

-- The helpers of a boundary, numbered from `next` on.
abbrev pub number_helpers : ℕ → List HelperSite → List HelperEntry
number_helpers next [] = []
number_helpers next (helper ∷ rest) =
    record { site_id = next; name = helper.name; type = helper.type }
    ∷ number_helpers (suc next) rest

-- No name is among those seen, nor among the names before it.
abbrev pub FreshNames : List Text → List HelperSite → Type 0
FreshNames seen [] = Unit
FreshNames seen (helper ∷ rest) =
    (contains seen helper.name ≡ false) × FreshNames (helper.name ∷ seen) rest

abbrev pub IsKnownHelper : List Text → HelperSite → Type 0
IsKnownHelper types helper = contains types helper.type ≡ true

ok_injective : {xs ys : List HelperEntry} → ok xs ≡ ok ys → xs ≡ ys
ok_injective h = ground arith

module _ (types : List Text) where
  helper_entries-Fresh :
      (helpers : List HelperSite) (seen : List Text) (next : ℕ) {entries : List HelperEntry}
      → helper_entries types seen next helpers ≡ ok entries
      → FreshNames seen helpers
        × All (IsKnownHelper types) helpers
        × (entries ≡ number_helpers next helpers)
  unfolding helper_entries
  helper_entries-Fresh [] seen next h = (tt, tt, ok_injective (sym h))
  helper_entries-Fresh (helper ∷ rest) seen next h =
      let (f, h₁) = refuse-eq-ok (contains seen helper.name) (duplicate_helper helper.name) _ h in
      let (k, h₂) =
        require-eq-ok (contains types helper.type) (unknown_helper_type helper.type) _ h₁ in
      let (more, e, h₃) =
        >>=-eq-ok (helper_entries types (helper.name ∷ seen) (suc next) rest) _ h₂ in
      let (fs, ks, is) = helper_entries-Fresh rest (helper.name ∷ seen) (suc next) e in
      (
        (f, fs),
        (k, ks),
        ok_injective (sym h₃)
            ∙ ap (λ t. record { site_id = next; name = helper.name; type = helper.type } ∷ t) is,
      )

  helper_entries_fresh :
      (helpers : List HelperSite) (seen : List Text) (next : ℕ)
      → FreshNames seen helpers
      → All (IsKnownHelper types) helpers
      → helper_entries types seen next helpers ≡ ok (number_helpers next helpers)
  unfolding helper_entries
  helper_entries_fresh [] seen next f k = refl
  helper_entries_fresh (helper ∷ rest) seen next (f, fs) (k, ks) =
      rw (f, k) (rw (helper_entries_fresh rest (helper.name ∷ seen) (suc next) fs ks))

-- The helpers of a boundary are accepted exactly when no name is repeated and the type of each is one
-- of the policy's, and then they are numbered by consecutive numbers in their order.
pub helper_entries-ok_iff :
    (types : List Text) (next : ℕ) (helpers : List HelperSite) (entries : List HelperEntry)
    → (helper_entries types [] next helpers ≡ ok entries) ↔ (
        FreshNames [] helpers
        × All (IsKnownHelper types) helpers
        × (entries ≡ number_helpers next helpers))
helper_entries-ok_iff types next helpers entries = (
  helper_entries-Fresh types helpers [] next,
  λ (f, k, e). helper_entries_fresh types helpers [] next f k ∙ ap ok (sym e),
)

-- The labels of a helper differ from those of a site.
abbrev pub Apart : Text → HelperEntry → Precise → Type 0
Apart namespace_name e p =
    ((helper_symbols namespace_name e.name e.site_id).0
      ≢ begin_symbol p.allocation.function p.site_id)
    × ((helper_symbols namespace_name e.name e.site_id).1
        ≢ end_symbol p.allocation.function p.site_id)

Apart-of_lt :
    (namespace_name : Text) (e : HelperEntry) (p : Precise)
    → p.site_id < e.site_id
    → Apart namespace_name e p
unfolding helper_symbols begin_symbol end_symbol
Apart-of_lt namespace_name e p h = (
  site_prefix_ne (symbol namespace_name ++ (codes "_" ++ symbol e.name))
      (symbol p.allocation.function) (codes "_begin") e.site_id p.site_id (omega arith),
  site_prefix_ne (symbol namespace_name ++ (codes "_" ++ symbol e.name))
      (symbol p.allocation.function) (codes "_end") e.site_id p.site_id (omega arith),
)

Apart-All :
    (namespace_name : Text) (e : HelperEntry) (low high : ℕ) (precise : List Precise)
    → high ≤ e.site_id
    → All (InRange low high) precise
    → All (Apart namespace_name e) precise
Apart-All namespace_name e low high [] h r = tt
Apart-All namespace_name e low high (p ∷ rest) h r =
    (Apart-of_lt namespace_name e p (omega arith), Apart-All namespace_name e low high rest h r.1)

number_helpers-Apart :
    (namespace_name : Text) (low high : ℕ) (precise : List Precise) (next : ℕ)
    (helpers : List HelperSite)
    → high ≤ next
    → All (InRange low high) precise
    → All (λ e. All (Apart namespace_name e) precise) (number_helpers next helpers)
number_helpers-Apart namespace_name low high precise next [] h r = tt
number_helpers-Apart namespace_name low high precise next (helper ∷ rest) h r =
    let e : HelperEntry = record { site_id = next; name = helper.name; type = helper.type } in
    (
      Apart-All namespace_name e low high precise h r,
      number_helpers-Apart namespace_name low high precise (suc next) rest (omega arith) r,
    )

count_precise-length :
    (next : ℕ) (allocations : List Allocation)
    → length (numbered next allocations) ≡ count_precise allocations
unfolding count_precise numbered
count_precise-length next [] = refl
count_precise-length next (a ∷ rest) =
    ground (arith, count_precise-length next rest, count_precise-length (suc next) rest)

-- In one generated boundary no helper shares a label with a site: the helpers are numbered behind the
-- sites, so the labels differ whatever the namespace, the helpers and the functions are called.
pub helper_entries-Apart :
    (namespace_name : Text) (types : List Text) (allocations : List Allocation)
    (helpers : List HelperSite) {precise : List Precise} {entries : List HelperEntry}
    → number_sites types 1 allocations ≡ ok precise
    → helper_entries types [] (suc (count_precise allocations)) helpers ≡ ok entries
    → All (λ e. All (Apart namespace_name e) precise) entries
helper_entries-Apart namespace_name types allocations helpers {precise} {entries} n e =
    let (_, p) = (number_sites-ok_iff types 1 allocations precise).0 n in
    let (_, _, q) =
      (helper_entries-ok_iff types (suc (count_precise allocations)) helpers entries).0 e in
    subst₂ (λ ps es. All (λ e. All (Apart namespace_name e) ps) es) (sym p) (sym q)
      (number_helpers-Apart namespace_name 1 (1 + length (numbered 1 allocations))
        (numbered 1 allocations) (suc (count_precise allocations)) helpers
        (omega (arith, count_precise-length 1 allocations)) (numbered-InRange 1 allocations))
