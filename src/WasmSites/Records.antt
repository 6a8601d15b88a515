-- ===== src/WasmSites/Records.antt =====
-- The site records of the wasm2c generator: runtime numbers within `uint32_t`, and names that
-- differ from site to site.
use mathlib.Core.List.{append_cancel_left}
use mathlib.Core.Option.{some-ne-none}
use interspec_typed_allocato.Prelude.{
  ℕ, suc, ◌+◌, ◌^◌, ◌<◌, ◌≡◌, ◌≢◌, refl, sym, ap, ap₂, ◌∙◌, subst, false, ◌||◌, inl, inr, Option,
  none, some, List, [], ◌∷◌, ◌++◌, map, arith, Text, codes, All, contains, decimal, ltb, ltb→ge,
  or_false, ◌==◌, Option-cases, Error, bad_site_base, site_id_overflow, duplicate_helper, ok, err,
  refuse-eq-ok, >>=-eq-ok,
}
use interspec_typed_allocato.Prelude.Integers.{ℤ, pos, negsuc, pos_part}
use interspec_typed_allocato.Names.Decimal.{decimal_injective}
use interspec_typed_allocato.Policy.{Allocation, HelperSite}
use interspec_typed_allocato.WasmSites.{
  max_site_id, site_import_name, import_stem, c_stem, site_c_name, runtime_site_id, SiteRecord,
  site_record, helper_records, site_records,
}

ok_injective {ℓ} : {A : Type ℓ} {x y : A} → ok x ≡ ok y → x ≡ y
ok_injective {x} {y} h = ap (λ r. elim r [ ok a ↦ a | err _ ↦ x ]) h

err-ne-ok {ℓ} : {A : Type ℓ} {e : Error} {x : A} → err e ≢ ok x
err-ne-ok h = cc

positive : (n : ℕ) → (n == 0) ≡ false → 0 < n
positive n h = ground arith

-- A runtime number is the base and the local number together, and it fits `uint32_t` and is not 0.
runtime_site_id-lt :
    (base : ℤ) (local_site_id : ℕ) {site_id : ℕ}
    → runtime_site_id base local_site_id ≡ ok site_id
    → (b : ℕ) × (base ≡ pos b) × (site_id ≡ b + local_site_id) × (0 < site_id) × (site_id < 2 ^ 32)
unfolding runtime_site_id
runtime_site_id-lt (negsuc n) local_site_id h = cc
runtime_site_id-lt (pos b) local_site_id h =
    let (t, h₁) = refuse-eq-ok (ltb max_site_id b) bad_site_base _ h in
    let (t', h₂) =
      refuse-eq-ok ((b + local_site_id) == 0 || ltb max_site_id (b + local_site_id))
        site_id_overflow _ h₁ in
    let (z, m) = or_false ((b + local_site_id) == 0) (ltb max_site_id (b + local_site_id)) t' in
    let e = ok_injective h₂ in
    (
      b,
      refl,
      sym e,
      subst (λ n. 0 < n) e (positive (b + local_site_id) z),
      omega (arith, ltb→ge max_site_id (b + local_site_id) m, e),
    )

pub import_name_injective :
    (namespace_name : Text) (i j : ℕ) {name : Text}
    → site_import_name namespace_name i ≡ ok name
    → site_import_name namespace_name j ≡ ok name
    → i ≡ j
unfolding site_import_name
import_name_injective namespace_name i j h k =
    let (s, e, h₁) = >>=-eq-ok (import_stem namespace_name) _ h in
    let (t, e', k₁) = >>=-eq-ok (import_stem namespace_name) _ k in
    let stems : s ≡ t = ok_injective (sym e ∙ e') in
    let names = ok_injective h₁ ∙ sym (ok_injective k₁) in
    decimal_injective i j (
      append_cancel_left (codes "Site") _ _ (
        append_cancel_left s _ _ (
          append_cancel_left (codes "interspecWasmAlloc") _ _ (
            names
            ∙ ap (λ u. codes "interspecWasmAlloc" ++ (u ++ (codes "Site" ++ decimal j)))
                (sym stems)))))

pub c_name_injective :
    (namespace_name : Text) (i j : ℕ)
    → site_c_name namespace_name i ≡ site_c_name namespace_name j
    → i ≡ j
unfolding site_c_name
c_name_injective namespace_name i j h = decimal_injective i j (
    append_cancel_left (codes "_site_") _ _ (
      append_cancel_left (c_stem namespace_name) _ _
        (append_cancel_left (codes "interspec_wasm_alloc_") _ _ h)))

-- The record of the site with this local number.
pub record IsRecord (namespace_name : Text) (base local_site_id : ℕ) (r : SiteRecord) : Type 0 where
  pub local_is : r.local_site_id ≡ local_site_id
  pub site_is : r.site_id ≡ base + local_site_id
  pub positive_id : 0 < r.site_id
  pub fits : r.site_id < 2 ^ 32
  pub imported : site_import_name namespace_name local_site_id ≡ ok r.import_name
  pub declared : r.c_name ≡ site_c_name namespace_name local_site_id

abbrev pub AllRecords : Text → ℕ → ℕ → List SiteRecord → Type 0
AllRecords namespace_name base next [] = Unit
AllRecords namespace_name base next (r ∷ rest) =
    IsRecord namespace_name base next r × AllRecords namespace_name base (suc next) rest

abbrev pub HasSite : Allocation → Type 0
HasSite a = a.site ≢ none

abbrev pub types_of : List SiteRecord → List Text
types_of = map (λ (r : SiteRecord). r.type)

abbrev pub expected_types : List Allocation → List HelperSite → List Text
expected_types allocations helpers =
    map (λ (a : Allocation). a.type) allocations ++ map (λ (h : HelperSite). h.type) helpers

module _ (namespace_name : Text) (base : ℤ) where
  site_record-IsRecord :
      (local_site_id : ℕ) (type_name : Text) (helper_name : Option Text) {r : SiteRecord}
      → site_record namespace_name base local_site_id type_name helper_name ≡ ok r
      → IsRecord namespace_name (pos_part base) local_site_id r × (r.type ≡ type_name)
  unfolding site_record
  site_record-IsRecord local_site_id type_name helper_name {r} h =
      let (site_id, e, h₁) = >>=-eq-ok (runtime_site_id base local_site_id) _ h in
      let (import_name, i, h₂) = >>=-eq-ok (site_import_name namespace_name local_site_id) _ h₁ in
      let (b, is_pos, sum, p, f) = runtime_site_id-lt base local_site_id e in
      let made = ok_injective h₂ in
      subst (λ s. IsRecord namespace_name (pos_part base) local_site_id s × (s.type ≡ type_name))
        made
        (
          record {
            local_is = refl;
            site_is = sum ∙ ap (λ z. pos_part z + local_site_id) (sym is_pos);
            positive_id = p;
            fits = f;
            imported = i;
            declared = refl;
          },
          refl,
        )

  helper_records-AllRecords :
      (helpers : List HelperSite) (seen : List Text) (next : ℕ) {records : List SiteRecord}
      → helper_records namespace_name base seen next helpers ≡ ok records
      → AllRecords namespace_name (pos_part base) next records
        × (types_of records ≡ map (λ (h : HelperSite). h.type) helpers)
  unfolding helper_records
  helper_records-AllRecords [] seen next h =
      subst (λ rs. AllRecords namespace_name (pos_part base) next rs × (types_of rs ≡ []))
        (ok_injective h) (tt, refl)
  helper_records-AllRecords (helper ∷ rest) seen next h =
      let (f, h₁) = refuse-eq-ok (contains seen helper.name) (duplicate_helper helper.name) _ h in
      let (r, e, h₂) =
        >>=-eq-ok (site_record namespace_name base next helper.type (some helper.name)) _ h₁ in
      let (more, e', h₃) =
        >>=-eq-ok (helper_records namespace_name base (helper.name ∷ seen) (suc next) rest) _ h₂ in
      let (i, t) = site_record-IsRecord next helper.type (some helper.name) e in
      let (is, ts) = helper_records-AllRecords rest (helper.name ∷ seen) (suc next) e' in
      subst
        (λ rs.
          AllRecords namespace_name (pos_part base) next rs
          × (types_of rs ≡ map (λ (h : HelperSite). h.type) (helper ∷ rest)))
        (ok_injective h₃) ((i, is), ap₂ (◌∷◌) t ts)

  -- Where the generator succeeds, every allocation has a site, the records are those of the
  -- allocations and then of the helpers, in their order and with their types, and the local numbers
  -- are consecutive. Each runtime number is the base and the local number together, is not 0 and fits
  -- `uint32_t`, and the names are those of the local number.
  pub site_records-AllRecords :
      (allocations : List Allocation) (helpers : List HelperSite) (next : ℕ)
      {records : List SiteRecord}
      → site_records namespace_name base next allocations helpers ≡ ok records
      → All HasSite allocations
        × AllRecords namespace_name (pos_part base) next records
        × (types_of records ≡ expected_types allocations helpers)
  unfolding site_records
  site_records-AllRecords [] helpers next h =
      let (is, ts) = helper_records-AllRecords helpers [] next h in (tt, is, ts)
  site_records-AllRecords (a ∷ rest) helpers next {records} h = elim (Option-cases a.site) [
    | inl e ↦ absurd (err-ne-ok (rw e at h))
    | inr (site, e) ↦
        let (r, e₁, h₂) =
          >>=-eq-ok (site_record namespace_name base next a.type none) _ (rw e at h) in
        let (more, e₂, h₃) =
          >>=-eq-ok (site_records namespace_name base (suc next) rest helpers) _ h₂ in
        let (i, t) = site_record-IsRecord next a.type none e₁ in
        let (ss, is, ts) = site_records-AllRecords rest helpers (suc next) e₂ in
        subst
          (λ rs.
            All HasSite (a ∷ rest)
            × AllRecords namespace_name (pos_part base) next rs
            × (types_of rs ≡ expected_types (a ∷ rest) helpers))
          (ok_injective h₃) ((λ n. some-ne-none site (sym e ∙ n), ss), (i, is), ap₂ (◌∷◌) t ts)
  ]
