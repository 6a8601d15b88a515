-- ===== src/WasmSites/Distinct.antt =====
-- No two records of the wasm2c generator share a number or a name, also across two policies whose
-- bases are far enough apart.
use interspec_typed_allocato.Prelude.{
  ℕ, suc, ◌+◌, ◌≤◌, ◌<◌, ◌≡◌, ◌≢◌, sym, ap, ◌∙◌, List, [], ◌∷◌, arith, Text, length, All, Result,
  ok,
}
use interspec_typed_allocato.Prelude.Integers.{ℤ, pos, pos_part}
use interspec_typed_allocato.Policy.{Allocation, HelperSite}
use interspec_typed_allocato.WasmSites.{SiteRecord, site_records}
use interspec_typed_allocato.WasmSites.Records.{
  IsRecord, AllRecords, site_records-AllRecords, import_name_injective, c_name_injective,
}

-- Two records share neither the number, nor the import, nor the C function.
pub record Differ (r s : SiteRecord) : Type 0 where
  pub sites : r.site_id ≢ s.site_id
  pub imports : r.import_name ≢ s.import_name
  pub functions : r.c_name ≢ s.c_name

abbrev pub PairwiseDiffer : List SiteRecord → Type 0
PairwiseDiffer [] = Unit
PairwiseDiffer (r ∷ rest) = All (Differ r) rest × PairwiseDiffer rest

module _ (namespace_name : Text) (base : ℕ) where
  IsRecord-Differ :
      (i j : ℕ) (r s : SiteRecord)
      → i < j
      → IsRecord namespace_name base i r
      → IsRecord namespace_name base j s
      → Differ r s
  IsRecord-Differ i j r s h p q = record {
    sites = λ e. absurd (omega (arith, p.site_is, q.site_is, e));
    imports = λ e.
        let k =
          import_name_injective namespace_name i j (p.imported ∙ ap {B = Result Text} ok e)
            q.imported in
        absurd (omega arith);
    functions = λ e.
        let k = c_name_injective namespace_name i j (sym p.declared ∙ e ∙ q.declared) in
        absurd (omega arith);
  }

  AllRecords-Differ :
      (i next : ℕ) (r : SiteRecord) (rest : List SiteRecord)
      → i < next
      → IsRecord namespace_name base i r
      → AllRecords namespace_name base next rest
      → All (Differ r) rest
  AllRecords-Differ i next r [] h p q = tt
  AllRecords-Differ i next r (s ∷ rest) h p (q, qs) =
      (IsRecord-Differ i next r s h p q, AllRecords-Differ i (suc next) r rest (omega arith) p qs)

  AllRecords-PairwiseDiffer :
      (next : ℕ) (records : List SiteRecord)
      → AllRecords namespace_name base next records
      → PairwiseDiffer records
  AllRecords-PairwiseDiffer next [] h = tt
  AllRecords-PairwiseDiffer next (r ∷ rest) (p, ps) = (
    AllRecords-Differ next (suc next) r rest (omega arith) p ps,
    AllRecords-PairwiseDiffer (suc next) rest ps,
  )

-- In one generated policy each site has a runtime number, an import and a C function of its own.
pub site_records-PairwiseDiffer :
    (namespace_name : Text) (base : ℤ) (allocations : List Allocation) (helpers : List HelperSite)
    (next : ℕ) {records : List SiteRecord}
    → site_records namespace_name base next allocations helpers ≡ ok records
    → PairwiseDiffer records
site_records-PairwiseDiffer namespace_name base allocations helpers next {records} h =
    AllRecords-PairwiseDiffer namespace_name (pos_part base) next records
      (site_records-AllRecords namespace_name base allocations helpers next h).1

-- The number lies between two bounds, the first one excluded.
abbrev Between : ℕ → ℕ → SiteRecord → Type 0
Between low high r = (low < r.site_id) × (r.site_id ≤ high)

AllRecords-Between :
    (namespace_name : Text) (base next low high : ℕ) (records : List SiteRecord)
    → low < base + next
    → base + next + length records ≤ high + 1
    → AllRecords namespace_name base next records
    → All (Between low high) records
AllRecords-Between namespace_name base next low high [] l h r = tt
AllRecords-Between namespace_name base next low high (r ∷ rest) l h (p, ps) = (
  (omega (arith, p.site_is), omega (arith, p.site_is)),
  AllRecords-Between namespace_name base (suc next) low high rest (omega arith) (omega arith) ps,
)

All-above :
    (n : ℕ) (high : ℕ) (records : List SiteRecord)
    → n ≤ high
    → All (λ (s : SiteRecord). high < s.site_id) records
    → All (λ (s : SiteRecord). n ≢ s.site_id) records
All-above n high [] h a = tt
All-above n high (s ∷ rest) h (a, more) = (omega arith, All-above n high rest h more)

All-lower :
    (low high : ℕ) (records : List SiteRecord)
    → All (Between low high) records
    → All (λ (s : SiteRecord). low < s.site_id) records
All-lower low high [] h = tt
All-lower low high (r ∷ rest) (p, ps) = (p.0, All-lower low high rest ps)

All-apart :
    (low high : ℕ) (records others : List SiteRecord)
    → All (Between low high) records
    → All (λ (s : SiteRecord). high < s.site_id) others
    → All (λ (r : SiteRecord). All (λ (s : SiteRecord). r.site_id ≢ s.site_id) others) records
All-apart low high [] others b a = tt
All-apart low high (r ∷ rest) others (p, ps) a =
    (All-above r.site_id high others p.1 a, All-apart low high rest others ps a)

-- Two policies can be composed: where the base of the second is at least that of the first and the
-- number of its sites together, no number of the one is a number of the other.
pub site_records-apart :
    (n n' : Text) (base base' : ℕ) (sites sites' : List Allocation) (hs hs' : List HelperSite)
    {records records' : List SiteRecord}
    → site_records n (pos base) 1 sites hs ≡ ok records
    → site_records n' (pos base') 1 sites' hs' ≡ ok records'
    → base + length records ≤ base'
    → All (λ (r : SiteRecord). All (λ (s : SiteRecord). r.site_id ≢ s.site_id) records') records
site_records-apart n n' base base' sites sites' hs hs' {records} {records'} h h' far =
    let is = (site_records-AllRecords n (pos base) sites hs 1 h).1 in
    let is' = (site_records-AllRecords n' (pos base') sites' hs' 1 h').1 in
    All-apart base base' records records'
      (AllRecords-Between n base 1 base base' records (omega arith) (omega arith) is)
      (All-lower base' (base' + length records') records' (
        AllRecords-Between n' base' 1 base' (base' + length records') records' (omega arith)
          (omega arith) is'))
