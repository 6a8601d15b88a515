-- ===== src/Registration/Wasm.antt =====
-- A runtime accepts the sites that the WebAssembly generator emits.
use interspec_typed_allocato.Prelude.{
  ℕ, ◌<◌, ◌≡◌, refl, sym, ◌∙◌, subst, Bool, true, none, some, List, [], ◌∷◌, arith, Text, contains,
  All,
}
use interspec_typed_allocato.Hash.{hash_type}
use interspec_typed_allocato.OrderedMap.{find, emplace}
use interspec_typed_allocato.OrderedMap.Laws.{find-emplace}
use interspec_typed_allocato.TypeIds.{Ids, names_of}
use interspec_typed_allocato.WasmSites.{SiteRecord}
use interspec_typed_allocato.WasmSites.Distinct.{Differ, PairwiseDiffer}
use interspec_typed_allocato.Runtime.{Runtime, register_allocation_site_id}
use interspec_typed_allocato.Registration.{register_wasm_sites}
use interspec_typed_allocato.Registration.Constants.{DistinctIdents, constant_found}

-- A site that a runtime does not have.
pub record IsNewSite (r : Runtime) (site : SiteRecord) : Type 0 where
  pub positive : 0 < site.site_id
  pub new : find site.site_id r.site_types ≡ none

abbrev with_site : ℕ → ℕ → Runtime → Runtime
with_site id hash r = record r { site_types = emplace id hash r.site_types }

register_site_new :
    (site : SiteRecord) (id hash : ℕ) (r : Runtime)
    → IsNewSite r site
    → find id r.types ≡ some hash
    → register_allocation_site_id site.site_id id r ≡ (with_site site.site_id hash r, true)
unfolding register_allocation_site_id
register_site_new site id hash r n f = ground (arith, n.positive, n.new, f)

All-with_site :
    (site : SiteRecord) (hash : ℕ) (records : List SiteRecord) (r : Runtime)
    → IsNewSite r site
    → All (IsNewSite r) records
    → All (Differ site) records
    → All (IsNewSite (with_site site.site_id hash r)) records
All-with_site site hash [] r n ns ds = tt
All-with_site site hash (s ∷ records) r n (m, ns) (d, ds) = (
  record {
    positive = m.positive;
    new =
        find-emplace site.site_id s.site_id hash r.site_types n.new
        ∙ ground (arith, m.new, d.sites);
  },
  All-with_site site hash records r n ns ds,
)

-- The types of the records are known.
abbrev pub AllKnown : Ids → List SiteRecord → Type 0
AllKnown ids = All (λ (s : SiteRecord). contains (names_of ids) s.type ≡ true)

abbrev pub AllFound : Ids → Runtime → Type 0
AllFound ids r = All (λ (e : Text × ℕ). find e.1 r.types ≡ some (hash_type e.0)) ids

-- Every site is registered with the hash of its type.
pub record IsRegistered (records : List SiteRecord) (result : Runtime × Bool) : Type 0 where
  pub done : result.1 ≡ true
  pub found :
      All (λ (s : SiteRecord). find s.site_id result.0.site_types ≡ some (hash_type s.type)) records

module _ (ids : Ids) (idents : DistinctIdents (names_of ids)) where
  register_new :
      (site : SiteRecord) (records : List SiteRecord) (r : Runtime)
      → AllFound ids r
      → contains (names_of ids) site.type ≡ true
      → IsNewSite r site
      → register_wasm_sites ids (site ∷ records) r
        ≡ register_wasm_sites ids records (with_site site.site_id (hash_type site.type) r)
  unfolding register_wasm_sites
  register_new site records r f k n =
      let (id, c, h) = constant_found site.type ids r.types idents k f in
      let registered = register_site_new site id (hash_type site.type) r n h in
      rw (c, registered, register_wasm_sites, registered) refl

  wasm_sites-keep :
      (records : List SiteRecord) (r : Runtime) (k h : ℕ)
      → AllFound ids r
      → AllKnown ids records
      → All (IsNewSite r) records
      → PairwiseDiffer records
      → find k r.site_types ≡ some h
      → find k (register_wasm_sites ids records r).0.site_types ≡ some h
  unfolding register_wasm_sites
  wasm_sites-keep [] r k h f ks ns ds e = e
  wasm_sites-keep (s ∷ records) r k h f (known, ks) (n, ns) (d, ds) e =
      rw (register_new s records r f known n) (
        wasm_sites-keep records (with_site s.site_id (hash_type s.type) r) k h f ks
          (All-with_site s (hash_type s.type) records r n ns d) ds
          (find-emplace s.site_id k (hash_type s.type) r.site_types n.new
            ∙ ground (arith, n.new, e)))

  -- New sites of known types, with numbers of their own, are all registered.
  pub wasm_sites-IsRegistered :
      (records : List SiteRecord) (r : Runtime)
      → AllFound ids r
      → AllKnown ids records
      → All (IsNewSite r) records
      → PairwiseDiffer records
      → IsRegistered records (register_wasm_sites ids records r)
  unfolding register_wasm_sites
  wasm_sites-IsRegistered [] r f ks ns ds = record { done = refl; found = tt }
  wasm_sites-IsRegistered (s ∷ records) r f (known, ks) (n, ns) (d, ds) =
      let hash = hash_type s.type in
      let new = All-with_site s hash records r n ns d in
      let rest = wasm_sites-IsRegistered records (with_site s.site_id hash r) f ks new ds in
      let kept =
        wasm_sites-keep records (with_site s.site_id hash r) s.site_id hash f ks new ds
          (find-emplace s.site_id s.site_id hash r.site_types n.new ∙ ground arith) in
      subst (IsRegistered (s ∷ records)) (sym (register_new s records r f known n))
        (record { done = rest.done; found = (kept, rest.found) })
