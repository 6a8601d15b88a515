-- ===== src/Registration/Native.antt =====
-- What the sites of the native header are after their registration.
use interspec_typed_allocato.Prelude.{
  ℕ, suc, ◌≡◌, ◌⊎◌, contains, refl, sym, ap, ◌∙◌, subst, Bool, true, false, ◌||◌, inl, inr, none,
  some, List, [], ◌∷◌, arith, Text, ◌==◌, All, ok, Bool-cases, Option-cases,
}
use interspec_typed_allocato.Hash.{hash_type}
use interspec_typed_allocato.OrderedMap.{find, emplace}
use interspec_typed_allocato.OrderedMap.Laws.{find-emplace}
use interspec_typed_allocato.TypeIds.{Ids, names_of, type_ids}
use interspec_typed_allocato.Sites.{Precise, number_sites}
use interspec_typed_allocato.Instrument.{site_symbols}
use interspec_typed_allocato.Runtime.{
  AllocationSite, Runtime, new_runtime, register_allocation_site,
}
use interspec_typed_allocato.Registration.{
  type_constant, register_types_loop, register_types, register_sites,
}
use interspec_typed_allocato.Registration.Constants.{
  DistinctIdents, defined_once-DistinctIdents, constant-found,
}
use interspec_typed_allocato.Registration.Labels.{
  DistinctSites, WellLaid, WellLaid-registered, none-IsFree, types_loop-sites,
  numbered-DistinctSites,
}
use interspec_typed_allocato.Names.{cpp}
use interspec_typed_allocato.Policy.{Allocation}
use interspec_typed_allocato.Sites.Numbering.{IsKnown, numbered, number_sites-ok_iff}
use interspec_typed_allocato.TypeIds.Numbering.{names_of-enumerate}
use interspec_typed_allocato.TypeIds.Accepted.{type_ids-ok_iff}
use interspec_typed_allocato.Registration.Accepted.{Accepts, register_types-Accepts}
use interspec_typed_allocato.Registration.Wasm.{AllFound}

-- A site that was registered is new, with its begin as its key.
record IsAdded (id begin end type_id hash : ℕ) (r r' : Runtime) : Type 0 where
  new : find begin r.sites ≡ none
  sites_are :
      r'.sites
      ≡ emplace begin
          (record { id = id; begin = begin; end = end; type_id = type_id; type_hash = hash })
          r.sites
  types_kept : r'.types ≡ r.types

site-IsAdded :
    (id begin end type_id hash : ℕ) (r : Runtime)
    → find type_id r.types ≡ some hash
    → (register_allocation_site id begin end type_id r).1 ≡ true
    → IsAdded id begin end type_id hash r (register_allocation_site id begin end type_id r).0
unfolding register_allocation_site
site-IsAdded id begin end type_id hash r f h = record {
  new = ground arith;
  sites_are = ground arith;
  types_kept = ground arith;
}

-- The site of an allocation is registered under the address of its begin label, up to the address of
-- its end label, with its number and the hash of its type.
pub record IsPlaced (resolve : Text → ℕ) (r : Runtime) (p : Precise) : Type 0 where
  pub site : AllocationSite
  pub live : find site.begin r.sites ≡ some site
  pub id_is : site.id ≡ p.site_id
  pub begin_is : site.begin ≡ resolve (site_symbols p.allocation.function p.site_id).0
  pub end_is : site.end ≡ resolve (site_symbols p.allocation.function p.site_id).1
  pub hash_is : site.type_hash ≡ hash_type p.allocation.type

-- The types of the sites are known.
abbrev SitesKnown : Ids → List Precise → Type 0
SitesKnown ids = All (λ (p : Precise). contains (names_of ids) p.allocation.type ≡ true)

module _ (resolve : Text → ℕ) (ids : Ids) (idents : DistinctIdents (names_of ids)) where
  abbrev begin_at : Precise → ℕ
  begin_at p = resolve (site_symbols p.allocation.function p.site_id).0

  abbrev end_at : Precise → ℕ
  end_at p = resolve (site_symbols p.allocation.function p.site_id).1

  -- The step of a site whose registration succeeds.
  record IsStep (p : Precise) (sites : List Precise) (r : Runtime) : Type 0 where
    type_id : ℕ
    next : Runtime
    added : IsAdded p.site_id (begin_at p) (end_at p) type_id (hash_type p.allocation.type) r next
    goes_on : register_sites resolve ids (p ∷ sites) r ≡ register_sites resolve ids sites next

  succeeds-IsStep :
      (p : Precise) (sites : List Precise) (r : Runtime)
      → AllFound ids r
      → contains (names_of ids) p.allocation.type ≡ true
      → (register_sites resolve ids (p ∷ sites) r).1 ≡ true
      → IsStep p sites r
  unfolding register_sites
  succeeds-IsStep p sites r f k h =
      elim (Option-cases (type_constant (cpp p.allocation.type) ids)) [
        | inl n ↦ absurd (let l = rw (n, register_sites) at h in ground arith)
        | inr (id, c) ↦ elim (Bool-cases (begin_at p == 0 || end_at p == 0)) [
          | inl z ↦
              absurd (let l = rw (c, register_sites) at h in let m = rw z at l in ground arith)
          | inr z ↦
              elim (Bool-cases
                (register_allocation_site p.site_id (begin_at p) (end_at p) id r).1) [
                  | inr n ↦ absurd (
                      let l = rw (c, register_sites) at h in let m = rw (z, n) at l in ground arith)
                  | inl y ↦ record {
                    type_id = id;
                    next = (register_allocation_site p.site_id (begin_at p) (end_at p) id r).0;
                    added =
                        site-IsAdded p.site_id (begin_at p) (end_at p) id
                          (hash_type p.allocation.type) r
                          (constant-found p.allocation.type ids r.types id idents k f c) y;
                    goes_on = rw (c, register_sites) (rw (z, y) refl);
                  }
                ]
        ]
      ]

  AllFound-kept :
      (r r' : Runtime) (known : Ids) → r'.types ≡ r.types → AllFound known r → AllFound known r'
  AllFound-kept r r' [] e f = tt
  AllFound-kept r r' ((name, id) ∷ known) e (f, fs) =
      (ap (find id) e ∙ f, AllFound-kept r r' known e fs)

  site-kept :
      (p : Precise) (type_id k : ℕ) (r r' : Runtime) {site : AllocationSite}
      → IsAdded p.site_id (begin_at p) (end_at p) type_id (hash_type p.allocation.type) r r'
      → find k r.sites ≡ some site
      → find k r'.sites ≡ some site
  site-kept p type_id k r r' added e =
      ap (find k) added.sites_are
      ∙ find-emplace (begin_at p) k _ r.sites added.new
      ∙ ground (arith, added.new, e)

  sites-kept :
      (sites : List Precise) (r : Runtime) (k : ℕ) {site : AllocationSite}
      → AllFound ids r
      → SitesKnown ids sites
      → (register_sites resolve ids sites r).1 ≡ true
      → find k r.sites ≡ some site
      → find k (register_sites resolve ids sites r).0.sites ≡ some site
  unfolding register_sites
  sites-kept [] r k f known h e = e
  sites-kept (p ∷ sites) r k {site} f (known, more) h e =
      let s = succeeds-IsStep p sites r f known h in
      subst (λ (t : Runtime × Bool). find k t.0.sites ≡ some site) (sym s.goes_on)
        (sites-kept sites s.next k (AllFound-kept r s.next ids s.added.types_kept f) more
          (ap (λ (t : Runtime × Bool). t.1) (sym s.goes_on) ∙ h)
          (site-kept p s.type_id k r s.next s.added e))

  -- Where the emitted registration of the sites of the native header succeeds, behind that of the
  -- types, every site is registered from the address of its begin label to that of its end label,
  -- with its own number and the hash of its type, whatever addresses the resolver gives.
  pub register_sites-IsPlaced :
      (sites : List Precise) (r : Runtime)
      → AllFound ids r
      → SitesKnown ids sites
      → (register_sites resolve ids sites r).1 ≡ true
      → All (IsPlaced resolve (register_sites resolve ids sites r).0) sites
  unfolding register_sites
  register_sites-IsPlaced [] r f known h = tt
  register_sites-IsPlaced (p ∷ sites) r f (known, more) h =
      let s = succeeds-IsStep p sites r f known h in
      let next_found = AllFound-kept r s.next ids s.added.types_kept f in
      let done = ap (λ (t : Runtime × Bool). t.1) (sym s.goes_on) ∙ h in
      let new : AllocationSite = record {
        id = p.site_id;
        begin = begin_at p;
        end = end_at p;
        type_id = s.type_id;
        type_hash = hash_type p.allocation.type;
      } in
      let found : find (begin_at p) s.next.sites ≡ some new =
        ap (find (begin_at p)) s.added.sites_are
        ∙ find-emplace (begin_at p) (begin_at p) new r.sites s.added.new
        ∙ ground arith in
      subst (λ (t : Runtime × Bool). All (IsPlaced resolve t.0) (p ∷ sites)) (sym s.goes_on)
        (
          record {
            site = new;
            live = sites-kept sites s.next (begin_at p) next_found more done found;
            id_is = refl;
            begin_is = refl;
            end_is = refl;
            hash_is = refl;
          },
          register_sites-IsPlaced sites s.next next_found more done,
        )

true-ne-false : {b : Bool} → b ≡ true → b ≡ false → ⊥
true-ne-false h k = cc

-- The types of the sites that are numbered are those of the policy.
numbered-known :
    (types : List Text) (allocations : List Allocation) (next : ℕ)
    → All (IsKnown types) allocations
    → All (λ (p : Precise). contains types p.allocation.type ≡ true) (numbered next allocations)
unfolding numbered
numbered-known types [] next h = tt
numbered-known types (a ∷ rest) next (k, h) = elim (Option-cases a.site) [
  | inl e ↦ rw (e, numbered) (numbered-known types rest next h)
  | inr (site, e) ↦ rw (e, numbered) (k, numbered-known types rest (suc next) h)
]

-- A policy whose types and sites the native generator has numbered, and no two of whose types have
-- one identifier, at a new runtime: its header defines each constant of a type once, and the types
-- are all accepted, each number for the hash of its type. The registration of its sites then
-- succeeds, and each site has its own number and the hash of its type, from the address of its
-- begin label to that of its end label; it fails only where, by the addresses that the resolver
-- gives, an interval is empty, begins at 0 or shares an address with another one.
pub native_policy-IsPlaced :
    (resolve : Text → ℕ) (types : List Text) (allocations : List Allocation) (ids : Ids)
    (sites : List Precise) (base size : ℕ)
    → type_ids types ≡ ok ids
    → number_sites types 1 allocations ≡ ok sites
    → DistinctIdents types
    → (accepted : Runtime × Bool) × (register_types ids (new_runtime base size) ≡ some accepted)
      × Accepts ids [] accepted
      × (((register_sites resolve ids sites accepted.0).1 ≡ true)
            × All (IsPlaced resolve (register_sites resolve ids sites accepted.0).0) sites
          ⊎ ((register_sites resolve ids sites accepted.0).1 ≡ false) × (¬ WellLaid resolve sites))
unfolding register_types new_runtime
native_policy-IsPlaced resolve types allocations ids sites base size h s d =
    let (_, _, ids_are) = (type_ids-ok_iff types ids).0 h in
    let names_are = ap names_of ids_are ∙ names_of-enumerate 1 types in
    let idents = subst DistinctIdents (sym names_are) d in
    let (known, sites_are) = (number_sites-ok_iff types 1 allocations sites).0 s in
    let of_types =
      subst (All (λ (p : Precise). contains types p.allocation.type ≡ true)) (sym sites_are)
        (numbered-known types allocations 1 known) in
    let all_known =
      subst (λ names. All (λ (p : Precise). contains names p.allocation.type ≡ true) sites)
        (sym names_are) of_types in
    let result = register_types_loop true ids (new_runtime base size) in
    let accepted = register_types-Accepts types ids base size h in
    let (no_sites, no_ids) = types_loop-sites true ids (new_runtime base size) in
    let free = none-IsFree resolve sites result.0 no_sites no_ids accepted.sites_kept in
    let numbers =
      subst DistinctSites (sym sites_are) (numbered-DistinctSites 1 allocations (omega arith)) in
    (
      result,
      rw ((defined_once-DistinctIdents ids).1 idents, register_types) refl,
      accepted,
      elim (Bool-cases (register_sites resolve ids sites result.0).1) [
        | inr n ↦ inr (
          n,
          λ laid.
              true-ne-false
                (WellLaid-registered resolve ids idents sites result.0 accepted.found all_known
                  numbers laid free)
                n,
        )
        | inl y ↦ inl (
          y,
          register_sites-IsPlaced resolve ids idents sites result.0 accepted.found all_known y,
        )
      ],
    )
