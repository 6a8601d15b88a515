-- ===== src/Registration/Labels.antt =====
-- The sites of the native header whose labels lie apart are all registered.
use interspec_typed_allocato.Prelude.{
  ℕ, suc, ◌≤◌, ◌<◌, ◌≡◌, ◌≢◌, ◌⊎◌, refl, sym, ap, ◌∙◌, subst, Bool, true, false, ◌&&◌, ◌||◌, inl,
  inr, none, some, List, [], ◌∷◌, arith, Text, ◌==◌, ltb, contains, All, Bool-cases, Option-cases,
}
use interspec_typed_allocato.Hash.{hash_type}
use interspec_typed_allocato.OrderedMap.{find, emplace, from_bound, before_bound}
use interspec_typed_allocato.OrderedMap.Laws.{find-emplace}
use interspec_typed_allocato.TypeIds.{Ids, names_of}
use interspec_typed_allocato.Policy.{Allocation}
use interspec_typed_allocato.Sites.{Precise}
use interspec_typed_allocato.Sites.Numbering.{numbered, InRange, numbered-InRange}
use interspec_typed_allocato.Instrument.{site_symbols}
use interspec_typed_allocato.Runtime.{
  AllocationSite, Runtime, register_type, register_allocation_site, overlaps_next,
  overlaps_previous,
}
use interspec_typed_allocato.Registration.{register_types_loop, register_sites}
use interspec_typed_allocato.Registration.Constants.{DistinctIdents, constant_found}
use interspec_typed_allocato.Registration.Wasm.{AllFound}

module _ {V : Type 0} (P : ℕ × V → Type 0) where
  All-emplace : (k : ℕ) (v : V) (m : List (ℕ × V)) → P (k, v) → All P m → All P (emplace k v m)
  unfolding emplace
  All-emplace k v [] p h = (p, tt)
  All-emplace k v ((j, w) ∷ m) p (q, h) = elim (Bool-cases (ltb k j)) [
    | inl t ↦ rw (t, emplace) (p, (q, h))
    | inr f ↦ elim (Bool-cases (j == k)) [
      | inl e ↦ rw (f, e, emplace) (q, h)
      | inr n ↦ rw (f, n, emplace) (q, All-emplace k v m p h)
    ]
  ]

-- Two intervals that share no address.
abbrev pub Apart : ℕ → ℕ → ℕ → ℕ → Type 0
Apart begin end other_begin other_end = (end ≤ other_begin) ⊎ (other_end ≤ begin)

-- A registered site, under its begin and not empty, that lies apart from an interval.
pub record IsClear (begin end : ℕ) (e : ℕ × AllocationSite) : Type 0 where
  pub key_is : e.0 ≡ e.1.begin
  pub filled : e.1.begin < e.1.end
  pub apart : Apart begin end e.1.begin e.1.end

module _ (begin end : ℕ) (positive : begin < end) where
  next-clear :
      (m : List (ℕ × AllocationSite))
      → All (IsClear begin end) m
      → overlaps_next end (from_bound begin m) ≡ false
  unfolding from_bound
  next-clear [] h = refl
  next-clear ((j, v) ∷ m) (c, h) = elim (Bool-cases (ltb j begin)) [
    | inl t ↦ rw (t, from_bound) (next-clear m h)
    | inr f ↦
        rw (f, from_bound)
          (elim c.apart [
            | inl a ↦ ground (arith, c.key_is, c.filled)
            | inr a ↦ ground (arith, c.key_is, c.filled)
          ])
  ]

  previous-clear :
      (m : List (ℕ × AllocationSite))
      → All (IsClear begin end) m
      → overlaps_previous begin (before_bound begin m) ≡ false
  unfolding before_bound
  previous-clear [] h = refl
  previous-clear ((j, v) ∷ m) (c, h) = elim (Bool-cases (ltb j begin)) [
    | inr f ↦ rw (f, before_bound) refl
    | inl t ↦ elim (Option-cases (before_bound begin m)) [
      | inr (u, s) ↦ rw (t, s, before_bound) (rw s at (previous-clear m h))
      | inl n ↦
          rw (t, n, before_bound)
            (elim c.apart [
              | inl a ↦ ground (arith, c.key_is, c.filled)
              | inr a ↦ ground (arith, c.key_is, c.filled)
            ])
    ]
  ]

  find-clear : (m : List (ℕ × AllocationSite)) → All (IsClear begin end) m → find begin m ≡ none
  unfolding find
  find-clear [] h = refl
  find-clear ((j, v) ∷ m) (c, h) = elim (Bool-cases (j == begin)) [
    | inr n ↦ rw (n, find) (find-clear m h)
    | inl e ↦ absurd (elim c.apart [
      | inl a ↦ ground (arith, c.key_is, c.filled)
      | inr a ↦ ground (arith, c.key_is, c.filled)
    ])
  ]

-- The sites have numbers of their own, none of them 0.
abbrev pub DistinctSites : List Precise → Type 0
DistinctSites [] = Unit
DistinctSites (p ∷ sites) =
    (0 < p.site_id) × All (λ (q : Precise). p.site_id ≢ q.site_id) sites × DistinctSites sites

module _ (resolve : Text → ℕ) where
  -- The addresses of the labels of a site.
  abbrev pub begin_of : Precise → ℕ
  begin_of p = resolve (site_symbols p.allocation.function p.site_id).0

  abbrev pub end_of : Precise → ℕ
  end_of p = resolve (site_symbols p.allocation.function p.site_id).1

  -- The labels of each site are those of an interval that is not empty and does not begin at 0, and no
  -- two of the intervals share an address.
  abbrev pub WellLaid : List Precise → Type 0
  WellLaid [] = Unit
  WellLaid (p ∷ sites) =
      (0 < begin_of p)
      × (begin_of p < end_of p)
      × All (λ (q : Precise). Apart (begin_of p) (end_of p) (begin_of q) (end_of q)) sites
      × WellLaid sites

  -- A site that the runtime can take.
  pub record IsFree (r : Runtime) (p : Precise) : Type 0 where
    pub clear : All (IsClear (begin_of p) (end_of p)) r.sites
    pub new_id : find p.site_id r.sites_by_id ≡ none
    pub new_type : find p.site_id r.site_types ≡ none

  abbrev with_native : Precise → ℕ → Runtime → Runtime
  with_native p type_id r = record r {
    sites =
        emplace (begin_of p)
          (record {
            id = p.site_id;
            begin = begin_of p;
            end = end_of p;
            type_id = type_id;
            type_hash = hash_type p.allocation.type;
          })
          r.sites;
    sites_by_id = emplace p.site_id (begin_of p) r.sites_by_id;
    site_types = emplace p.site_id (hash_type p.allocation.type) r.site_types;
  }

  register_free :
      (p : Precise) (type_id : ℕ) (r : Runtime)
      → 0 < p.site_id
      → 0 < begin_of p
      → begin_of p < end_of p
      → IsFree r p
      → find type_id r.types ≡ some (hash_type p.allocation.type)
      → register_allocation_site p.site_id (begin_of p) (end_of p) type_id r
        ≡ (with_native p type_id r, true)
  unfolding register_allocation_site
  register_free p type_id r n b e free f = ground (
    arith,
    free.new_id,
    free.new_type,
    next-clear (begin_of p) (end_of p) e r.sites free.clear,
    previous-clear (begin_of p) (end_of p) e r.sites free.clear,
    find-clear (begin_of p) (end_of p) e r.sites free.clear,
  )

  IsFree-with_native :
      (p q : Precise) (type_id : ℕ) (r : Runtime)
      → begin_of p < end_of p
      → Apart (begin_of p) (end_of p) (begin_of q) (end_of q)
      → p.site_id ≢ q.site_id
      → IsFree r p
      → IsFree r q
      → IsFree (with_native p type_id r) q
  IsFree-with_native p q type_id r e a n free other = record {
    clear =
        All-emplace (IsClear (begin_of q) (end_of q)) (begin_of p) _ r.sites
          (record { key_is = refl; filled = e; apart = turned a }) other.clear;
    new_id =
        find-emplace p.site_id q.site_id (begin_of p) r.sites_by_id free.new_id
        ∙ ground (arith, other.new_id, n);
    new_type =
        find-emplace p.site_id q.site_id (hash_type p.allocation.type) r.site_types free.new_type
        ∙ ground (arith, other.new_type, n);
  }
    where
      turned :
          Apart (begin_of p) (end_of p) (begin_of q) (end_of q)
          → Apart (begin_of q) (end_of q) (begin_of p) (end_of p)
      turned (inl h) = inr h
      turned (inr h) = inl h

  All-with_native :
      (p : Precise) (sites : List Precise) (type_id : ℕ) (r : Runtime)
      → begin_of p < end_of p
      → All (λ (q : Precise). Apart (begin_of p) (end_of p) (begin_of q) (end_of q)) sites
      → All (λ (q : Precise). p.site_id ≢ q.site_id) sites
      → IsFree r p
      → All (IsFree r) sites
      → All (IsFree (with_native p type_id r)) sites
  All-with_native p [] type_id r e a n free others = tt
  All-with_native p (q ∷ sites) type_id r e (a, more) (n, ns) free (other, others) = (
    IsFree-with_native p q type_id r e a n free other,
    All-with_native p sites type_id r e more ns free others,
  )

  module _ (ids : Ids) (idents : DistinctIdents (names_of ids)) where
    -- Sites that can be taken, at addresses that lie apart, are all registered.
    pub WellLaid-registered :
        (sites : List Precise) (r : Runtime)
        → AllFound ids r
        → All (λ (p : Precise). contains (names_of ids) p.allocation.type ≡ true) sites
        → DistinctSites sites
        → WellLaid sites
        → All (IsFree r) sites
        → (register_sites resolve ids sites r).1 ≡ true
    unfolding register_sites
    WellLaid-registered [] r found known numbers laid free = refl
    WellLaid-registered (p ∷ sites) r found (k, known) (n, ns, numbers) (b, e, a, laid)
          (free, others) =
        let (id, c, f) = constant_found p.allocation.type ids r.types idents k found in
        let taken = register_free p id r n b e free f in
        let no_zero : (begin_of p == 0 || end_of p == 0) ≡ false = ground (arith, b, e) in
        let taken_ok = ap (λ (t : Runtime × Bool). t.1) taken in
        let step : register_sites resolve ids (p ∷ sites) r
            ≡ register_sites resolve ids sites
                (register_allocation_site p.site_id (begin_of p) (end_of p) id r).0 =
          rw (c, register_sites) (rw (no_zero, taken_ok) refl) in
        let next = ap (λ (t : Runtime × Bool). register_sites resolve ids sites t.0) taken in
        ap (λ (t : Runtime × Bool). t.1) (step ∙ next)
        ∙ WellLaid-registered sites (with_native p id r) found known numbers laid
            (All-with_native p sites id r e a ns free others)

  -- Without any site, all can be taken.
  pub none-IsFree :
      (sites : List Precise) (r : Runtime)
      → r.sites ≡ []
      → r.sites_by_id ≡ []
      → r.site_types ≡ []
      → All (IsFree r) sites
  unfolding find
  none-IsFree [] r a b c = tt
  none-IsFree (p ∷ sites) r a b c = (
    record {
      clear = subst (All (IsClear (begin_of p) (end_of p))) (sym a) tt;
      new_id = ap (find p.site_id) b;
      new_type = ap (find p.site_id) c;
    },
    none-IsFree sites r a b c,
  )

register_type-sites :
    (id hash : ℕ) (r : Runtime)
    → ((register_type id hash r).0.sites ≡ r.sites)
      × ((register_type id hash r).0.sites_by_id ≡ r.sites_by_id)
unfolding register_type
register_type-sites id hash r = (ground arith, ground arith)

-- The types leave the sites alone.
pub types_loop-sites :
    (done : Bool) (ids : Ids) (r : Runtime)
    → ((register_types_loop done ids r).0.sites ≡ r.sites)
      × ((register_types_loop done ids r).0.sites_by_id ≡ r.sites_by_id)
unfolding register_types_loop
types_loop-sites done [] r = (refl, refl)
types_loop-sites done ((name, id) ∷ ids) r =
    let (a, b) = types_loop-sites (done_after && done) ids next in (a ∙ one_type.0, b ∙ one_type.1)
  where
    next : Runtime
    next = (register_type id (hash_type name) r).0

    done_after : Bool
    done_after = (register_type id (hash_type name) r).1

    one_type : (next.sites ≡ r.sites) × (next.sites_by_id ≡ r.sites_by_id)
    one_type = register_type-sites id (hash_type name) r

above-ne :
    (p : Precise) (low high : ℕ) (sites : List Precise)
    → p.site_id < low
    → All (InRange low high) sites
    → All (λ (q : Precise). p.site_id ≢ q.site_id) sites
above-ne p low high [] l h = tt
above-ne p low high (q ∷ sites) l (i, h) = (λ e. omega (arith, e), above-ne p low high sites l h)

pub numbered-DistinctSites :
    (next : ℕ) (allocations : List Allocation)
    → 0 < next
    → DistinctSites (numbered next allocations)
unfolding numbered
numbered-DistinctSites next [] l = tt
numbered-DistinctSites next (a ∷ rest) l = elim (Option-cases a.site) [
  | inl e ↦ rw (e, numbered) (numbered-DistinctSites next rest l)
  | inr (site, e) ↦
      rw (e, numbered)
        (
          l,
          above-ne (record { allocation = a; site = site; site_id = next }) (suc next) _
              (numbered (suc next) rest) (omega arith) (numbered-InRange (suc next) rest),
          numbered-DistinctSites (suc next) rest (omega arith),
        )
]
