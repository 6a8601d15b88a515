-- ===== src/Runtime/Memory/Steps.antt =====
-- Every call keeps the sites of the code apart.
use interspec_typed_allocato.Prelude.{
  ℕ, ◌+◌, ◌≤◌, ◌<◌, ◌≡◌, sym, subst, Bool, false, ◌||◌, inl, inr, Option, none, some, List, arith,
  leb, ◌==◌, if◌then◌else◌, Bool-cases, Option-cases,
}
use interspec_typed_allocato.OrderedMap.{find, emplace, from_bound, before_bound}
use interspec_typed_allocato.OrderedMap.Intervals.{AllOf, Packed, emplace-Packed, Packed-raise}
use interspec_typed_allocato.Runtime.{
  AllocationSite, Runtime, is_some, register_type, register_allocation_site_id, overlaps_next,
  overlaps_previous, register_allocation_site, allocate_with_hash,
}
use interspec_typed_allocato.Runtime.Memory.{
  find_site, allocate, allocate_from_site, allocate_from_pc, release, reallocate,
  replace_allocation, Call, registers_type, registers_site_id, registers_site, allocates,
  allocates_from_site, allocates_from_pc, releases, reallocates, step,
}

abbrev pub site_begin : AllocationSite → ℕ
site_begin s = s.begin

abbrev pub site_end : AllocationSite → ℕ
site_end s = s.end

-- The sites lie one behind the other in the code, from address 1 on.
abbrev pub SitesPacked : List (ℕ × AllocationSite) → Type 0
SitesPacked sites = (last : ℕ) × Packed site_begin site_end 1 sites last

allocate_with_hash-sites :
    (size hash site_id : ℕ) (r : Runtime)
    → (allocate_with_hash size hash site_id r).0.sites ≡ r.sites
unfolding allocate_with_hash
allocate_with_hash-sites size hash site_id r = ground arith

replace_allocation-sites :
    (ptr : ℕ) (result : Runtime × ℕ) → (replace_allocation ptr result).0.sites ≡ result.0.sites
replace_allocation-sites ptr (r, replacement) = ground arith

next_apart :
    (end : ℕ) (o : Option AllocationSite)
    → overlaps_next end o ≡ false
    → AllOf (λ n. end ≤ site_begin n) o
next_apart end none h = tt
next_apart end (some n) h = ground arith

previous_apart :
    (begin : ℕ) (o : Option AllocationSite)
    → overlaps_previous begin o ≡ false
    → AllOf (λ n. site_end n ≤ begin) o
previous_apart begin none h = tt
previous_apart begin (some n) h = ground arith

-- A site between its neighbours.
emplace-SitesPacked :
    (site : AllocationSite) (sites : List (ℕ × AllocationSite))
    → SitesPacked sites
    → 0 < site.begin
    → site.begin < site.end
    → overlaps_next site.end (from_bound site.begin sites) ≡ false
    → overlaps_previous site.begin (before_bound site.begin sites) ≡ false
    → SitesPacked (emplace site.begin site sites)
emplace-SitesPacked site sites (last, packed) positive nonempty next previous = (
  last + site.end,
  emplace-Packed site_begin site_end 1 (last + site.end) site sites
      (Packed-raise site_begin site_end 1 last _ sites (omega arith) packed) positive nonempty
      (omega arith) (next_apart site.end (from_bound site.begin sites) next)
      (previous_apart site.begin (before_bound site.begin sites) previous),
)

register_site-SitesPacked :
    (id begin end type_id : ℕ) (r : Runtime)
    → SitesPacked r.sites
    → SitesPacked (register_allocation_site id begin end type_id r).0.sites
unfolding register_allocation_site
register_site-SitesPacked id begin end type_id r packed =
    elim (Option-cases (find type_id r.types)) [
      | inl n ↦ rw (n, register_allocation_site) packed
      | inr (hash, s) ↦
          rw (s, register_allocation_site)
            (elim (Bool-cases refused) [
              | inl t ↦ rw t packed
              | inr f ↦ rw f (elim (Bool-cases overlapping) [
                | inl t ↦ rw t packed
                | inr g ↦ rw g (
                    emplace-SitesPacked
                      (record {
                        id = id;
                        begin = begin;
                        end = end;
                        type_id = type_id;
                        type_hash = hash;
                      })
                      r.sites packed (ground arith) (ground arith) (ground arith) (ground arith))
              ])
            ])
    ]
  where
    refused : Bool
    refused =
        id == 0
        || begin == 0
        || leb end begin
        || is_some (find id r.sites_by_id)
        || is_some (find id r.site_types)

    overlapping : Bool
    overlapping =
        overlaps_next end (from_bound begin r.sites)
        || overlaps_previous begin (before_bound begin r.sites)
        || is_some (find begin r.sites)

-- The sites of a result are those before the call.
abbrev SameSites : Runtime → Runtime → Type 0
SameSites r r' = r'.sites ≡ r.sites

sized_allocate-sites :
    (size hash site_id : ℕ) (r : Runtime)
    → SameSites r (if size == 0 then (r, 0) else allocate_with_hash size hash site_id r).0
sized_allocate-sites size hash site_id r =
    ground (arith, allocate_with_hash-sites size hash site_id r)

allocate-sites : (size type_id : ℕ) (r : Runtime) → SameSites r (allocate size type_id r).0
unfolding allocate
allocate-sites size type_id r = elim (Option-cases (find type_id r.types)) [
  | inl n ↦ rw (n, allocate)
  | inr (hash, s) ↦ rw (s, allocate) (sized_allocate-sites size hash 0 r)
]

allocate_from_site-sites :
    (size site_id : ℕ) (r : Runtime) → SameSites r (allocate_from_site size site_id r).0
unfolding allocate_from_site
allocate_from_site-sites size site_id r = elim (Option-cases (find site_id r.site_types)) [
  | inl n ↦ rw (n, allocate_from_site)
  | inr (hash, s) ↦ rw (s, allocate_from_site) (sized_allocate-sites size hash site_id r)
]

allocate_from_pc-sites : (size pc : ℕ) (r : Runtime) → SameSites r (allocate_from_pc size pc r).0
unfolding allocate_from_pc
allocate_from_pc-sites size pc r = elim (Option-cases (find_site pc r)) [
  | inl n ↦ rw (n, allocate_from_pc)
  | inr (site, s) ↦ rw (s, allocate_from_pc) (sized_allocate-sites size site.type_hash site.id r)
]

release-sites : (ptr : ℕ) (r : Runtime) → SameSites r (release ptr r).0
unfolding release
release-sites ptr r = ground arith

reallocate-sites : (ptr size : ℕ) (r : Runtime) → SameSites r (reallocate ptr size r).0
unfolding reallocate
reallocate-sites ptr size r = elim (Option-cases (find ptr r.allocations)) [
  | inl n ↦ rw (n, reallocate)
  | inr (old, s) ↦
      rw (s, reallocate)
        (ground (
          arith,
          allocate_with_hash-sites size old.type_hash old.site_id r,
          replace_allocation-sites ptr (allocate_with_hash size old.type_hash old.site_id r),
        ))
]

pub step-SitesPacked :
    (call : Call) (r : Runtime) → SitesPacked r.sites → SitesPacked (step call r).sites
unfolding step
step-SitesPacked (registers_type id hash) r v = unfold register_type in ground arith
step-SitesPacked (registers_site_id id type_id) r v =
    unfold register_allocation_site_id in ground arith
step-SitesPacked (registers_site id begin end type_id) r v =
    register_site-SitesPacked id begin end type_id r v
step-SitesPacked (allocates size type_id) r v =
    subst SitesPacked (sym (allocate-sites size type_id r)) v
step-SitesPacked (allocates_from_site size site_id) r v =
    subst SitesPacked (sym (allocate_from_site-sites size site_id r)) v
step-SitesPacked (allocates_from_pc size pc) r v =
    subst SitesPacked (sym (allocate_from_pc-sites size pc r)) v
step-SitesPacked (releases ptr) r v = subst SitesPacked (sym (release-sites ptr r)) v
step-SitesPacked (reallocates ptr new_size) r v =
    subst SitesPacked (sym (reallocate-sites ptr new_size r)) v
