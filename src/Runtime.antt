-- ===== src/Runtime.antt =====
-- Class `Runtime` of include/interspec/runtime.h, which T keeps: the types, the allocation sites and
-- the live allocations of an arena. `uintptr_t` and `size_t` have 64 bits. A call takes the lock for
-- its whole length, so that calls come one after the other.
pub mod Memory
use interspec_typed_allocato.Prelude.{
  ℕ, suc, ◌+◌, ◌-◌, ◌/◌, ◌%◌, ◌*◌, ◌^◌, Bool, true, false, ◌||◌, ◌&&◌, not, Option, none, some,
  List, [], ◌∷◌, ltb, leb, ◌==◌, if◌then◌else◌,
}
use interspec_typed_allocato.OrderedMap.{find, emplace, erase, from_bound, before_bound}

abbrev pub max_word : ℕ
max_word = 2 ^ 64 - 1

pub record Allocation : Type 0 where
  pub base : ℕ
  pub size : ℕ
  pub type_hash : ℕ
  pub site_id : ℕ

pub record AllocationSite : Type 0 where
  pub id : ℕ
  pub begin : ℕ
  pub end : ℕ
  pub type_id : ℕ
  pub type_hash : ℕ

-- `CheckResult::ok` is `accepted`.
pub data CheckResult : Type 0 where
  accepted untracked wrong_type out_of_bounds : CheckResult

pub record Runtime : Type 0 where
  pub base : ℕ
  pub capacity : ℕ
  pub arena_valid : Bool
  pub used : ℕ
  pub types : List (ℕ × ℕ)
  pub type_ids : List (ℕ × ℕ)
  pub sites : List (ℕ × AllocationSite)
  pub sites_by_id : List (ℕ × ℕ)
  pub site_types : List (ℕ × ℕ)
  pub allocations : List (ℕ × Allocation)

unfoldable pub new_runtime : ℕ → ℕ → Runtime
new_runtime arena_base arena_size = record {
  base = arena_base;
  capacity = arena_size;
  arena_valid = leb arena_size (max_word - arena_base);
  used = 0;
  types = [];
  type_ids = [];
  sites = [];
  sites_by_id = [];
  site_types = [];
  allocations = [];
}

abbrev pub is_some : {A : Type 0} → Option A → Bool
is_some none = false
is_some (some a) = true

unfoldable pub register_type : ℕ → ℕ → Runtime → Runtime × Bool
unfolding find emplace
register_type id hash r =
    if id == 0 || is_some (find id r.types) || is_some (find hash r.type_ids)
    then (r, false)
    else (record r { types = emplace id hash r.types; type_ids = emplace hash id r.type_ids }, true)

unfoldable pub register_allocation_site_id : ℕ → ℕ → Runtime → Runtime × Bool
unfolding find emplace
register_allocation_site_id id type_id r = elim (find type_id r.types) [
  | none ↦ (r, false)
  | some hash ↦
      if id == 0 || is_some (find id r.site_types)
      then (r, false)
      else (record r { site_types = emplace id hash r.site_types }, true)
]

-- Does the next site begin before the end, or the one in front end behind the begin?
abbrev pub overlaps_next : ℕ → Option AllocationSite → Bool
overlaps_next end none = false
overlaps_next end (some site) = ltb site.begin end

abbrev pub overlaps_previous : ℕ → Option AllocationSite → Bool
overlaps_previous begin none = false
overlaps_previous begin (some site) = ltb begin site.end

unfoldable pub register_allocation_site : ℕ → ℕ → ℕ → ℕ → Runtime → Runtime × Bool
unfolding find emplace from_bound before_bound
register_allocation_site id begin end type_id r = elim (find type_id r.types) [
  | none ↦ (r, false)
  | some hash ↦
      if id == 0
        || begin == 0
        || leb end begin
        || is_some (find id r.sites_by_id)
        || is_some (find id r.site_types)
      then (r, false)
      else if overlaps_next end (from_bound begin r.sites)
          || overlaps_previous begin (before_bound begin r.sites)
          || is_some (find begin r.sites)
      then (r, false)
      else (
        record r {
          sites =
              emplace begin
                (record { id = id; begin = begin; end = end; type_id = type_id; type_hash = hash })
                r.sites;
          sites_by_id = emplace id begin r.sites_by_id;
          site_types = emplace id hash r.site_types;
        },
        true,
      )
]

-- `(size + 7) & ~7`, where it does not wrap around.
unfoldable pub aligned_size : ℕ → Option ℕ
aligned_size size =
    if ltb (max_word - 7) size
    then none
    else let aligned = (size + 7) % 2 ^ 64 / 8 * 8 in
      if leb size aligned then some aligned else none

-- The new allocation, at the end of the arena's used part; no address where there is no room.
abbrev pub place : ℕ → ℕ → ℕ → ℕ → Runtime → Runtime × ℕ
place aligned size hash site_id r =
    let ptr = (r.base + r.used) % 2 ^ 64 in
    if is_some (find ptr r.allocations) then (r, 0) else (
      record r {
        allocations =
            emplace ptr (record { base = ptr; size = size; type_hash = hash; site_id = site_id })
              r.allocations;
        used = (r.used + aligned) % 2 ^ 64;
      },
      ptr,
    )

unfoldable pub allocate_with_hash : ℕ → ℕ → ℕ → Runtime → Runtime × ℕ
unfolding aligned_size find emplace
allocate_with_hash size hash site_id r =
    if not r.arena_valid || size == 0 then (r, 0) else elim (aligned_size size) [
      | none ↦ (r, 0)
      | some aligned ↦
          if ltb r.capacity r.used
            || ltb (r.capacity - r.used) aligned
            || ltb (max_word - r.base) r.used
          then (r, 0)
          else place aligned size hash site_id r
    ]
