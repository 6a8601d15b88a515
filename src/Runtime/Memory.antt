-- ===== src/Runtime/Memory.antt =====
-- The calls of class `Runtime` on allocations.
pub mod Arena
pub mod Effect
pub mod Steps
pub mod Valid
pub mod Checked
pub mod Freed
pub mod Allocated
use interspec_typed_allocato.Prelude.{
  ℕ, suc, ◌+◌, ◌-◌, Bool, true, false, not, ◌||◌, ◌&&◌, Option, none, some, List, [], ◌∷◌, ltb, leb,
  ◌==◌, length, if◌then◌else◌,
}
use interspec_typed_allocato.OrderedMap.{find, emplace, erase, before_bound}
use interspec_typed_allocato.Runtime.{
  Allocation, AllocationSite, CheckResult, accepted, untracked, wrong_type, out_of_bounds, Runtime,
  register_type, register_allocation_site_id, register_allocation_site, allocate_with_hash,
}

-- The test on the entry in front of `upper_bound(pc)`.
abbrev pub site_reaching : ℕ → Option AllocationSite → Option AllocationSite
site_reaching pc none = none
site_reaching pc (some site) = if leb site.begin pc && ltb pc site.end then some site else none

unfoldable pub find_site : ℕ → Runtime → Option AllocationSite
unfolding before_bound
find_site pc r = site_reaching pc (before_bound (suc pc) r.sites)

abbrev pub allocation_reaching : ℕ → Option Allocation → Option Allocation
allocation_reaching ptr none = none
allocation_reaching ptr (some a) =
    if ltb ptr a.base then none else if ltb (ptr - a.base) a.size then some a else none

unfoldable pub find_allocation : ℕ → Runtime → Option Allocation
unfolding before_bound
find_allocation ptr r = allocation_reaching ptr (before_bound (suc ptr) r.allocations)

unfoldable pub allocate : ℕ → ℕ → Runtime → Runtime × ℕ
unfolding find
allocate size type_id r = elim (find type_id r.types) [
  | none ↦ (r, 0)
  | some hash ↦ if size == 0 then (r, 0) else allocate_with_hash size hash 0 r
]

unfoldable pub allocate_from_site : ℕ → ℕ → Runtime → Runtime × ℕ
unfolding find
allocate_from_site size site_id r = elim (find site_id r.site_types) [
  | none ↦ (r, 0)
  | some hash ↦ if size == 0 then (r, 0) else allocate_with_hash size hash site_id r
]

unfoldable pub allocate_from_pc : ℕ → ℕ → Runtime → Runtime × ℕ
unfolding find_site
allocate_from_pc size pc r = elim (find_site pc r) [
  | none ↦ (r, 0)
  | some site ↦ if size == 0 then (r, 0) else allocate_with_hash size site.type_hash site.id r
]

unfoldable pub release : ℕ → Runtime → Runtime × Bool
unfolding find erase
release ptr r = elim (find ptr r.allocations) [
  | none ↦ (r, false)
  | some _ ↦ (record r { allocations = erase ptr r.allocations }, true)
]

unfoldable pub allocation_count : Runtime → ℕ
allocation_count r = length r.allocations

unfoldable pub allocation_site_count : Runtime → ℕ
allocation_site_count r = length r.site_types

-- The queries: no value stands for `false`.
unfoldable pub allocation_size : ℕ → Runtime → Option ℕ
unfolding find
allocation_size ptr r = elim (find ptr r.allocations) [ none ↦ none | some a ↦ some a.size ]

unfoldable pub allocation_site : ℕ → Runtime → Option ℕ
unfolding find
allocation_site ptr r = elim (find ptr r.allocations) [ none ↦ none | some a ↦ some a.site_id ]

-- After the new allocation, of which no address means that there is none.
abbrev pub replace_allocation : ℕ → Runtime × ℕ → Runtime × ℕ
replace_allocation ptr (r, replacement) =
    if replacement == 0
    then (r, 0)
    else (record r { allocations = erase ptr r.allocations }, replacement)

unfoldable pub reallocate : ℕ → ℕ → Runtime → Runtime × ℕ
unfolding find erase
reallocate ptr new_size r = elim (find ptr r.allocations) [
  | none ↦ (r, 0)
  | some old ↦
      if new_size == 0
      then (record r { allocations = erase ptr r.allocations }, 0)
      else replace_allocation ptr (allocate_with_hash new_size old.type_hash old.site_id r)
]

-- The remaining bytes are there where the result is `accepted`.
unfoldable pub remaining_bytes : ℕ → ℕ → Runtime → CheckResult × Option ℕ
unfolding find_allocation
remaining_bytes ptr expected r = elim (find_allocation ptr r) [
  | none ↦ (untracked, none)
  | some a ↦
      if not (a.type_hash == expected)
      then (wrong_type, none)
      else (accepted, some (a.size - (ptr - a.base)))
]

unfoldable pub check : ℕ → ℕ → ℕ → Runtime → CheckResult
unfolding find_allocation
check ptr bytes expected r = elim (find_allocation ptr r) [
  | none ↦ untracked
  | some a ↦
      if not (a.type_hash == expected)
      then wrong_type
      else if leb bytes (a.size - (ptr - a.base))
      then accepted
      else out_of_bounds
]

-- The calls that change a runtime.
pub data Call : Type 0 where
  registers_type : ℕ → ℕ → Call
  registers_site_id : ℕ → ℕ → Call
  registers_site : ℕ → ℕ → ℕ → ℕ → Call
  allocates : ℕ → ℕ → Call
  allocates_from_site : ℕ → ℕ → Call
  allocates_from_pc : ℕ → ℕ → Call
  releases : ℕ → Call
  reallocates : ℕ → ℕ → Call

-- The runtime after a call, and after several.
unfoldable pub step : Call → Runtime → Runtime
step (registers_type id hash) r = (register_type id hash r).0
step (registers_site_id id type_id) r = (register_allocation_site_id id type_id r).0
step (registers_site id begin end type_id) r = (register_allocation_site id begin end type_id r).0
step (allocates size type_id) r = (allocate size type_id r).0
step (allocates_from_site size site_id) r = (allocate_from_site size site_id r).0
step (allocates_from_pc size pc) r = (allocate_from_pc size pc r).0
step (releases ptr) r = (release ptr r).0
step (reallocates ptr new_size) r = (reallocate ptr new_size r).0

unfoldable pub run : List Call → Runtime → Runtime
unfolding step
run [] r = r
run (call ∷ calls) r = run calls (step call r)
