-- ===== src/Runtime/Memory/Effect.antt =====
-- What the calls do to the arena.
use interspec_typed_allocato.Prelude.{
  ℕ, ◌+◌, ◌≡◌, refl, true, inl, inr, arith, ◌==◌, if◌then◌else◌, Bool-cases, Option-cases,
}
use interspec_typed_allocato.OrderedMap.{find, erase}
use interspec_typed_allocato.Runtime.{
  Runtime, register_type, register_allocation_site_id, register_allocation_site, allocate_with_hash,
}
use interspec_typed_allocato.Runtime.Memory.{
  find_site, allocate, allocate_from_site, allocate_from_pc, release, reallocate,
  replace_allocation, Call, registers_type, registers_site_id, registers_site, allocates,
  allocates_from_site, allocates_from_pc, releases, reallocates, step,
}
use interspec_typed_allocato.Runtime.Memory.Arena.{IsArena, allocate_with_hash_lem, fits, placed}

-- Without the allocation at an address.
abbrev pub erased : ℕ → Runtime → Runtime
erased ptr r = record r { allocations = erase ptr r.allocations }

-- What a call does to the arena: nothing, a new allocation, one less, or both.
pub data Effect (r r' : Runtime) : Type 0 where
  keeps :
      r'.base ≡ r.base
      → r'.capacity ≡ r.capacity
      → r'.arena_valid ≡ r.arena_valid
      → r'.used ≡ r.used
      → r'.allocations ≡ r.allocations
      → Effect r r'
  places :
      (size hash site_id : ℕ) → fits size r ≡ true → r' ≡ placed size hash site_id r → Effect r r'
  erases : (ptr : ℕ) → r' ≡ erased ptr r → Effect r r'
  moves :
      (ptr size hash site_id : ℕ)
      → fits size r ≡ true
      → r' ≡ erased ptr (placed size hash site_id r)
      → Effect r r'

allocate_with_hash-Effect :
    (size hash site_id : ℕ) (r : Runtime)
    → IsArena r
    → Effect r (allocate_with_hash size hash site_id r).0
allocate_with_hash-Effect size hash site_id r v =
    rw (allocate_with_hash_lem size hash site_id r v) (elim (Bool-cases (fits size r)) [
      | inl f ↦ rw f (places size hash site_id f refl)
      | inr n ↦ rw n (keeps refl refl refl refl refl)
    ])

-- Behind a test of the size.
sized_allocate-Effect :
    (size hash site_id : ℕ) (r : Runtime)
    → IsArena r
    → Effect r (if size == 0 then (r, 0) else allocate_with_hash size hash site_id r).0
sized_allocate-Effect size hash site_id r v = elim (Bool-cases (size == 0)) [
  | inl z ↦ rw z (keeps refl refl refl refl refl)
  | inr n ↦ rw n (allocate_with_hash-Effect size hash site_id r v)
]

replace_allocation-Effect :
    (ptr size hash site_id : ℕ) (r : Runtime)
    → IsArena r
    → Effect r (replace_allocation ptr (allocate_with_hash size hash site_id r)).0
replace_allocation-Effect ptr size hash site_id r v =
    rw (allocate_with_hash_lem size hash site_id r v) (elim (Bool-cases (fits size r)) [
      | inr n ↦ rw n (keeps refl refl refl refl refl)
      | inl f ↦ rw f (elim (Bool-cases ((r.base + r.used) == 0)) [
        | inl z ↦ rw z (places size hash site_id f refl)
        | inr p ↦ rw p (moves ptr size hash site_id f refl)
      ])
    ])

register_site-Effect :
    (id begin end type_id : ℕ) (r : Runtime)
    → Effect r (register_allocation_site id begin end type_id r).0
unfolding register_allocation_site
register_site-Effect id begin end type_id r =
    keeps (ground arith) (ground arith) (ground arith) (ground arith) (ground arith)

pub step-Effect : (call : Call) (r : Runtime) → IsArena r → Effect r (step call r)
unfolding step allocate allocate_from_site allocate_from_pc release reallocate
step-Effect (registers_type id hash) r v =
    unfold register_type in
    keeps (ground arith) (ground arith) (ground arith) (ground arith) (ground arith)
step-Effect (registers_site_id id type_id) r v =
    unfold register_allocation_site_id in
    keeps (ground arith) (ground arith) (ground arith) (ground arith) (ground arith)
step-Effect (registers_site id begin end type_id) r v = register_site-Effect id begin end type_id r
step-Effect (allocates size type_id) r v = elim (Option-cases (find type_id r.types)) [
  | inl n ↦ rw (n, step, allocate) (keeps refl refl refl refl refl)
  | inr (hash, s) ↦ rw (s, step, allocate) (sized_allocate-Effect size hash 0 r v)
]
step-Effect (allocates_from_site size site_id) r v =
    elim (Option-cases (find site_id r.site_types)) [
      | inl n ↦ rw (n, step, allocate_from_site) (keeps refl refl refl refl refl)
      | inr (hash, s) ↦
          rw (s, step, allocate_from_site) (sized_allocate-Effect size hash site_id r v)
    ]
step-Effect (allocates_from_pc size pc) r v = elim (Option-cases (find_site pc r)) [
  | inl n ↦ rw (n, step, allocate_from_pc) (keeps refl refl refl refl refl)
  | inr (site, s) ↦
      rw (s, step, allocate_from_pc) (sized_allocate-Effect size site.type_hash site.id r v)
]
step-Effect (releases ptr) r v = elim (Option-cases (find ptr r.allocations)) [
  | inl n ↦ rw (n, step, release) (keeps refl refl refl refl refl)
  | inr (a, s) ↦ rw (s, step, release) (erases ptr refl)
]
step-Effect (reallocates ptr new_size) r v = elim (Option-cases (find ptr r.allocations)) [
  | inl n ↦ rw (n, step, reallocate) (keeps refl refl refl refl refl)
  | inr (old, s) ↦
      rw (s, step, reallocate)
        (elim (Bool-cases (new_size == 0)) [
          | inl z ↦ rw z (erases ptr refl)
          | inr p ↦ rw p (replace_allocation-Effect ptr new_size old.type_hash old.site_id r v)
        ])
]
