-- ===== src/Runtime/Memory/Allocated.antt =====
-- What a new allocation makes of `check`.
use interspec_typed_allocato.Prelude.{
  ℕ, ◌+◌, ◌-◌, ◌≡◌, ◌≢◌, refl, sym, ap, ◌∙◌, subst, true, false, not, ◌&&◌, inl, inr, Option, none,
  some, arith, ltb, leb, ◌==◌, if◌then◌else◌, Bool-cases,
}
use interspec_typed_allocato.OrderedMap.{find}
use interspec_typed_allocato.OrderedMap.Intervals.{at_end, holder-emplace}
use interspec_typed_allocato.Runtime.{
  Allocation, AllocationSite, CheckResult, accepted, untracked, wrong_type, out_of_bounds, Runtime,
  allocate_with_hash,
}
use interspec_typed_allocato.Runtime.Memory.{
  find_site, allocate, allocate_from_site, allocate_from_pc, check,
}
use interspec_typed_allocato.Runtime.Memory.Arena.{
  IsArena, begin_of, end_of, fits, placed, placed-IsArena, allocate_with_hash_lem,
}
use interspec_typed_allocato.Runtime.Memory.Valid.{IsValid}
use interspec_typed_allocato.Runtime.Memory.Checked.{owner, find_allocation-owner}

-- The three ways to an allocation of a size: by a type, by a site, and by the program counter of the
-- call. They give the hash of the type and the number of the site.
pub data Allocates (r : Runtime) (size : ℕ) : ℕ → ℕ → Runtime × ℕ → Type 0 where
  by_type :
      (type_id hash : ℕ)
      → find type_id r.types ≡ some hash
      → Allocates r size hash 0 (allocate size type_id r)
  by_site :
      (site_id hash : ℕ)
      → find site_id r.site_types ≡ some hash
      → Allocates r size hash site_id (allocate_from_site size site_id r)
  by_pc :
      (pc : ℕ) (site : AllocationSite)
      → find_site pc r ≡ some site
      → Allocates r size site.type_hash site.id (allocate_from_pc size pc r)

sized_allocate_lem :
    (size hash site_id : ℕ) (r : Runtime)
    → IsArena r
    → (if size == 0 then (r, 0) else allocate_with_hash size hash site_id r)
      ≡ (if fits size r then (placed size hash site_id r, r.base + r.used) else (r, 0))
sized_allocate_lem size hash site_id r v =
    rw (allocate_with_hash_lem size hash site_id r v) (elim (Bool-cases (fits size r)) [
      | inl f ↦ let s : (size == 0) ≡ false = ground arith in rw f (rw s)
      | inr n ↦ rw n (ground arith)
    ])

-- In a valid runtime, an allocation by a registered type, by a registered site or by a program counter
-- that lies in a registered site succeeds exactly if the arena is one of proper addresses, the size is
-- not 0, and the size rounded up to 8 fits behind what is used. It then gives the end of the used
-- part, where the allocation is live, and else it changes nothing and gives 0.
pub Allocates_lem :
    (r : Runtime) (size hash site_id : ℕ) (result : Runtime × ℕ)
    → IsValid r
    → Allocates r size hash site_id result
    → result ≡ (if fits size r then (placed size hash site_id r, r.base + r.used) else (r, 0))
unfolding allocate allocate_from_site allocate_from_pc
Allocates_lem r size _ _ _ v (by_type type_id hash h) =
    rw (h, allocate) (sized_allocate_lem size hash 0 r v.arena)
Allocates_lem r size _ _ _ v (by_site site_id hash h) =
    rw (h, allocate_from_site) (sized_allocate_lem size hash site_id r v.arena)
Allocates_lem r size _ _ _ v (by_pc pc site h) =
    rw (h, allocate_from_pc) (sized_allocate_lem size site.type_hash site.id r v.arena)

-- The answer on some bytes from an offset of one allocation.
abbrev pub answer : ℕ → ℕ → ℕ → ℕ → ℕ → CheckResult
answer size hash offset bytes expected =
    if not (hash == expected)
    then wrong_type
    else if leb (offset + bytes) size
    then accepted
    else out_of_bounds

owner-placed :
    (size hash site_id q : ℕ) (r : Runtime)
    → IsArena r
    → fits size r ≡ true
    → owner q (placed size hash site_id r) ≡ (
        if leb (r.base + r.used) q && ltb q (r.base + r.used + size)
        then some
            (record { base = r.base + r.used; size = size; type_hash = hash; site_id = site_id })
        else owner q r)
owner-placed size hash site_id q r v f =
    let (next, before, _) =
      at_end begin_of end_of r.base (r.base + r.used) r.allocations v.packed in
    holder-emplace begin_of end_of r.base (r.base + r.used) q
      (record { base = r.base + r.used; size = size; type_hash = hash; site_id = site_id })
      r.allocations v.packed (ground arith) (rw next tt) before

-- `check` by the owner of the address.
abbrev pub of_owner : ℕ → ℕ → ℕ → Option Allocation → CheckResult
of_owner q bytes expected none = untracked
of_owner q bytes expected (some a) =
    if not (a.type_hash == expected)
    then wrong_type
    else if leb bytes (a.size - (q - a.base))
    then accepted
    else out_of_bounds

pub check-owner :
    (q bytes expected : ℕ) (r : Runtime)
    → IsArena r
    → check q bytes expected r ≡ of_owner q bytes expected (owner q r)
unfolding check
check-owner q bytes expected r v = rw (find_allocation-owner q r v, check) refl

check-placed :
    (size hash site_id q bytes expected : ℕ) (r : Runtime)
    → IsArena r
    → fits size r ≡ true
    → check q bytes expected (placed size hash site_id r) ≡ (
        if leb (r.base + r.used) q && ltb q (r.base + r.used + size)
        then answer size hash (q - (r.base + r.used)) bytes expected
        else check q bytes expected r)
check-placed size hash site_id q bytes expected r v f =
    check-owner q bytes expected (placed size hash site_id r)
      (placed-IsArena size hash site_id r v f)
    ∙ ap (of_owner q bytes expected) (owner-placed size hash site_id q r v f)
    ∙ ground (arith, check-owner q bytes expected r v)

-- After an allocation that gives an address, the addresses of its size are of its type and can be
-- used up to its end, and `check` answers on every other address as before.
pub check-Allocates :
    (r : Runtime) (size hash site_id q bytes expected : ℕ) (result : Runtime × ℕ)
    → IsValid r
    → Allocates r size hash site_id result
    → result.1 ≢ 0
    → check q bytes expected result.0 ≡ (
        if leb result.1 q && ltb q (result.1 + size)
        then answer size hash (q - result.1) bytes expected
        else check q bytes expected r)
check-Allocates r size hash site_id q bytes expected result v way =
    subst
      (λ (t : Runtime × ℕ).
        t.1 ≢ 0
        → check q bytes expected t.0 ≡ (
            if leb t.1 q && ltb q (t.1 + size)
            then answer size hash (q - t.1) bytes expected
            else check q bytes expected r))
      (sym (Allocates_lem r size hash site_id result v way))
      (elim (Bool-cases (fits size r)) [
        | inl f ↦ rw f (λ _. check-placed size hash site_id q bytes expected r v.arena f)
        | inr n ↦ rw n (λ h. absurd (h refl))
      ])
