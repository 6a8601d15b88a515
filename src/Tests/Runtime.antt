-- ===== src/Tests/Runtime.antt =====
-- The theorems on the runtime after a few calls.
use interspec_typed_allocato.Prelude.{
  ℕ, ◌+◌, ◌-◌, ◌≡◌, ◌≢◌, ◌↔◌, refl, arith, ◌&&◌, some, List, [], ◌∷◌, ltb, leb, ◌==◌, if◌then◌else◌,
}
use interspec_typed_allocato.OrderedMap.{find}
use interspec_typed_allocato.Runtime.{
  Allocation, AllocationSite, accepted, untracked, Runtime, new_runtime, register_type,
  register_allocation_site_id, register_allocation_site, allocate_with_hash,
}
use interspec_typed_allocato.Runtime.Memory.{
  find_site, allocate, allocate_from_site, release, reallocate, check, Call, registers_type,
  registers_site_id, registers_site, allocates, run,
}
use interspec_typed_allocato.Runtime.Memory.Arena.{fits, placed}
use interspec_typed_allocato.Runtime.Memory.Effect.{erased}
use interspec_typed_allocato.Runtime.Memory.Valid.{IsValid, reached-IsValid}
use interspec_typed_allocato.Runtime.Memory.Checked.{
  Verdict, check-Verdict, SiteOf, find_site-SiteOf_iff,
}
use interspec_typed_allocato.Runtime.Memory.Freed.{by_release, reallocate_lem, check-Retires}
use interspec_typed_allocato.Runtime.Memory.Allocated.{
  Allocates, by_site, Allocates_lem, answer, check-Allocates,
}
use interspec_typed_allocato.Access.{AccessPolicy, checked_access, wasm_check}
use interspec_typed_allocato.Access.Granted.{
  IsInside, Decision, checked_access-Decision, wasm_check-accepted_iff,
}

abbrev calls : List Call
calls =
    registers_type 1 70
    ∷ registers_type 2 80
    ∷ registers_site_id 5 2
    ∷ registers_site 6 100 120 1
    ∷ allocates 10 1
    ∷ []

-- An arena of 64 bytes, with one allocation of 10 bytes at its start.
abbrev used_runtime : Runtime
used_runtime = run calls (new_runtime 4096 64)

abbrev first : Allocation
first = record { base = 4096; size = 10; type_hash = 70; site_id = 0 }

abbrev code_site : AllocationSite
code_site = record { id = 6; begin = 100; end = 120; type_id = 1; type_hash = 70 }

used-IsValid : IsValid used_runtime
used-IsValid = reached-IsValid calls 4096 64 (omega arith)

first_live : find 4096 used_runtime.allocations ≡ some first
unfolding run find allocate register_allocation_site register_allocation_site_id register_type
    new_runtime allocate_with_hash
first_live = refl

site_known : find 5 used_runtime.site_types ≡ some 80
unfolding run find allocate register_allocation_site register_allocation_site_id register_type
    new_runtime allocate_with_hash
site_known = refl

abbrev from_site : Runtime × ℕ
from_site = allocate_from_site 8 5 used_runtime

from_site_address : from_site.1 ≡ 4112
unfolding run allocate_from_site allocate register_allocation_site register_allocation_site_id
    register_type new_runtime allocate_with_hash
from_site_address = refl

abbrev field : AccessPolicy
field = record { type_hash = 70; offset = 4; bytes = 6 }

reached-IsValid_example : IsValid (run calls (new_runtime 4096 64))
reached-IsValid_example = reached-IsValid calls 4096 64 (omega arith)

check-Verdict_example : Verdict used_runtime 4100 6 70 (check 4100 6 70 used_runtime)
check-Verdict_example = check-Verdict used_runtime 4100 6 70 used-IsValid

find_site-SiteOf_iff_example :
    (find_site 110 used_runtime ≡ some code_site) ↔ SiteOf used_runtime 110 code_site
find_site-SiteOf_iff_example = find_site-SiteOf_iff used_runtime 110 code_site used-IsValid

reallocate_lem_example : reallocate 4096 20 used_runtime ≡ (
    if 20 == 0
    then (erased 4096 used_runtime, 0)
    else if fits 20 used_runtime
    then (erased 4096 (placed 20 70 0 used_runtime), used_runtime.base + used_runtime.used)
    else (used_runtime, 0))
reallocate_lem_example = reallocate_lem 4096 20 used_runtime first used-IsValid first_live

check-Retires_example : check 4100 1 70 (run calls (release 4096 used_runtime).0) ≡ untracked
check-Retires_example =
    check-Retires 4096 4100 1 70 calls used_runtime first used-IsValid first_live by_release
      (omega arith) (omega arith)

served : Allocates used_runtime 8 80 5 from_site
served = by_site 5 80 site_known

Allocates_lem_example : from_site ≡ (
    if fits 8 used_runtime
    then (placed 8 80 5 used_runtime, used_runtime.base + used_runtime.used)
    else (used_runtime, 0))
Allocates_lem_example = Allocates_lem used_runtime 8 80 5 from_site used-IsValid served

from_site_given : from_site.1 ≢ 0
from_site_given e = omega (arith, from_site_address, e)

check-Allocates_example : check 4114 6 80 from_site.0 ≡ (
    if leb from_site.1 4114 && ltb 4114 (from_site.1 + 8)
    then answer 8 80 (4114 - from_site.1) 6 80
    else check 4114 6 80 used_runtime)
check-Allocates_example =
    check-Allocates used_runtime 8 80 5 4114 6 80 from_site used-IsValid served from_site_given

checked_access-Decision_example :
    Decision used_runtime 4096 field (checked_access used_runtime 4096 field)
checked_access-Decision_example =
    checked_access-Decision used_runtime 4096 field used-IsValid (omega arith)

wasm_check-accepted_iff_example :
    (wasm_check used_runtime 4096 3 field ≡ accepted)
    ↔ IsInside used_runtime 4096 (field.offset + (if field.bytes == 0 then 3 else field.bytes)) 70
wasm_check-accepted_iff_example =
    wasm_check-accepted_iff used_runtime 4096 3 field used-IsValid (omega arith) (omega arith)
