-- ===== src/Runtime/Memory/Checked.antt =====
-- What `check` and the lookups by address answer.
use interspec_typed_allocato.Prelude.{
  ℕ, suc, ◌+◌, ◌-◌, ◌≤◌, ◌<◌, ◌≡◌, ◌≢◌, ◌↔◌, refl, sym, ◌∙◌, inl, inr, Option, none, some, arith,
  leb, ◌==◌, Bool-cases, Option-cases,
}
use interspec_typed_allocato.OrderedMap.{before_bound}
use interspec_typed_allocato.OrderedMap.Intervals.{holder, reaching, reaching-holder, before-IsIn}
use interspec_typed_allocato.OrderedMap.Covers.{Covers, holder-Covers, Covers-holder}
use interspec_typed_allocato.Runtime.{
  Allocation, AllocationSite, CheckResult, accepted, untracked, wrong_type, out_of_bounds, Runtime,
}
use interspec_typed_allocato.Runtime.Memory.{
  site_reaching, find_site, allocation_reaching, find_allocation, check,
}
use interspec_typed_allocato.Runtime.Memory.Arena.{IsArena, begin_of, end_of}
use interspec_typed_allocato.Runtime.Memory.Steps.{site_begin, site_end}
use interspec_typed_allocato.Runtime.Memory.Valid.{IsValid}

-- The allocation that an address belongs to, by a search through all of them.
abbrev pub owner : ℕ → Runtime → Option Allocation
owner p r = holder begin_of end_of p r.allocations

-- A live allocation under its own address, with the address in it.
abbrev pub Owns : Runtime → ℕ → Allocation → Type 0
Owns r p a = Covers begin_of end_of r.allocations p a

pub find_allocation-owner : (p : ℕ) (r : Runtime) → IsArena r → find_allocation p r ≡ owner p r
unfolding find_allocation
find_allocation-owner p r v =
    reached (before_bound (suc p) r.allocations) refl
    ∙ reaching-holder begin_of end_of r.base (r.base + r.used) p r.allocations v.packed
  where
    reached :
        (o : Option Allocation)
        → before_bound (suc p) r.allocations ≡ o
        → allocation_reaching p o ≡ reaching begin_of end_of p o
    reached none e = unfold reaching in refl
    reached (some a) e =
        let i =
          before-IsIn begin_of end_of r.base (r.base + r.used) (suc p) r.allocations {v = a}
            v.packed e in
        unfold reaching in ground (arith, i)

-- The reason for each of the four answers.
pub data Verdict (r : Runtime) (ptr bytes expected : ℕ) : CheckResult → Type 0 where
  accepts :
      (a : Allocation)
      → Owns r ptr a
      → a.type_hash ≡ expected
      → ptr + bytes ≤ a.base + a.size
      → Verdict r ptr bytes expected accepted
  misses : ((a : Allocation) → Owns r ptr a → ⊥) → Verdict r ptr bytes expected untracked
  differs :
      (a : Allocation)
      → Owns r ptr a
      → a.type_hash ≢ expected
      → Verdict r ptr bytes expected wrong_type
  exceeds :
      (a : Allocation)
      → Owns r ptr a
      → a.type_hash ≡ expected
      → a.base + a.size < ptr + bytes
      → Verdict r ptr bytes expected out_of_bounds

-- `check` says of an address and a number of bytes whether they lie in one live allocation of the
-- expected type, and if not, why: no live allocation has the address, the one that has it is of
-- another type, or it ends before the bytes do.
pub check-Verdict :
    (r : Runtime) (ptr bytes expected : ℕ)
    → IsValid r
    → Verdict r ptr bytes expected (check ptr bytes expected r)
unfolding check
check-Verdict r ptr bytes expected v = elim (Option-cases (owner ptr r)) [
  | inl n ↦
      rw (find_allocation-owner ptr r v.arena, n, check)
        (misses (λ a o.
          let e =
            Covers-holder begin_of end_of r.base (r.base + r.used) ptr r.allocations {v = a}
              v.arena.packed o in
          ground arith))
  | inr (a, s) ↦
      let o =
        holder-Covers begin_of end_of r.base (r.base + r.used) ptr r.allocations {v = a}
          v.arena.packed s in
      rw (find_allocation-owner ptr r v.arena, s, check)
        (elim (Bool-cases (a.type_hash == expected)) [
          | inr other ↦ rw other (differs a o (ground arith))
          | inl same ↦ rw same (elim (Bool-cases (leb bytes (a.size - (ptr - a.base)))) [
            | inl within ↦
                rw within (accepts a o (ground arith) (ground (arith, o.low-le, o.lt-high)))
            | inr beyond ↦
                rw beyond (exceeds a o (ground arith) (ground (arith, o.low-le, o.lt-high)))
          ])
        ])
]

-- The site that an address of the code belongs to.
abbrev pub SiteOf : Runtime → ℕ → AllocationSite → Type 0
SiteOf r pc site = Covers site_begin site_end r.sites pc site

find_site-holder :
    (pc : ℕ) (r : Runtime) → IsValid r → find_site pc r ≡ holder site_begin site_end pc r.sites
unfolding find_site
find_site-holder pc r v =
    reached (before_bound (suc pc) r.sites) refl
    ∙ reaching-holder site_begin site_end 1 v.sites.0 pc r.sites v.sites.1
  where
    reached :
        (o : Option AllocationSite)
        → before_bound (suc pc) r.sites ≡ o
        → site_reaching pc o ≡ reaching site_begin site_end pc o
    reached none e = unfold reaching in refl
    reached (some site) e =
        let i =
          before-IsIn site_begin site_end 1 v.sites.0 (suc pc) r.sites {v = site} v.sites.1 e in
        unfold reaching in ground (arith, i)

-- A program counter has the site whose interval of the code holds it, which is the only one, and
-- none where no registered interval holds it.
pub find_site-SiteOf_iff :
    (r : Runtime) (pc : ℕ) (site : AllocationSite)
    → IsValid r
    → (find_site pc r ≡ some site) ↔ SiteOf r pc site
find_site-SiteOf_iff r pc site v = (
  λ h.
      holder-Covers site_begin site_end 1 v.sites.0 pc r.sites {v = site} v.sites.1
        (sym (find_site-holder pc r v) ∙ h),
  λ c.
      find_site-holder pc r v
      ∙ Covers-holder site_begin site_end 1 v.sites.0 pc r.sites {v = site} v.sites.1 c,
)
