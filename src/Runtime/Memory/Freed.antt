-- ===== src/Runtime/Memory/Freed.antt =====
-- Addresses of the arena are used once: what has been released stays untracked.
use interspec_typed_allocato.Prelude.{
  ℕ, ◌+◌, ◌≤◌, ◌<◌, ◌≡◌, ◌≢◌, refl, sym, ap, subst, ◌∙◌, true, false, inl, inr, none, some, List,
  [], ◌∷◌, arith, ◌==◌, if◌then◌else◌, Bool-cases,
}
use interspec_typed_allocato.OrderedMap.{find}
use interspec_typed_allocato.OrderedMap.Intervals.{at_end, holder-emplace, unless_at, holder-erase}
use interspec_typed_allocato.OrderedMap.Covers.{find-IsIn, Covers-holder}
use interspec_typed_allocato.Runtime.{Allocation, untracked, Runtime}
use interspec_typed_allocato.Runtime.Memory.{release, reallocate, check, Call, step, run}
use interspec_typed_allocato.Runtime.Memory.Arena.{
  IsArena, begin_of, end_of, fits, placed, allocate_with_hash_lem, placed-IsArena,
}
use interspec_typed_allocato.Runtime.Memory.Effect.{
  Effect, keeps, places, erases, moves, erased, step-Effect,
}
use interspec_typed_allocato.Runtime.Memory.Valid.{IsValid, step-IsValid, run-IsValid}
use interspec_typed_allocato.Runtime.Memory.Checked.{owner, find_allocation-owner}

-- In the part of the arena that was given out, and of no live allocation.
pub record IsDead (r : Runtime) (p : ℕ) : Type 0 where
  pub given : p < r.base + r.used
  pub unowned : owner p r ≡ none

placed-owner :
    (size hash site_id p : ℕ) (r : Runtime)
    → IsArena r
    → fits size r ≡ true
    → p < r.base + r.used
    → owner p (placed size hash site_id r) ≡ owner p r
placed-owner size hash site_id p r v f l =
    let (next, before, _) =
      at_end begin_of end_of r.base (r.base + r.used) r.allocations v.packed in
    let new : Allocation = record {
      base = r.base + r.used;
      size = size;
      type_hash = hash;
      site_id = site_id;
    } in
    holder-emplace begin_of end_of r.base (r.base + r.used) p new r.allocations v.packed
      (ground arith) (rw next tt) before
    ∙ ground arith

erased-owner :
    (ptr p : ℕ) (r : Runtime) → IsArena r → owner p r ≡ none → owner p (erased ptr r) ≡ none
erased-owner ptr p r v n =
    holder-erase begin_of end_of r.base (r.base + r.used) p ptr r.allocations v.packed
    ∙ ap (unless_at begin_of end_of ptr) n

placed-IsDead :
    (size hash site_id p : ℕ) (r : Runtime)
    → IsArena r
    → fits size r ≡ true
    → IsDead r p
    → IsDead (placed size hash site_id r) p
placed-IsDead size hash site_id p r v f d = record {
  given = omega (arith, d.given);
  unowned = placed-owner size hash site_id p r v f d.given ∙ d.unowned;
}

erased-IsDead : (ptr p : ℕ) (r : Runtime) → IsArena r → IsDead r p → IsDead (erased ptr r) p
erased-IsDead ptr p r v d = record { given = d.given; unowned = erased-owner ptr p r v d.unowned }

Effect-IsDead : {r r' : Runtime} (p : ℕ) → Effect r r' → IsArena r → IsDead r p → IsDead r' p
Effect-IsDead {r} {r'} p (keeps b c a u m) v d = record {
  given = rw (b, u) d.given;
  unowned = rw m d.unowned;
}
Effect-IsDead {r} {r'} p (places size hash site_id f e) v d =
    subst (λ s. IsDead s p) (sym e) (placed-IsDead size hash site_id p r v f d)
Effect-IsDead {r} {r'} p (erases ptr e) v d =
    subst (λ s. IsDead s p) (sym e) (erased-IsDead ptr p r v d)
Effect-IsDead {r} {r'} p (moves ptr size hash site_id f e) v d =
    subst (λ s. IsDead s p) (sym e)
      (erased-IsDead ptr p (placed size hash site_id r) (placed-IsArena size hash site_id r v f)
        (placed-IsDead size hash site_id p r v f d))

run-IsDead :
    (calls : List Call) (r : Runtime) (p : ℕ) → IsValid r → IsDead r p → IsDead (run calls r) p
unfolding run
run-IsDead [] r p v d = d
run-IsDead (call ∷ calls) r p v d =
    run-IsDead calls (step call r) p (step-IsValid call r v)
      (Effect-IsDead p (step-Effect call r v.arena) v.arena d)

check-IsDead :
    (r : Runtime) (p bytes expected : ℕ)
    → IsValid r
    → IsDead r p
    → check p bytes expected r ≡ untracked
unfolding check
check-IsDead r p bytes expected v d = rw (find_allocation-owner p r v.arena, d.unowned, check)

-- With the allocation under `ptr` erased, its addresses are dead.
erased-dies :
    (ptr p : ℕ) (r : Runtime) {a : Allocation}
    → IsArena r
    → p < r.base + r.used
    → owner p r ≡ some a
    → a.base ≡ ptr
    → IsDead (erased ptr r) p
erased-dies ptr p r {a} v l o e = record {
  given = l;
  unowned =
      holder-erase begin_of end_of r.base (r.base + r.used) p ptr r.allocations v.packed
      ∙ ap (unless_at begin_of end_of ptr) o
      ∙ ground arith;
}

-- A live allocation is reallocated in one of three ways: not at all for the size 0, which releases
-- it; to a new place behind all others with its type and its site, where the arena has room; and
-- otherwise it stays as it is.
pub reallocate_lem :
    (ptr size : ℕ) (r : Runtime) (a : Allocation)
    → IsValid r
    → find ptr r.allocations ≡ some a
    → reallocate ptr size r ≡ (
        if size == 0
        then (erased ptr r, 0)
        else if fits size r
        then (erased ptr (placed size a.type_hash a.site_id r), r.base + r.used)
        else (r, 0))
unfolding reallocate
reallocate_lem ptr size r a v s =
    let (lo, at, hi, nonempty) =
      find-IsIn begin_of end_of r.base (r.base + r.used) ptr r.allocations {v = a} v.arena.packed
        s in
    rw (s, reallocate)
      (rw (allocate_with_hash_lem size a.type_hash a.site_id r v.arena)
        (elim (Bool-cases (fits size r)) [
          | inr n ↦ rw n
          | inl f ↦ let used : ((r.base + r.used) == 0) ≡ false = ground arith in rw f (rw used)
        ]))

-- The allocation under `ptr` is given up: by a release, by a reallocation to the size 0, or by one
-- that gives an address.
pub data Retires (ptr : ℕ) (r : Runtime) : Runtime → Type 0 where
  by_release : Retires ptr r (release ptr r).0
  by_empty : Retires ptr r (reallocate ptr 0 r).0
  by_reallocate :
      (size : ℕ) → (reallocate ptr size r).1 ≢ 0 → Retires ptr r (reallocate ptr size r).0

module _ (ptr p : ℕ) (r : Runtime) (a : Allocation) (v : IsValid r)
    (live : find ptr r.allocations ≡ some a) (low : a.base ≤ p) (high : p < a.base + a.size) where
  stands :
      (r.base ≤ ptr)
      × (a.base ≡ ptr)
      × (a.base + a.size ≤ r.base + r.used)
      × (a.base < a.base + a.size)
  stands =
      find-IsIn begin_of end_of r.base (r.base + r.used) ptr r.allocations {v = a} v.arena.packed
        live

  owned : owner p r ≡ some a
  owned =
      Covers-holder begin_of end_of r.base (r.base + r.used) p r.allocations {v = a} v.arena.packed
        (record {
          live = ap (λ k. find k r.allocations) stands.1 ∙ live;
          low-le = low;
          lt-high = high;
        })

  erased-IsDead_owned : IsDead (erased ptr r) p
  erased-IsDead_owned = erased-dies ptr p r v.arena (omega (arith, stands.2)) owned stands.1

  moved-IsDead :
      (size : ℕ) → fits size r ≡ true → IsDead (erased ptr (placed size a.type_hash a.site_id r)) p
  moved-IsDead size f =
      erased-dies ptr p (placed size a.type_hash a.site_id r)
        (placed-IsArena size a.type_hash a.site_id r v.arena f) (omega (arith, stands.2))
        (placed-owner size a.type_hash a.site_id p r v.arena f (omega (arith, stands.2)) ∙ owned)
        stands.1

  reallocate-IsDead :
      (size : ℕ) → (reallocate ptr size r).1 ≢ 0 → IsDead (reallocate ptr size r).0 p
  reallocate-IsDead size =
      subst (λ (t : Runtime × ℕ). t.1 ≢ 0 → IsDead t.0 p) (sym (reallocate_lem ptr size r a v live))
        (elim (Bool-cases (fits size r)) [
          | inl f ↦ rw f (elim (Bool-cases (size == 0)) [
            | inl z ↦ rw z (λ h. absurd (h refl))
            | inr n ↦ rw n (λ h. moved-IsDead size f)
          ])
          | inr g ↦ rw g (λ h. absurd (h (ground arith)))
        ])

  Retires-IsDead : {r' : Runtime} → Retires ptr r r' → IsDead r' p
  unfolding release
  Retires-IsDead by_release = rw (live, release) erased-IsDead_owned
  Retires-IsDead by_empty =
      subst (λ (t : Runtime × ℕ). IsDead t.0 p) (sym (reallocate_lem ptr 0 r a v live))
        erased-IsDead_owned
  Retires-IsDead (by_reallocate size moved) = reallocate-IsDead size moved

Retires-IsValid : (ptr : ℕ) (r : Runtime) {r' : Runtime} → Retires ptr r r' → IsValid r → IsValid r'
unfolding step
Retires-IsValid ptr r by_release v = step-IsValid (Call.releases ptr) r v
Retires-IsValid ptr r by_empty v = step-IsValid (Call.reallocates ptr 0) r v
Retires-IsValid ptr r (by_reallocate size moved) v = step-IsValid (Call.reallocates ptr size) r v

-- A use after free is never accepted: once an allocation is given up, by a release, by a
-- reallocation to the size 0 or by one that gives an address, every check of one of its addresses answers that it is
-- untracked, whatever calls come in between.
pub check-Retires :
    (ptr p bytes expected : ℕ) (calls : List Call) (r : Runtime) (a : Allocation) {r' : Runtime}
    → IsValid r
    → find ptr r.allocations ≡ some a
    → Retires ptr r r'
    → a.base ≤ p
    → p < a.base + a.size
    → check p bytes expected (run calls r') ≡ untracked
check-Retires ptr p bytes expected calls r a {r'} v live way low high =
    let valid = Retires-IsValid ptr r way v in
    check-IsDead (run calls r') p bytes expected (run-IsValid calls r' valid)
      (run-IsDead calls r' p valid (Retires-IsDead ptr p r a v live low high way))
