-- ===== src/Runtime/Memory/Valid.antt =====
-- The invariant of a runtime, which every call keeps.
use interspec_typed_allocato.Prelude.{ℕ, ◌+◌, ◌≤◌, sym, subst, List, [], ◌∷◌, arith}
use interspec_typed_allocato.OrderedMap.Intervals.{erase-Packed}
use interspec_typed_allocato.Runtime.{Runtime, max_word, new_runtime}
use interspec_typed_allocato.Runtime.Memory.{Call, step, run}
use interspec_typed_allocato.Runtime.Memory.Effect.{
  Effect, keeps, places, erases, moves, erased, step-Effect,
}
use interspec_typed_allocato.Runtime.Memory.Arena.{
  IsArena, begin_of, end_of, new_runtime-IsArena, placed, placed-IsArena,
}
use interspec_typed_allocato.Runtime.Memory.Steps.{SitesPacked, step-SitesPacked}

erased-IsArena : (ptr : ℕ) (r : Runtime) → IsArena r → IsArena (erased ptr r)
erased-IsArena ptr r v = record {
  packed = erase-Packed begin_of end_of r.base (r.base + r.used) ptr r.allocations v.packed;
  used-le = v.used-le;
  arena-le = v.arena-le;
  unused = v.unused;
}

Effect-IsArena : {r r' : Runtime} → Effect r r' → IsArena r → IsArena r'
Effect-IsArena {r} {r'} (keeps b c a u m) v = record {
  packed = rw (b, u, m) v.packed;
  used-le = rw (c, u) v.used-le;
  arena-le = rw (a, b, c) v.arena-le;
  unused = rw (a, u) v.unused;
}
Effect-IsArena {r} {r'} (places size hash site_id f e) v =
    subst IsArena (sym e) (placed-IsArena size hash site_id r v f)
Effect-IsArena {r} {r'} (erases ptr e) v = subst IsArena (sym e) (erased-IsArena ptr r v)
Effect-IsArena {r} {r'} (moves ptr size hash site_id f e) v =
    subst IsArena (sym e)
      (erased-IsArena ptr (placed size hash site_id r) (placed-IsArena size hash site_id r v f))

-- The invariant of a runtime.
pub record IsValid (r : Runtime) : Type 0 where
  pub arena : IsArena r
  pub sites : SitesPacked r.sites

pub step-IsValid : (call : Call) (r : Runtime) → IsValid r → IsValid (step call r)
step-IsValid call r v = record {
  arena = Effect-IsArena (step-Effect call r v.arena) v.arena;
  sites = step-SitesPacked call r v.sites;
}

pub run-IsValid : (calls : List Call) (r : Runtime) → IsValid r → IsValid (run calls r)
unfolding run
run-IsValid [] r v = v
run-IsValid (call ∷ calls) r v = run-IsValid calls (step call r) (step-IsValid call r v)

-- Whatever calls a runtime takes, of an arena whose base is an address, its live allocations are in
-- the used part of the arena, apart from each other, each under its own address; the used part
-- stays within the capacity and the addresses; and the intervals of the registered sites are apart.
pub reached-IsValid :
    (calls : List Call) (base capacity : ℕ)
    → base ≤ max_word
    → IsValid (run calls (new_runtime base capacity))
unfolding new_runtime
reached-IsValid calls base capacity h =
    run-IsValid calls (new_runtime base capacity)
      (record { arena = new_runtime-IsArena base capacity h; sites = (1, omega arith) })
