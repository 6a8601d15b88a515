-- ===== src/Runtime/Memory/Arena.antt =====
-- The invariant of the arena, and what an allocation does to it.
use interspec_typed_allocato.Prelude.{
  ℕ, ◌+◌, ◌-◌, ◌/◌, ◌*◌, ◌≤◌, ◌<◌, ◌≡◌, refl, Bool, true, false, not, ◌&&◌, inl, inr, arith, leb,
  ◌==◌, if◌then◌else◌, Bool-cases,
}
use interspec_typed_allocato.OrderedMap.{emplace}
use interspec_typed_allocato.OrderedMap.Intervals.{Packed, at_end, emplace-Packed, Packed-raise}
use interspec_typed_allocato.Runtime.{
  Allocation, Runtime, max_word, new_runtime, allocate_with_hash,
}

abbrev pub begin_of : Allocation → ℕ
begin_of a = a.base

abbrev pub end_of : Allocation → ℕ
end_of a = a.base + a.size

-- The allocations lie one behind the other in the used part of the arena, which stays within its
-- capacity and the addresses.
pub record IsArena (r : Runtime) : Type 0 where
  pub packed : Packed begin_of end_of r.base r.allocations (r.base + r.used)
  pub used-le : r.used ≤ r.capacity
  pub arena-le : r.arena_valid ≡ true → r.base + r.capacity ≤ max_word
  pub unused : r.arena_valid ≡ false → r.used ≡ 0

pub new_runtime-IsArena :
    (base capacity : ℕ) → base ≤ max_word → IsArena (new_runtime base capacity)
unfolding new_runtime
new_runtime-IsArena base capacity h = record {
  packed = omega arith;
  used-le = omega arith;
  arena-le = λ t. ground arith;
  unused = λ f. refl;
}

-- The size rounded up to a multiple of 8.
abbrev pub round_up : ℕ → ℕ
round_up size = (size + 7) / 8 * 8

-- What an allocation asks of the arena: an arena of proper addresses, and room for a size that is
-- not 0.
abbrev pub fits : ℕ → Runtime → Bool
fits size r = r.arena_valid && not (size == 0) && leb (round_up size) (r.capacity - r.used)

-- The runtime with the new allocation.
abbrev pub placed : ℕ → ℕ → ℕ → Runtime → Runtime
placed size hash site_id r = record r {
  allocations =
      emplace (r.base + r.used)
        (record { base = r.base + r.used; size = size; type_hash = hash; site_id = site_id })
        r.allocations;
  used = r.used + round_up size;
}

round_up_bounds : (size : ℕ) → (size ≤ round_up size) × (round_up size < size + 8)
round_up_bounds size = omega arith

-- In a valid arena the guards come to this: an allocation is placed at the end of the used part
-- exactly if it fits.
pub allocate_with_hash_lem :
    (size hash site_id : ℕ) (r : Runtime)
    → IsArena r
    → allocate_with_hash size hash site_id r
      ≡ (if fits size r then (placed size hash site_id r, r.base + r.used) else (r, 0))
unfolding allocate_with_hash
allocate_with_hash_lem size hash site_id r v =
    let (_, _, free) = at_end begin_of end_of r.base (r.base + r.used) r.allocations v.packed in
    elim (Bool-cases r.arena_valid) [
      | inl proper ↦ let room = v.arena-le proper in ground (arith, round_up_bounds size)
      | inr broken ↦ rw broken
    ]

pub placed-IsArena :
    (size hash site_id : ℕ) (r : Runtime)
    → IsArena r
    → fits size r ≡ true
    → IsArena (placed size hash site_id r)
placed-IsArena size hash site_id r v f =
    let room : (0 < size) × (round_up size ≤ r.capacity - r.used) × (r.arena_valid ≡ true) =
      ground arith in
    let (next, before, _) =
      at_end begin_of end_of r.base (r.base + r.used) r.allocations v.packed in
    let new : Allocation = record {
      base = r.base + r.used;
      size = size;
      type_hash = hash;
      site_id = site_id;
    } in
    record {
      packed =
          emplace-Packed begin_of end_of r.base (r.base + (r.used + round_up size)) new
            r.allocations
            (Packed-raise begin_of end_of r.base (r.base + r.used) _ r.allocations (omega arith)
              v.packed)
            (omega arith) (omega arith) (omega (arith, round_up_bounds size)) (rw next tt) before;
      used-le = omega (arith, v.used-le);
      arena-le = v.arena-le;
      unused = λ f. absurd (ground arith);
    }
