-- ===== src/Access/Granted.antt =====
-- Which accesses are granted.
use interspec_typed_allocato.Prelude.{
  ℕ, ◌+◌, ◌-◌, ◌%◌, ◌^◌, ◌≤◌, ◌≡◌, ◌≢◌, ◌↔◌, ◌⊎◌, refl, sym, ap, ◌∙◌, inl, inr, arith, ltb, ◌==◌,
  if◌then◌else◌, false, Bool-cases,
}
use interspec_typed_allocato.OrderedMap.Covers.{find-IsIn, Covers-holder}
use interspec_typed_allocato.Runtime.{
  Allocation, CheckResult, accepted, untracked, wrong_type, out_of_bounds, Runtime, max_word,
}
use interspec_typed_allocato.Runtime.Memory.{check}
use interspec_typed_allocato.Runtime.Memory.Arena.{begin_of, end_of}
use interspec_typed_allocato.Runtime.Memory.Valid.{IsValid}
use interspec_typed_allocato.Runtime.Memory.Checked.{
  Owns, Verdict, accepts, misses, differs, exceeds, check-Verdict,
}
use interspec_typed_allocato.Runtime.Memory.Allocated.{of_owner, check-owner}
use interspec_typed_allocato.Access.{
  AccessPolicy, CheckedAccess, refusal, checked_access, wasm_check,
}

-- The bytes from an address on lie in one live allocation of this type.
pub record IsInside (r : Runtime) (ptr bytes expected : ℕ) : Type 0 where
  pub inside : Allocation
  pub owns : Owns r ptr inside
  pub typed : inside.type_hash ≡ expected
  pub within : ptr + bytes ≤ inside.base + inside.size

Verdict-IsInside :
    (r : Runtime) (ptr bytes expected : ℕ) (c : CheckResult)
    → Verdict r ptr bytes expected c
    → c ≡ accepted
    → IsInside r ptr bytes expected
Verdict-IsInside r ptr bytes expected _ (accepts a o t w) e = record {
  inside = a;
  owns = o;
  typed = t;
  within = w;
}
Verdict-IsInside r ptr bytes expected _ (misses f) e = absurd (ground arith)
Verdict-IsInside r ptr bytes expected _ (differs a o t) e = absurd (ground arith)
Verdict-IsInside r ptr bytes expected _ (exceeds a o t w) e = absurd (ground arith)

-- `check` accepts exactly the bytes that lie in one live allocation of the expected type.
pub check-accepted_iff :
    (r : Runtime) (ptr bytes expected : ℕ)
    → IsValid r
    → (check ptr bytes expected r ≡ accepted) ↔ IsInside r ptr bytes expected
check-accepted_iff r ptr bytes expected v = (
  Verdict-IsInside r ptr bytes expected (check ptr bytes expected r)
      (check-Verdict r ptr bytes expected v),
  λ i.
      let o =
        Covers-holder begin_of end_of r.base (r.base + r.used) ptr r.allocations {v = i.inside}
          v.arena.packed i.owns in
      check-owner ptr bytes expected r v.arena
      ∙ ap (of_owner ptr bytes expected) o
      ∙ ground (arith, i.typed, i.within, i.owns.low-le, i.owns.lt-high),
)

-- What lies inside an allocation lies below the end of the addresses.
IsInside-le :
    (r : Runtime) (ptr bytes expected : ℕ)
    → IsValid r
    → IsInside r ptr bytes expected
    → ptr + bytes ≤ max_word
IsInside-le r ptr bytes expected v i =
    let (lo, at, hi, some_bytes) =
      find-IsIn begin_of end_of r.base (r.base + r.used) i.inside.base r.allocations {v = i.inside}
        v.arena.packed i.owns.live in
    elim (Bool-cases r.arena_valid) [
      | inl t ↦ omega (arith, i.within, hi, v.arena.used-le, v.arena.arena-le t)
      | inr f ↦ absurd (omega (arith, lo, hi, some_bytes, v.arena.unused f))
    ]

-- The access that is given for a policy: from the base's allocation, at the offset.
pub record IsGranted (r : Runtime) (base : ℕ) (policy : AccessPolicy) (access : CheckedAccess)
    : Type 0 where
  pub accepts_it : access.result ≡ accepted
  pub address_is : access.address ≡ base + policy.offset
  pub bytes_are : access.bytes ≡ policy.bytes
  pub inside : IsInside r base (policy.offset + policy.bytes) policy.type_hash

-- The two answers of `checked_access`.
pub data Decision (r : Runtime) (base : ℕ) (policy : AccessPolicy) : CheckedAccess → Type 0 where
  grants : (access : CheckedAccess) → IsGranted r base policy access → Decision r base policy access
  refuses :
      (why : CheckResult)
      → why ≢ accepted
      → (IsInside r base (policy.offset + policy.bytes) policy.type_hash → ⊥)
      → Decision r base policy (refusal why)

outside :
    (r : Runtime) (ptr bytes expected : ℕ) (c : CheckResult)
    → IsValid r
    → check ptr bytes expected r ≡ c
    → c ≢ accepted
    → IsInside r ptr bytes expected
    → ⊥
outside r ptr bytes expected c v e n i = n (sym e ∙ (check-accepted_iff r ptr bytes expected v).1 i)

-- Behind the test the sum does not wrap around.
unwrapped :
    (bytes offset : ℕ)
    → bytes ≤ max_word
    → ltb (max_word - bytes) offset ≡ false
    → (offset + bytes) % 2 ^ 64 ≡ offset + bytes
unwrapped bytes offset h f = let l : offset ≤ max_word - bytes = ground arith in omega arith

CheckResult-cases :
    (c : CheckResult)
    → (c ≡ accepted) ⊎ ((c ≡ untracked) ⊎ ((c ≡ wrong_type) ⊎ (c ≡ out_of_bounds)))
CheckResult-cases accepted = inl refl
CheckResult-cases untracked = inr (inl refl)
CheckResult-cases wrong_type = inr (inr (inl refl))
CheckResult-cases out_of_bounds = inr (inr (inr refl))

-- With words of 64 bits an access of a policy is granted exactly if the bytes up to its end lie in the live allocation of
-- the base and that is of the policy's type. The address granted is then the base and the offset
-- together, which does not wrap around, and the bytes are the policy's. Else no address is given.
pub checked_access-Decision :
    (r : Runtime) (base : ℕ) (policy : AccessPolicy)
    → IsValid r
    → policy.bytes ≤ max_word
    → Decision r base policy (checked_access r base policy)
unfolding checked_access
checked_access-Decision r base policy v word =
    let extent = policy.offset + policy.bytes in
    elim (Bool-cases (ltb (max_word - policy.bytes) policy.offset)) [
      | inl t ↦ rw t (
          refuses out_of_bounds (λ e. ground arith)
            (λ i. let l = IsInside-le r base extent policy.type_hash v i in ground arith))
      | inr f ↦
          let wrapped = check base ((policy.offset + policy.bytes) % 2 ^ 64) policy.type_hash r in
          let whole : check base extent policy.type_hash r ≡ wrapped =
            ap (λ n. check base n policy.type_hash r)
              (sym (unwrapped policy.bytes policy.offset word f)) in
          rw f (elim (CheckResult-cases wrapped) [
            | inl e ↦
                let i = (check-accepted_iff r base extent policy.type_hash v).0 (whole ∙ e) in
                let l = IsInside-le r base extent policy.type_hash v i in
                rw e (
                  grants _ (record {
                    accepts_it = refl;
                    address_is = omega arith;
                    bytes_are = refl;
                    inside = i;
                  }))
            | inr (inl e) ↦ rw e (refuses_for untracked (whole ∙ e) (λ k. ground arith))
            | inr (inr (inl e)) ↦ rw e (refuses_for wrong_type (whole ∙ e) (λ k. ground arith))
            | inr (inr (inr e)) ↦ rw e (refuses_for out_of_bounds (whole ∙ e) (λ k. ground arith))
          ])
    ]
  where
    refuses_for :
        (why : CheckResult)
        → check base (policy.offset + policy.bytes) policy.type_hash r ≡ why
        → why ≢ accepted
        → Decision r base policy (refusal why)
    refuses_for why e n =
        refuses why n (outside r base (policy.offset + policy.bytes) policy.type_hash why v e n)

-- With words of 64 bits the WebAssembly header's `check` accepts exactly if the offset and the bytes, which are those of
-- the call where the policy has none, lie in the live allocation of the base and that is of the
-- policy's type: the test for a sum that wraps around refuses nothing else.
pub wasm_check-accepted_iff :
    (r : Runtime) (base dynamic_bytes : ℕ) (policy : AccessPolicy)
    → IsValid r
    → policy.bytes ≤ max_word
    → dynamic_bytes ≤ max_word
    → (wasm_check r base dynamic_bytes policy ≡ accepted)
      ↔ IsInside r base
          (policy.offset + (if policy.bytes == 0 then dynamic_bytes else policy.bytes))
          policy.type_hash
unfolding wasm_check
wasm_check-accepted_iff r base dynamic_bytes policy v word word' =
    let bytes = if policy.bytes == 0 then dynamic_bytes else policy.bytes in
    let (into, back) = check-accepted_iff r base (policy.offset + bytes) policy.type_hash v in
    elim (Bool-cases (ltb (max_word - bytes) policy.offset)) [
      | inl t ↦ rw t (
        λ e. absurd (ground arith),
        λ i.
            let l = IsInside-le r base (policy.offset + bytes) policy.type_hash v i in
            absurd (ground arith),
      )
      | inr f ↦ rw (f, unwrapped bytes policy.offset (ground arith) f) (into, back)
    ]
