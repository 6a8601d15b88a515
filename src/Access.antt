-- ===== src/Access.antt =====
-- The C++ functions of the generated headers that check an access of a policy: `checked_access`, and
-- `check` of the WebAssembly header.
pub mod Granted
use interspec_typed_allocato.Prelude.{ℕ, ◌+◌, ◌-◌, ◌%◌, ◌^◌, Bool, ltb, ◌==◌, if◌then◌else◌}
use interspec_typed_allocato.Runtime.{
  CheckResult, accepted, untracked, wrong_type, out_of_bounds, Runtime, max_word,
}
use interspec_typed_allocato.Runtime.Memory.{check}

pub record AccessPolicy : Type 0 where
  pub type_hash : ℕ
  pub offset : ℕ
  pub bytes : ℕ

pub record CheckedAccess : Type 0 where
  pub result : CheckResult
  pub address : ℕ
  pub bytes : ℕ

-- No access, for this reason.
abbrev pub refusal : CheckResult → CheckedAccess
refusal why = record { result = why; address = 0; bytes = 0 }

unfoldable pub checked_access : Runtime → ℕ → AccessPolicy → CheckedAccess
unfolding check
checked_access r base policy =
    if ltb (max_word - policy.bytes) policy.offset
    then refusal out_of_bounds
    else elim (check base ((policy.offset + policy.bytes) % 2 ^ 64) policy.type_hash r) [
      | accepted ↦ record {
        result = accepted;
        address = (base + policy.offset) % 2 ^ 64;
        bytes = policy.bytes;
      }
      | untracked ↦ refusal untracked
      | wrong_type ↦ refusal wrong_type
      | out_of_bounds ↦ refusal out_of_bounds
    ]

-- The native header's `check`.
unfoldable pub policy_check : Runtime → ℕ → AccessPolicy → CheckResult
unfolding checked_access
policy_check r base policy = (checked_access r base policy).result

-- A policy of no bytes takes the bytes of the call.
unfoldable pub wasm_check : Runtime → ℕ → ℕ → AccessPolicy → CheckResult
unfolding check
wasm_check r base dynamic_bytes policy =
    let bytes = if policy.bytes == 0 then dynamic_bytes else policy.bytes in
    if ltb (max_word - bytes) policy.offset
    then out_of_bounds
    else check base ((policy.offset + bytes) % 2 ^ 64) policy.type_hash r
