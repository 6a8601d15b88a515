-- ===== src/Policy.antt =====
-- The policy that tools/codeql_policy_to_json.py writes and the generators read, and the boundary
-- declarations of tools/generate_boundary_policy.py and tools/generate_wasm_boundary_policy.py:
-- JSON objects with the keys that the tools use.
use interspec_typed_allocato.Prelude.{Bool, Option, List, Text}
use interspec_typed_allocato.Prelude.Integers.{ℤ}

pub record Site : Type 0 where
  pub start_line : ℤ
  pub start_column : ℤ
  pub end_line : ℤ
  pub end_column : ℤ

pub record Allocation : Type 0 where
  pub function : Text
  pub type : Text
  pub site : Option Site

-- `bytes` may be absent. `dynamic_bytes` is whether that key is present and true.
pub record AccessUse : Type 0 where
  pub name : Text
  pub type : Text
  pub offset : ℤ
  pub bytes : Option ℤ
  pub dynamic_bytes : Bool

pub record Policy : Type 0 where
  pub types : List Text
  pub allocations : List Allocation
  pub uses : List AccessUse

pub record HelperSite : Type 0 where
  pub name : Text
  pub type : Text

-- An absent file, and an absent key, is the empty list.
pub record Boundary : Type 0 where
  pub types : List Text
  pub helper_sites : List HelperSite
