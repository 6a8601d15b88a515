-- ===== src/Prelude/Outcome.antt =====
-- Exceptions as values: one constructor for each `raise` of the modelled tools, with what its
-- message names.
use mathlib.Core.Path.{◌≡◌, refl}
use mathlib.Core.Bool.{Bool, true, false}
use mathlib.Core.Option.{Option, none, some}
use interspec_typed_allocato.Prelude.Texts.{Text}

pub data Error : Type 0 where
  function_not_found unterminated_function : Text → Error
  not_one_based line_out_of_range column_out_of_range : Error
  not_at_malloc truncated_malloc no_argument_list : Error
  empty_size span_past_call unterminated_arguments : Error
  invalid_site site_escapes call_escapes no_single_malloc : Text → Error
  duplicate_type : Error
  hash_collision : Text → Text → Error
  unknown_allocation_type unknown_use_type negative_range : Text → Error
  missing_key : Text → Error
  empty_type_name : Error
  fixed_and_dynamic : Text → Error
  duplicate_helper unknown_helper_type : Text → Error
  no_namespace_close : Text → Error
  empty_namespace bad_site_base site_id_overflow imprecise_allocation : Error
  no_patch_context no_pattern unexpected_schema no_security_cases : Error
  forbidden_marker : Text → Error
  missing_file unsupported_checkout : Text → Error
  bad_number : Text → Error
  unknown_mode missing_mode incomplete_group no_groups duplicate_repetitions : Text → Error
  duplicate_sample : Text → Text → Error
  non_positive_sample zero_division : Error

pub data Result {ℓ} (Value : Type ℓ) : Type ℓ where
  err : Error → Result Value
  ok : Value → Result Value

module _ {ℓ κ} {Before : Type ℓ} {After : Type κ} where
  infixl 5 ◌>>=◌
  -- The rest of the code behind a call that may raise.
  abbrev pub ◌>>=◌ : Result Before → (Before → Result After) → Result After
  (err raised) >>= rest = err raised
  (ok value) >>= rest = rest value

  pub >>=-eq-ok :
      (call : Result Before) (rest : Before → Result After) {last : After}
      → call >>= rest ≡ ok last
      → (value : Before) × (call ≡ ok value) × (rest value ≡ ok last)
  >>=-eq-ok (err raised) rest returned = cc
  >>=-eq-ok (ok value) rest returned = (value, refl, returned)

module _ {κ} {After : Type κ} where
  infixl 5 ◌>>◌
  -- The same behind a guard, which returns nothing.
  abbrev pub ◌>>◌ : Result (Unit {0}) → Result After → Result After
  check >> rest = check >>= (λ passed. rest)

-- `if not test: raise e`
abbrev pub require : Bool → Error → Result (Unit {0})
require true e = ok tt
require false e = err e

-- `if test: raise e`
abbrev pub refuse : Bool → Error → Result (Unit {0})
refuse true e = err e
refuse false e = ok tt

abbrev pub from_option {ℓ} : {A : Type ℓ} → Error → Option A → Result A
from_option e none = err e
from_option e (some a) = ok a

pub require-eq-ok {ℓ} :
    {B : Type ℓ} (t : Bool) (e : Error) (k : Result B) {b : B}
    → (require t e >> k) ≡ ok b
    → (t ≡ true) × (k ≡ ok b)
require-eq-ok true e k h = (refl, h)
require-eq-ok false e k h = cc

pub refuse-eq-ok {ℓ} :
    {B : Type ℓ} (t : Bool) (e : Error) (k : Result B) {b : B}
    → (refuse t e >> k) ≡ ok b
    → (t ≡ false) × (k ≡ ok b)
refuse-eq-ok false e k h = (refl, h)
refuse-eq-ok true e k h = cc

pub from_option-eq-ok {ℓ} :
    {A : Type ℓ} (e : Error) (o : Option A) {a : A} → from_option e o ≡ ok a → o ≡ some a
from_option-eq-ok e none h = cc
from_option-eq-ok e (some x) h = cc
