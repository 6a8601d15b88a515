-- ===== src/Summary.antt =====
-- What the three summaries of measurements share: their dictionaries of samples, tools/
-- summarize_p8_application.py, tools/summarize_p8_performance.py and
-- tools/summarize_p9a_application.py. Numbers and what Python computes with them are parameters.
pub mod Application
pub mod Pairs
pub mod Tables
pub mod Loop
pub mod Groups
pub mod Overheads
pub mod Load
pub mod Loaded
pub mod Files
use interspec_typed_allocato.Prelude.{
  ℕ, Bool, true, false, not, ◌&&◌, Option, none, some, List, [], ◌∷◌, ◌++◌, map, Text, same,
  contains, any, ◌==◌, if◌then◌else◌, unknown_mode, duplicate_sample, zero_division, Result, ok,
  err, ◌>>=◌, ◌>>◌, require, refuse, from_option,
}
use interspec_typed_allocato.Sites.{sorted_set}
use interspec_typed_allocato.Prelude.Integers.{ℤ, pos, negsuc}

-- The operations on floating point numbers, and the functions of `statistics`. A quotient is missing
-- where the divisor is 0.
pub record Arithmetic (Value Float : Type 0) : Type 0 where
  pub quotient : Value → Value → Option Float
  pub minus : Float → Float → Float
  pub times : Float → Float → Float
  pub per : Float → Float → Float
  pub one : Float
  pub hundred : Float
  pub million : Float
  pub median_of : List Value → Float
  pub mean_of : List Value → Float
  pub median : List Float → Float
  pub mean : List Float → Float
  pub least : List Float → Float
  pub greatest : List Float → Float

-- A row of the measurements; `workload` is the entry `boundary` of the performance rows.
pub record Sample (Value : Type 0) : Type 0 where
  pub workload : Text
  pub mode : Text
  pub repetition : ℤ
  pub value : Value

abbrev pub has_any : {A : Type 0} → List A → Bool
has_any [] = false
has_any (x ∷ xs) = true

abbrev pub same_ℤ : ℤ → ℤ → Bool
same_ℤ (pos m) (pos n) = m == n
same_ℤ (negsuc m) (negsuc n) = m == n
same_ℤ _ _ = false

-- The entry of `by_mode` for a workload and a mode.
pub record ModeValues (Value : Type 0) : Type 0 where
  pub workload : Text
  pub mode : Text
  pub values : List Value

-- The entry of `triples` or `pairs` for a workload and a repetition: its values by their modes.
pub record Group (Value : Type 0) : Type 0 where
  pub workload : Text
  pub repetition : ℤ
  pub values : List (Text × Value)

-- Both dictionaries.
pub record Collected (Value : Type 0) : Type 0 where
  pub by_mode : List (ModeValues Value)
  pub groups : List (Group Value)

abbrev pub keys : {V : Type 0} → List (Text × V) → List Text
keys [] = []
keys ((key, value) ∷ entries) = key ∷ keys entries

abbrev pub all_in : List Text → List Text → Bool
all_in names [] = true
all_in names (name ∷ more) = contains names name && all_in names more

-- Equality of the sets of two lists.
abbrev pub same_set : List Text → List Text → Bool
same_set a b = all_in b a && all_in a b

module _ {V : Type 0} where
  unfoldable pub lookup : Text → List (Text × V) → Option V
  lookup key [] = none
  lookup key ((other, value) ∷ entries) = if same other key then some value else lookup key entries

  -- `by_mode[(workload, mode)].append(value)`
  unfoldable pub add_value : Sample V → List (ModeValues V) → List (ModeValues V)
  add_value s [] = record { workload = s.workload; mode = s.mode; values = s.value ∷ [] } ∷ []
  add_value s (e ∷ entries) =
      let later = add_value s entries in
      if same e.workload s.workload && same e.mode s.mode
      then record e { values = e.values ++ (s.value ∷ []) } ∷ entries
      else e ∷ later

  unfoldable pub values_of : Text → Text → List (ModeValues V) → List V
  values_of workload mode [] = []
  values_of workload mode (e ∷ entries) =
      if same e.workload workload && same e.mode mode
      then e.values
      else values_of workload mode entries

  abbrev pub is_group : Text → ℤ → Group V → Bool
  is_group workload repetition g = same g.workload workload && same_ℤ g.repetition repetition

  -- `triples[(workload, repetition)]`
  unfoldable pub group_values : Text → ℤ → List (Group V) → List (Text × V)
  group_values workload repetition [] = []
  group_values workload repetition (g ∷ groups) =
      if is_group workload repetition g then g.values else group_values workload repetition groups

  -- The value under a mode that the group does not have.
  unfoldable pub add_to_group : Sample V → List (Group V) → List (Group V)
  add_to_group s [] =
      record { workload = s.workload; repetition = s.repetition; values = (s.mode, s.value) ∷ [] }
      ∷ []
  add_to_group s (g ∷ groups) =
      let later = add_to_group s groups in
      if is_group s.workload s.repetition g
      then record g { values = g.values ++ ((s.mode, s.value) ∷ []) } ∷ groups
      else g ∷ later

  module _ (modes : List Text) where
    unfoldable pub collect_loop : Collected V → List (Sample V) → Result (Collected V)
    unfolding add_value group_values add_to_group
    collect_loop collected [] = ok collected
    collect_loop collected (s ∷ samples) = do
      require (contains modes s.mode) (unknown_mode s.mode)
      refuse (contains (keys (group_values s.workload s.repetition collected.groups)) s.mode)
          (duplicate_sample s.workload s.mode)
      collect_loop
          (record {
            by_mode = add_value s collected.by_mode;
            groups = add_to_group s collected.groups;
          })
          samples

    unfoldable pub collect : List (Sample V) → Result (Collected V)
    unfolding collect_loop
    collect samples = collect_loop (record { by_mode = []; groups = [] }) samples

module _ {V Float : Type 0} (arithmetic : Arithmetic V Float) where
  -- `(numerator / denominator - 1.0) * 100.0`
  unfoldable pub percent_over : V → V → Result Float
  percent_over numerator denominator = do
    ratio ← from_option zero_division (arithmetic.quotient numerator denominator)
    ok (arithmetic.times (arithmetic.minus ratio arithmetic.one) arithmetic.hundred)

-- `[f(item) for item in items]` of an `f` that may raise.
unfoldable pub map_result : {A B : Type 0} → (A → Result B) → List A → Result (List B)
map_result f [] = ok []
map_result f (x ∷ xs) = do y ← f x; ys ← map_result f xs; ok (y ∷ ys)

abbrev pub workloads : {V : Type 0} → List (Sample V) → List Text
workloads {V} samples = sorted_set (map (λ (s : Sample V). s.workload) samples)
