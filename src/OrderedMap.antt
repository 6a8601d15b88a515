-- ===== src/OrderedMap.antt =====
-- `std::map` with numbers for keys, as the list of its entries in the order of the keys. An
-- `std::unordered_map` is one too, where nothing shows its order.
pub mod Laws
pub mod Intervals
pub mod Covers
use interspec_typed_allocato.Prelude.{
  ℕ, ◌+◌, Bool, true, false, Option, none, some, List, [], ◌∷◌, ltb, ◌==◌, if◌then◌else◌,
}

module _ {V : Type 0} where
  unfoldable pub find : ℕ → List (ℕ × V) → Option V
  find k [] = none
  find k ((j, v) ∷ m) = if j == k then some v else find k m

  -- An entry that is there already is kept.
  unfoldable pub emplace : ℕ → V → List (ℕ × V) → List (ℕ × V)
  emplace k v [] = (k, v) ∷ []
  emplace k v ((j, w) ∷ m) =
      let later = emplace k v m in
      if ltb k j then (k, v) ∷ (j, w) ∷ m else if j == k then (j, w) ∷ m else (j, w) ∷ later

  unfoldable pub erase : ℕ → List (ℕ × V) → List (ℕ × V)
  erase k [] = []
  erase k ((j, v) ∷ m) = let later = erase k m in if j == k then m else (j, v) ∷ later

  -- `lower_bound`: the first value whose key is not below `k`.
  unfoldable pub from_bound : ℕ → List (ℕ × V) → Option V
  from_bound k [] = none
  from_bound k ((j, v) ∷ m) = if ltb j k then from_bound k m else some v

  -- The value in front of that one: the last whose key is below `k`.
  unfoldable pub before_bound : ℕ → List (ℕ × V) → Option V
  before_bound k [] = none
  before_bound k ((j, v) ∷ m) =
      let later = before_bound k m in
      if ltb j k then (elim later [ none ↦ some v | some w ↦ some w ]) else none
