-- ===== src/OrderedMap/Laws.antt =====
-- What is found after an insertion.
use interspec_typed_allocato.Prelude.{
  ℕ, ◌≡◌, refl, none, some, List, [], ◌∷◌, arith, ◌==◌, if◌then◌else◌,
}
use interspec_typed_allocato.OrderedMap.{find, emplace}

module _ {V : Type 0} where
  -- A new key is found with its value, and the others as before.
  pub find-emplace :
      (k j : ℕ) (v : V) (m : List (ℕ × V))
      → find k m ≡ none
      → find j (emplace k v m) ≡ (if k == j then some v else find j m)
  unfolding find emplace
  find-emplace k j v [] h = refl
  find-emplace k j v ((i, w) ∷ m) h = ground (arith, find-emplace k j v m)
