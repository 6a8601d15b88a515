-- ===== src/OrderedMap/Covers.antt =====
-- The interval that is found for an address is the one entry of the map that covers it.
use interspec_typed_allocato.Prelude.{
  ℕ, ◌≤◌, ◌<◌, ◌≡◌, subst, ◌&&◌, inl, inr, some, List, [], ◌∷◌, arith, ltb, leb, ◌==◌, Bool-cases,
}
use interspec_typed_allocato.OrderedMap.{find}
use interspec_typed_allocato.OrderedMap.Intervals.{Packed, Packed-le, holder, holder-IsIn}

module _ {V : Type 0} (low high : V → ℕ) where
  -- The value stands in the map under its low end, and the address lies in it.
  pub record Covers (m : List (ℕ × V)) (p : ℕ) (v : V) : Type 0 where
    pub live : find (low v) m ≡ some v
    pub low-le : low v ≤ p
    pub lt-high : p < high v

  pub find-IsIn :
      (lo hi k : ℕ) (m : List (ℕ × V)) {v : V}
      → Packed low high lo m hi
      → find k m ≡ some v
      → (lo ≤ k) × (low v ≡ k) × (high v ≤ hi) × (low v < high v)
  unfolding find
  find-IsIn lo hi k [] h e = absurd (ground arith)
  find-IsIn lo hi k ((j, w) ∷ m) {v} h e = elim (Bool-cases (j == k)) [
    | inl t ↦ ground (arith, Packed-le low high (high w) hi m h.3)
    | inr n ↦
        let i = find-IsIn (high w) hi k m {v = v} h.3 (rw (n, find) at e) in
        (omega (arith, i, h.1), i.1, i.2, i.3)
  ]

  pub holder-Covers :
      (lo hi p : ℕ) (m : List (ℕ × V)) {v : V}
      → Packed low high lo m hi
      → holder low high p m ≡ some v
      → Covers m p v
  unfolding find holder
  holder-Covers lo hi p [] h e = absurd (ground arith)
  holder-Covers lo hi p ((j, w) ∷ m) {v} h e = elim (Bool-cases (leb (low w) p && ltb p (high w))) [
    | inl t ↦
        let same : w ≡ v = ground arith in
        subst (Covers ((j, w) ∷ m) p) same
          (record { live = ground arith; low-le = ground arith; lt-high = ground arith })
    | inr f ↦
        let e' = rw (f, holder) at e in
        let (i, a, b) = holder-IsIn low high (high w) hi p m {v = v} h.3 e' in
        let ih = (holder-Covers (high w) hi p m {v = v} h.3 e').live in
        record { live = ground arith; low-le = a; lt-high = b }
  ]

  pub Covers-holder :
      (lo hi p : ℕ) (m : List (ℕ × V)) {v : V}
      → Packed low high lo m hi
      → Covers m p v
      → holder low high p m ≡ some v
  unfolding find holder
  Covers-holder lo hi p [] h c = absurd (let e = c.live in ground arith)
  Covers-holder lo hi p ((j, w) ∷ m) {v} h c =
      let e = c.live in
      elim (Bool-cases (j == low v)) [
        | inl t ↦ ground (arith, c.low-le, c.lt-high)
        | inr f ↦
            let e' = rw (f, find) at e in
            let i = find-IsIn (high w) hi (low v) m {v = v} h.3 e' in
            let ih =
              Covers-holder (high w) hi p m {v = v} h.3
                (record { live = e'; low-le = c.low-le; lt-high = c.lt-high }) in
            ground (arith, c.low-le)
      ]
