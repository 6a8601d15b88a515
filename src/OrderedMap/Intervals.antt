-- ===== src/OrderedMap/Intervals.antt =====
-- Maps whose values are intervals that do not overlap, in the order of the addresses: the lookup in
-- front of a bound finds the interval that holds an address.
use interspec_typed_allocato.Prelude.{
  ℕ, suc, ◌≤◌, ◌<◌, ◌≡◌, refl, true, ◌&&◌, inl, inr, Option, none, some, List, [], ◌∷◌, arith, ltb,
  lt→ltb, leb, ◌==◌, if◌then◌else◌, Bool-cases, Option-cases,
}
use interspec_typed_allocato.OrderedMap.{find, emplace, erase, from_bound, before_bound}

abbrev pub AllOf : {V : Type 0} → (V → Type 0) → Option V → Type 0
AllOf P none = Unit
AllOf P (some v) = P v

module _ {V : Type 0} (low high : V → ℕ) where
  -- Each value stands under its low end, is not empty, and ends where the next one may begin.
  abbrev pub Packed : ℕ → List (ℕ × V) → ℕ → Type 0
  Packed lo [] hi = lo ≤ hi
  Packed lo ((k, v) ∷ m) hi = (lo ≤ k) × (low v ≡ k) × (k < high v) × Packed (high v) m hi

  -- The interval that holds an address, by a search through all of them.
  unfoldable pub holder : ℕ → List (ℕ × V) → Option V
  holder p [] = none
  holder p ((k, v) ∷ m) = if leb (low v) p && ltb p (high v) then some v else holder p m

  -- The interval in front of the bound, where it reaches the address.
  unfoldable pub reaching : ℕ → Option V → Option V
  reaching p none = none
  reaching p (some v) = if ltb p (high v) then some v else none

  below-none :
      (lo hi p : ℕ) (m : List (ℕ × V))
      → Packed lo m hi
      → p < lo
      → (before_bound (suc p) m ≡ none) × (holder p m ≡ none)
  unfolding before_bound holder
  below-none lo hi p [] h l = (refl, refl)
  below-none lo hi p ((k, v) ∷ m) h l = ground (arith, below-none (high v) hi p m)

  pub reaching-holder :
      (lo hi p : ℕ) (m : List (ℕ × V))
      → Packed lo m hi
      → reaching p (before_bound (suc p) m) ≡ holder p m
  unfolding before_bound holder reaching
  reaching-holder lo hi p [] h = refl
  reaching-holder lo hi p ((k, v) ∷ m) h =
      ground (arith, below-none (high v) hi p m, reaching-holder (high v) hi p m)

  pub before-IsIn :
      (lo hi k : ℕ) (m : List (ℕ × V)) {v : V}
      → Packed lo m hi
      → before_bound k m ≡ some v
      → (lo ≤ low v) × (low v < high v) × (low v < k)
  unfolding before_bound
  before-IsIn lo hi k [] h e = absurd (ground arith)
  before-IsIn lo hi k ((j, w) ∷ m) {v} h e = elim (Option-cases (before_bound k m)) [
    | inl n ↦ ground arith
    | inr (u, s) ↦ ground (arith, before-IsIn (high w) hi k m {v = u} h.3 s)
  ]

  pub Packed-raise :
      (lo hi hi' : ℕ) (m : List (ℕ × V)) → hi ≤ hi' → Packed lo m hi → Packed lo m hi'
  Packed-raise lo hi hi' [] r h = omega arith
  Packed-raise lo hi hi' ((k, v) ∷ m) r h = (h.0, h.1, h.2, Packed-raise (high v) hi hi' m r h.3)

  pub Packed-lower :
      (lo lo' hi : ℕ) (m : List (ℕ × V)) → lo' ≤ lo → Packed lo m hi → Packed lo' m hi
  Packed-lower lo lo' hi [] r h = omega arith
  Packed-lower lo lo' hi ((k, v) ∷ m) r h = (omega arith, h.1, h.2, h.3)

  pub Packed-le : (lo hi : ℕ) (m : List (ℕ × V)) → Packed lo m hi → lo ≤ hi
  Packed-le lo hi [] h = h
  Packed-le lo hi ((k, v) ∷ m) h = omega (arith, Packed-le (high v) hi m h.3)

  -- Where the interval in front of the bound ends before it, so do the ones before that.
  before-end :
      (lo hi k j : ℕ) (w : V) (m : List (ℕ × V))
      → Packed lo ((j, w) ∷ m) hi
      → ltb j k ≡ true
      → AllOf (λ n. high n ≤ k) (before_bound k ((j, w) ∷ m))
      → (high w ≤ k) × AllOf (λ n. high n ≤ k) (before_bound k m)
  unfolding before_bound
  before-end lo hi k j w m h t prev = elim (Option-cases (before_bound k m)) [
    | inl n ↦ let p = rw (t, n) at prev in (p, rw n tt)
    | inr (u, s) ↦
        let p = rw (t, s) at prev in
        let (a, b, _) = before-IsIn (high w) hi k m h.3 s in (omega arith, rw s p)
  ]

  -- A new interval that ends in front of the next one and begins behind the one before.
  pub emplace-Packed :
      (lo hi : ℕ) (v : V) (m : List (ℕ × V))
      → Packed lo m hi
      → lo ≤ low v
      → low v < high v
      → high v ≤ hi
      → AllOf (λ n. high v ≤ low n) (from_bound (low v) m)
      → AllOf (λ n. high n ≤ low v) (before_bound (low v) m)
      → Packed lo (emplace (low v) v m) hi
  unfolding emplace from_bound before_bound
  emplace-Packed lo hi v [] h a b c next prev = ground arith
  emplace-Packed lo hi v ((j, w) ∷ m) h a b c next prev = elim (Bool-cases (ltb j (low v))) [
    | inl under ↦
        let (e, more) = before-end lo hi (low v) j w m h under prev in
        let place =
          emplace-Packed (high w) hi v m h.3 e b c (rw (under, from_bound) at next) more in
        ground arith
    | inr over ↦ let n = rw (over, from_bound) at next in ground arith
  ]

  -- Nothing stands at the end or behind it.
  pub at_end :
      (lo hi : ℕ) (m : List (ℕ × V))
      → Packed lo m hi
      → (from_bound hi m ≡ none) × AllOf (λ n. high n ≤ hi) (before_bound hi m) × (find hi m ≡ none)
  unfolding from_bound before_bound find
  at_end lo hi [] h = (refl, tt, refl)
  at_end lo hi ((k, v) ∷ m) h =
      let le = Packed-le (high v) hi m h.3 in
      let (a, b, c) = at_end (high v) hi m h.3 in
      let before : AllOf (λ n. high n ≤ hi) (before_bound hi ((k, v) ∷ m)) =
        elim (Option-cases (before_bound hi m)) [
          | inl n ↦ rw (lt→ltb k hi (omega arith), n) (le)
          | inr (u, s) ↦ rw (lt→ltb k hi (omega arith), s) (rw s at b)
        ] in
      (ground arith, before, ground arith)

  -- It holds its own addresses, and the others are held as before.
  pub holder-emplace :
      (lo hi p : ℕ) (v : V) (m : List (ℕ × V))
      → Packed lo m hi
      → low v < high v
      → AllOf (λ n. high v ≤ low n) (from_bound (low v) m)
      → AllOf (λ n. high n ≤ low v) (before_bound (low v) m)
      → holder p (emplace (low v) v m)
        ≡ (if leb (low v) p && ltb p (high v) then some v else holder p m)
  unfolding emplace from_bound before_bound holder
  holder-emplace lo hi p v [] h b next prev = refl
  holder-emplace lo hi p v ((j, w) ∷ m) h b next prev = elim (Bool-cases (ltb j (low v))) [
    | inl under ↦
        let (e, more) = before-end lo hi (low v) j w m h under prev in
        let rest = holder-emplace (high w) hi p v m h.3 b (rw (under, from_bound) at next) more in
        ground arith
    | inr over ↦ let n = rw (over, from_bound) at next in ground arith
  ]

  pub erase-Packed : (lo hi k : ℕ) (m : List (ℕ × V)) → Packed lo m hi → Packed lo (erase k m) hi
  unfolding erase
  erase-Packed lo hi k [] h = h
  erase-Packed lo hi k ((j, v) ∷ m) h = elim (Bool-cases (j == k)) [
    | inl e ↦ rw (e, erase) (Packed-lower (high v) lo hi m (omega arith) h.3)
    | inr n ↦ rw (n, erase) (h.0, h.1, h.2, erase-Packed (high v) hi k m h.3)
  ]

  -- The value unless it stands under `k`.
  abbrev pub unless_at : ℕ → Option V → Option V
  unless_at k none = none
  unless_at k (some v) = if low v == k then none else some v

  pub holder-IsIn :
      (lo hi p : ℕ) (m : List (ℕ × V)) {v : V}
      → Packed lo m hi
      → holder p m ≡ some v
      → (lo ≤ low v) × (low v ≤ p) × (p < high v)
  unfolding holder
  holder-IsIn lo hi p [] h e = absurd (ground arith)
  holder-IsIn lo hi p ((j, w) ∷ m) {v} h e = elim (Bool-cases (leb (low w) p && ltb p (high w))) [
    | inl t ↦ ground arith
    | inr f ↦ let i = holder-IsIn (high w) hi p m {v = v} h.3 (rw (f, holder) at e) in omega arith
  ]

  holder-unless :
      (lo hi p k : ℕ) (m : List (ℕ × V))
      → Packed lo m hi
      → k < lo
      → unless_at k (holder p m) ≡ holder p m
  holder-unless lo hi p k m h l = elim (Option-cases (holder p m)) [
    | inl n ↦ rw n
    | inr (v, s) ↦ let i = holder-IsIn lo hi p m {v = v} h s in rw s (ground arith)
  ]

  -- Without the value at `k` its addresses are held by nothing.
  pub holder-erase :
      (lo hi p k : ℕ) (m : List (ℕ × V))
      → Packed lo m hi
      → holder p (erase k m) ≡ unless_at k (holder p m)
  unfolding erase holder
  holder-erase lo hi p k [] h = refl
  holder-erase lo hi p k ((j, v) ∷ m) h = elim (Bool-cases (j == k)) [
    | inl e ↦
        let rest = holder-unless (high v) hi p k m h.3 (ground arith) in
        ground (arith, below-none (high v) hi p m h.3)
    | inr n ↦ let ih = holder-erase (high v) hi p k m h.3 in ground arith
  ]
