-- ===== src/Registration/Accepted.antt =====
-- A runtime accepts the types that the generators accept.
use interspec_typed_allocato.Prelude.{
  ℕ, ◌<◌, ◌≡◌, ◌≢◌, refl, sym, ap, subst, ◌∙◌, Bool, true, none, some, List, [], ◌∷◌, arith, Text,
  All, ok,
}
use interspec_typed_allocato.Hash.{hash_type}
use interspec_typed_allocato.OrderedMap.{find, emplace}
use interspec_typed_allocato.OrderedMap.Laws.{find-emplace}
use interspec_typed_allocato.TypeIds.{Ids, number_types, names_of, type_ids}
use interspec_typed_allocato.TypeIds.Numbering.{
  DistinctHashes, number_types-enumerate, names_of-enumerate,
}
use interspec_typed_allocato.Registration.Numbers.{DistinctNumbers, number_types_distinct}
use interspec_typed_allocato.TypeIds.Accepted.{type_ids-ok_iff}
use interspec_typed_allocato.Runtime.{Runtime, new_runtime, register_type}
use interspec_typed_allocato.Registration.{register_types_loop}

-- A type that a runtime does not have, neither by its number nor by its hash.
pub record IsNew (r : Runtime) (entry : Text × ℕ) : Type 0 where
  pub positive : 0 < entry.1
  pub new_id : find entry.1 r.types ≡ none
  pub new_hash : find (hash_type entry.0) r.type_ids ≡ none

-- The types differ in their numbers and in their hashes.
abbrev pub Differs : Text × ℕ → Text × ℕ → Type 0
Differs a b = (a.1 ≢ b.1) × (hash_type a.0 ≢ hash_type b.0)

abbrev pub AllDiffer : Ids → Type 0
AllDiffer [] = Unit
AllDiffer (e ∷ ids) = All (Differs e) ids × AllDiffer ids

-- The runtime with one type more.
abbrev with_type : Text × ℕ → Runtime → Runtime
with_type e r = record r {
  types = emplace e.1 (hash_type e.0) r.types;
  type_ids = emplace (hash_type e.0) e.1 r.type_ids;
}

register_type_new :
    (e : Text × ℕ) (r : Runtime)
    → IsNew r e
    → register_type e.1 (hash_type e.0) r ≡ (with_type e r, true)
unfolding register_type
register_type_new e r n = ground (arith, n.positive, n.new_id, n.new_hash)

IsNew-with_type :
    (e f : Text × ℕ) (r : Runtime) → IsNew r e → IsNew r f → Differs e f → IsNew (with_type e r) f
IsNew-with_type e f r n m d = record {
  positive = m.positive;
  new_id = find-emplace e.1 f.1 (hash_type e.0) r.types n.new_id ∙ ground (arith, m.new_id);
  new_hash =
      find-emplace (hash_type e.0) (hash_type f.0) e.1 r.type_ids n.new_hash
      ∙ ground (arith, m.new_hash);
}

All-with_type :
    (e : Text × ℕ) (ids : Ids) (r : Runtime)
    → IsNew r e
    → All (IsNew r) ids
    → All (Differs e) ids
    → All (IsNew (with_type e r)) ids
All-with_type e [] r n ns ds = tt
All-with_type e (f ∷ ids) r n (m, ns) (d, ds) =
    (IsNew-with_type e f r n m d, All-with_type e ids r n ns ds)

-- What is registered stays registered.
loop-keeps :
    (ids : Ids) (r : Runtime) (k h : ℕ)
    → All (IsNew r) ids
    → AllDiffer ids
    → find k r.types ≡ some h
    → find k (register_types_loop true ids r).0.types ≡ some h
unfolding register_types_loop
loop-keeps [] r k h ns ds f = f
loop-keeps (e ∷ ids) r k h (n, ns) (d, ds) f =
    rw (register_type_new e r n, register_types_loop)
      (loop-keeps ids (with_type e r) k h (All-with_type e ids r n ns d) ds
        (find-emplace e.1 k (hash_type e.0) r.types n.new_id ∙ ground (arith, n.new_id, f)))

-- The registration succeeded: every type stands for its hash, and the sites are as before.
pub record Accepts (ids : Ids) (sites : List (ℕ × ℕ)) (result : Runtime × Bool) : Type 0 where
  pub done : result.1 ≡ true
  pub sites_kept : result.0.site_types ≡ sites
  pub found : All (λ (e : Text × ℕ). find e.1 result.0.types ≡ some (hash_type e.0)) ids

loop_new :
    (e : Text × ℕ) (ids : Ids) (r : Runtime)
    → IsNew r e
    → register_types_loop true (e ∷ ids) r ≡ register_types_loop true ids (with_type e r)
unfolding register_types_loop
loop_new e ids r n = rw (register_type_new e r n, register_types_loop) refl

loop-Accepts :
    (ids : Ids) (r : Runtime)
    → All (IsNew r) ids
    → AllDiffer ids
    → Accepts ids r.site_types (register_types_loop true ids r)
unfolding register_types_loop
loop-Accepts [] r ns ds = record { done = refl; sites_kept = refl; found = tt }
loop-Accepts (e ∷ ids) r (n, ns) (d, ds) =
    let new = All-with_type e ids r n ns d in
    let rest = loop-Accepts ids (with_type e r) new ds in
    let kept =
      loop-keeps ids (with_type e r) e.1 (hash_type e.0) new ds
        (find-emplace e.1 e.1 (hash_type e.0) r.types n.new_id ∙ ground arith) in
    subst (Accepts (e ∷ ids) r.site_types) (sym (loop_new e ids r n))
      (record { done = rest.done; sites_kept = rest.sites_kept; found = (kept, rest.found) })

IsNew-new_runtime :
    (ids : Ids) (base size : ℕ)
    → All (λ (e : Text × ℕ). 0 < e.1) ids
    → All (IsNew (new_runtime base size)) ids
unfolding find new_runtime
IsNew-new_runtime [] base size h = tt
IsNew-new_runtime (e ∷ ids) base size (p, h) =
    (record { positive = p; new_id = refl; new_hash = refl }, IsNew-new_runtime ids base size h)

All-Differs :
    (e : Text × ℕ) (ids : Ids)
    → All (λ (f : Text × ℕ). e.1 ≢ f.1) ids
    → All (λ other. hash_type e.0 ≢ hash_type other) (names_of ids)
    → All (Differs e) ids
All-Differs e [] n h = tt
All-Differs e (f ∷ ids) (n, ns) (h, hs) = ((n, h), All-Differs e ids ns hs)

AllDiffer-join : (ids : Ids) → DistinctNumbers ids → DistinctHashes (names_of ids) → AllDiffer ids
AllDiffer-join [] n h = tt
AllDiffer-join (e ∷ ids) (n, ns) (h, hs) = (All-Differs e ids n h, AllDiffer-join ids ns hs)

-- Where no two of the names have one hash, a new runtime takes their numbers.
pub numbered-Accepts :
    (types : List Text) (base size : ℕ)
    → DistinctHashes (names_of (number_types 1 [] types))
    → Accepts
        (number_types 1 [] types)
        []
        (register_types_loop true (number_types 1 [] types) (new_runtime base size))
unfolding new_runtime
numbered-Accepts types base size h =
    let (positive, distinct) = number_types_distinct types 1 [] (omega arith) tt tt in
    let ids = number_types 1 [] types in
    loop-Accepts ids (new_runtime base size) (IsNew-new_runtime ids base size positive)
      (AllDiffer-join ids distinct h)

-- A new runtime accepts every type that `type_ids` has numbered: the loop succeeds, after it
-- each number stands for the hash of its type, and no site is registered yet.
pub register_types-Accepts :
    (types : List Text) (ids : Ids) (base size : ℕ)
    → type_ids types ≡ ok ids
    → Accepts ids [] (register_types_loop true ids (new_runtime base size))
register_types-Accepts types ids base size h =
    let (fresh, distinct, e) = (type_ids-ok_iff types ids).0 h in
    let numbered = number_types-enumerate types 1 [] fresh in
    subst (λ k. Accepts k [] (register_types_loop true k (new_runtime base size)))
      (numbered ∙ sym e)
      (numbered-Accepts types base size
        (subst DistinctHashes (sym (ap names_of numbered ∙ names_of-enumerate 1 types)) distinct))
