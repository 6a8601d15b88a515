-- ===== src/Page/Selected.antt =====
-- The rows of the runtime table: which are selected, and in which order.
use mathlib.Core.List.{Perm}
use interspec_typed_allocato.Prelude.{
  ◌≡◌, refl, sym, ap, ◌∙◌, subst, Bool, true, false, inl, inr, ◌⊎◌, Option, none, some, List, [],
  ◌∷◌, arith, Text, codes, contains, text_lt, Ordered, sort_by-perm, sort_by-Ordered, Bool-cases,
  missing_key, bad_number, Result, ok, err, >>=-eq-ok, from_option-eq-ok, if◌then◌else◌,
}
use interspec_typed_allocato.Prelude.Integers.{ℤ, ltb_ℤ}
use interspec_typed_allocato.Page.{Row, cell, Numbers, int}
use interspec_typed_allocato.Page.P8.{
  metrics, is_population, is_one, Selected, key_lt, select_population, select_thread, select_row,
  select_rows, selected_runtime_rows,
}

text_lt-asym : (a b : Text) → text_lt a b ≡ true → text_lt b a ≡ false
unfolding text_lt
text_lt-asym [] [] h = refl
text_lt-asym [] (y ∷ b) h = refl
text_lt-asym (x ∷ a) [] h = cc
text_lt-asym (x ∷ a) (y ∷ b) h = ground (arith, text_lt-asym a b)

text_lt-ge_trans : (a b c : Text) → text_lt a b ≡ false → text_lt b c ≡ false → text_lt a c ≡ false
unfolding text_lt
text_lt-ge_trans [] [] c h k = k
text_lt-ge_trans [] (y ∷ b) c h k = cc
text_lt-ge_trans (x ∷ a) b [] h k = refl
text_lt-ge_trans (x ∷ a) [] (z ∷ c) h k = cc
text_lt-ge_trans (x ∷ a) (y ∷ b) (z ∷ c) h k = ground (arith, text_lt-ge_trans a b c)

ltb_ℤ-asym : (a b : ℤ) → ltb_ℤ a b ≡ true → ltb_ℤ b a ≡ false
ltb_ℤ-asym a b h = ground arith

ltb_ℤ-ge_trans : (a b c : ℤ) → ltb_ℤ a b ≡ false → ltb_ℤ b c ≡ false → ltb_ℤ a c ≡ false
ltb_ℤ-ge_trans a b c h k = ground arith

key_lt-asym : (a b : Selected) → key_lt a b ≡ true → key_lt b a ≡ false
unfolding key_lt
key_lt-asym a b h =
    ground (arith, ltb_ℤ-asym a.population b.population, text_lt-asym a.metric b.metric)

key_lt-ge_trans : (a b c : Selected) → key_lt a b ≡ false → key_lt b c ≡ false → key_lt a c ≡ false
unfolding key_lt
key_lt-ge_trans a b c h k = ground (
  arith,
  ltb_ℤ-ge_trans a.population b.population c.population,
  ltb_ℤ-ge_trans b.population a.population c.population,
  ltb_ℤ-ge_trans a.population c.population b.population,
  ltb_ℤ-ge_trans c.population b.population a.population,
  ltb_ℤ-ge_trans b.population c.population a.population,
  ltb_ℤ-ge_trans c.population a.population b.population,
  text_lt-ge_trans a.metric b.metric c.metric,
)

module _ {F : Type 0} (numbers : Numbers F) where
  -- The cell of a row, read as an integer.
  pub record HasInt (row : Row) (name : Text) (n : ℤ) : Type 0 where
    pub text : Text
    pub there : row name ≡ some text
    pub reads : numbers.read_int text ≡ some n

  -- One of the two metrics, for one thread and one of the four populations.
  pub record IsChosen (row : Row) (s : Selected) : Type 0 where
    pub row_is : s.row ≡ row
    pub metric_is : row (codes "metric") ≡ some s.metric
    pub is_metric : contains metrics s.metric ≡ true
    pub threads : ℤ
    pub threads_are : HasInt row (codes "threads") threads
    pub one_thread : is_one threads ≡ true
    pub population_is : HasInt row (codes "population") s.population
    pub is_population_of : is_population s.population ≡ true

  -- Another metric, several threads or another population.
  abbrev pub IsLeft : Row → Type 0
  IsLeft row =
      ((metric : Text) × (row (codes "metric") ≡ some metric) × (contains metrics metric ≡ false))
      ⊎ (((threads : ℤ) × HasInt row (codes "threads") threads × (is_one threads ≡ false))
          ⊎ ((population : ℤ) × HasInt row (codes "population") population
              × (is_population population ≡ false)))

  -- The rows in their order, each one chosen or left.
  abbrev pub Selection : List Row → List Selected → Type 0
  Selection [] chosen = chosen ≡ []
  Selection (row ∷ rows) chosen =
      ((s : Selected) × (rest : List Selected) × (chosen ≡ s ∷ rest)
        × IsChosen row s
        × Selection rows rest)
      ⊎ (IsLeft row × Selection rows chosen)

  cell-there :
      (row : Row) (name : Text) {text : Text} → cell row name ≡ ok text → row name ≡ some text
  cell-there row name h = from_option-eq-ok (missing_key name) (row name) h

  cell-HasInt :
      (row : Row) (name text : Text) {n : ℤ}
      → cell row name ≡ ok text
      → int numbers text ≡ ok n
      → HasInt row name n
  cell-HasInt row name text h k = record {
    text = text;
    there = cell-there row name h;
    reads = from_option-eq-ok (bad_number text) (numbers.read_int text) k;
  }

  -- What was decided about a row.
  abbrev Decided : Row → Option Selected → Type 0
  Decided row none = IsLeft row
  Decided row (some s) = IsChosen row s

  decision_injective : {x y : Option Selected} → ok x ≡ ok y → x ≡ y
  decision_injective {x} h =
      ap (λ (r : Result (Option Selected)). elim r [ ok a ↦ a | err _ ↦ x ]) h

  -- The decision by the population, behind those by the metric and by the threads.
  population-Decided :
      (metric : Text) (row : Row) (threads : ℤ) {decision : Option Selected}
      → row (codes "metric") ≡ some metric
      → contains metrics metric ≡ true
      → HasInt row (codes "threads") threads
      → is_one threads ≡ true
      → select_population numbers metric row ≡ ok decision
      → Decided row decision
  unfolding select_population
  population-Decided metric row threads e y t one h =
      let (text, c, h₁) = >>=-eq-ok (cell row (codes "population")) _ h in
      let (population, i, h₂) = >>=-eq-ok (int numbers text) _ h₁ in
      let has = cell-HasInt row (codes "population") text c i in
      let same_decision = decision_injective h₂ in
      elim (Bool-cases (is_population population)) [
        | inr n ↦
            subst (Decided row)
              (ap
                  (λ (b : Bool).
                    if b
                    then some (record { population = population; metric = metric; row = row })
                    else none)
                  (sym n)
                ∙ same_decision)
              (inr (inr (population, has, n)))
        | inl p ↦
            subst (Decided row)
              (ap
                  (λ (b : Bool).
                    if b
                    then some (record { population = population; metric = metric; row = row })
                    else none)
                  (sym p)
                ∙ same_decision)
              (record {
                row_is = refl;
                metric_is = e;
                is_metric = y;
                threads = threads;
                threads_are = t;
                one_thread = one;
                population_is = has;
                is_population_of = p;
              })
      ]

  thread-Decided :
      (metric : Text) (row : Row) {decision : Option Selected}
      → row (codes "metric") ≡ some metric
      → contains metrics metric ≡ true
      → select_thread numbers metric row ≡ ok decision
      → Decided row decision
  unfolding select_thread
  thread-Decided metric row e y h =
      let (text, c, h₁) = >>=-eq-ok (cell row (codes "threads")) _ h in
      let (threads, i, h₂) = >>=-eq-ok (int numbers text) _ h₁ in
      let has = cell-HasInt row (codes "threads") text c i in
      elim (Bool-cases (is_one threads)) [
        | inr n ↦
            subst (Decided row) (decision_injective (rw n at h₂)) (inr (inl (threads, has, n)))
        | inl one ↦ population-Decided metric row threads e y has one (rw one at h₂)
      ]

  select_row-Decided :
      (row : Row) {decision : Option Selected}
      → select_row numbers row ≡ ok decision
      → Decided row decision
  unfolding select_row
  select_row-Decided row {decision} h =
      let (metric, c, h₁) = >>=-eq-ok (cell row (codes "metric")) _ h in
      let e = cell-there row (codes "metric") c in
      elim (Bool-cases (contains metrics metric)) [
        | inr n ↦ subst (Decided row) (decision_injective (rw n at h₁)) (inl (metric, e, n))
        | inl y ↦ thread-Decided metric row e y (rw y at h₁)
      ]

  list_injective : {x y : List Selected} → ok x ≡ ok y → x ≡ y
  list_injective {x} h = ap (λ (r : Result (List Selected)). elim r [ ok a ↦ a | err _ ↦ x ]) h

  extend :
      (row : Row) (rows : List Row) (decision : Option Selected) (rest : List Selected)
      → Decided row decision
      → Selection rows rest
      → Selection (row ∷ rows) (elim decision [ none ↦ rest | some s ↦ s ∷ rest ])
  extend row rows none rest d k = inr (d, k)
  extend row rows (some s) rest d k = inl (s, rest, refl, d, k)

  select_rows-Selection :
      (rows : List Row) {chosen : List Selected}
      → select_rows numbers rows ≡ ok chosen
      → Selection rows chosen
  unfolding select_rows
  select_rows-Selection [] h = sym (list_injective h)
  select_rows-Selection (row ∷ rows) h =
      let (decision, e, h₁) = >>=-eq-ok (select_row numbers row) _ h in
      let (rest, e', h₂) = >>=-eq-ok (select_rows numbers rows) _ h₁ in
      subst (Selection (row ∷ rows)) (list_injective h₂)
        (extend row rows decision rest (select_row-Decided row e) (select_rows-Selection rows e'))

  -- The rows of the runtime table are those of the two metrics, one thread and one of the four
  -- populations, each of them once, and no row stands in front of one with a smaller population or with
  -- the same one and a smaller metric.
  pub selected_runtime_rows-Selection :
      (rows : List Row) {selected : List Selected}
      → selected_runtime_rows numbers rows ≡ ok selected
      → (chosen : List Selected) × Selection rows chosen
        × Perm selected chosen
        × Ordered key_lt selected
  unfolding selected_runtime_rows
  selected_runtime_rows-Selection rows h =
      let (chosen, e, h₁) = >>=-eq-ok (select_rows numbers rows) _ h in
      let sorted = list_injective h₁ in
      (
        chosen,
        select_rows-Selection rows e,
        subst (λ s. Perm s chosen) sorted (sort_by-perm key_lt chosen),
        subst (Ordered key_lt) sorted (sort_by-Ordered key_lt key_lt-asym key_lt-ge_trans chosen),
      )
