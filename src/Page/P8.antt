-- ===== src/Page/P8.antt =====
-- `selected_runtime_rows` and `render` of tools/render_p8_results.py.
use interspec_typed_allocato.Prelude.{
  ℕ, Bool, false, not, ◌&&◌, ◌||◌, Option, none, some, List, [], ◌∷◌, ◌++◌, map, Text, codes,
  contains, same, text_lt, sort_by, join, if◌then◌else◌, ◌==◌, Result, ok, ◌>>=◌,
}
use interspec_typed_allocato.Prelude.Integers.{ℤ, pos, negsuc, ltb_ℤ}
use interspec_typed_allocato.Boundary.{replace_all}
use interspec_typed_allocato.NativeHeaders.{newline}
use interspec_typed_allocato.Page.{
  Row, cell, Numbers, Facts, float, int, num, pct, line_for, cells_line,
}
use interspec_typed_allocato.Page.P8Texts.{
  p8_opening, helper_note, runtime_opening, boundary_opening, application_opening, p8_closing,
}

abbrev pub metrics : List Text
metrics = codes "check_live" ∷ codes "remaining_bytes" ∷ []

unfoldable pub is_population : ℤ → Bool
is_population (pos n) = n == 1 || (n == 256 || (n == 4096 || n == 16384))
is_population (negsuc n) = false

abbrev pub is_one : ℤ → Bool
is_one n = not (ltb_ℤ n (pos 1)) && not (ltb_ℤ (pos 1) n)

-- A row that is selected, with its key.
pub record Selected : Type 0 where
  pub population : ℤ
  pub metric : Text
  pub row : Row

-- `<` of the keys.
unfoldable pub key_lt : Selected → Selected → Bool
unfolding text_lt
key_lt a b =
    ltb_ℤ a.population b.population
    || (not (ltb_ℤ b.population a.population) && text_lt a.metric b.metric)

module _ {F : Type 0} (numbers : Numbers F) where
  -- Whether the loop appends the row. The population is read only for one thread.
  unfoldable pub select_population : Text → Row → Result (Option Selected)
  unfolding is_population
  select_population metric row = do
    population_cell ← cell row (codes "population")
    population ← int numbers population_cell
    ok (
        if is_population population
        then some (record { population = population; metric = metric; row = row })
        else none)

  unfoldable pub select_thread : Text → Row → Result (Option Selected)
  select_thread metric row = do
    threads_cell ← cell row (codes "threads")
    threads ← int numbers threads_cell
    elim (is_one threads) [ Bool.true ↦ select_population metric row | Bool.false ↦ ok none ]

  unfoldable pub select_row : Row → Result (Option Selected)
  unfolding same
  select_row row = do
    metric ← cell row (codes "metric")
    elim (contains metrics metric) [ Bool.true ↦ select_thread metric row | Bool.false ↦ ok none ]

  unfoldable pub select_rows : List Row → Result (List Selected)
  select_rows [] = ok []
  select_rows (row ∷ rows) = do
    first ← select_row row
    rest ← select_rows rows
    ok (elim first [ none ↦ rest | some selected ↦ selected ∷ rest ])

  unfoldable pub selected_runtime_rows : List Row → Result (List Selected)
  unfolding select_rows sort_by key_lt
  selected_runtime_rows rows = do selected ← select_rows rows; ok (sort_by key_lt selected)

  unfoldable pub automation_line : Row → Result Text
  unfolding replace_all cells_line
  automation_line row = do
    boundary ← cell row (codes "boundary")
    sites ← cell row (codes "inferred_allocation_sites")
    helpers ← cell row (codes "integration_helper_sites")
    uses ← cell row (codes "trusted_uses")
    shapes ← cell row (codes "pointer_shapes")
    ok (
        cells_line
          (boundary ∷ sites ∷ helpers ∷ uses ∷ replace_all (codes ";") (codes ", ") 0 shapes ∷ []))

  unfoldable pub runtime_line : Row → Result Text
  unfolding num cells_line
  runtime_line row = do
    population ← cell row (codes "population")
    metric ← cell row (codes "metric")
    ns ← cell row (codes "ns_per_op")
    ns_per_op ← num numbers ns 2
    ok (cells_line (population ∷ metric ∷ ns_per_op ∷ []))

  -- A line of the last two tables, with two times, their difference and the overhead.
  unfoldable pub paired_line : Text → Text → Text → ℕ → Row → Result Text
  unfolding pct cells_line
  paired_line name baseline_column extended_column digits row = do
    baseline_cell ← cell row baseline_column
    baseline ← float numbers baseline_cell
    extended_cell ← cell row extended_column
    extended ← float numbers extended_cell
    title ← cell row name
    overhead_cell ← cell row (codes "paired_overhead_median_pct")
    overhead ← pct numbers overhead_cell
    ok (
        cells_line (
          title
          ∷ numbers.fixed baseline digits
          ∷ numbers.fixed extended digits
          ∷ numbers.fixed (numbers.minus extended baseline) digits
          ∷ overhead
          ∷ []))

  -- The lines of the third section, which is left out without rows.
  unfoldable pub runtime_section : List Row → Result (List Text)
  unfolding selected_runtime_rows line_for runtime_line
  runtime_section [] = ok []
  runtime_section (row ∷ rows) = do
    selected ← selected_runtime_rows (row ∷ rows)
    table ← line_for runtime_line (map (λ (s : Selected). s.row) selected)
    ok (runtime_opening ++ table)

  -- The titles of the later sections, by their numbers.
  abbrev boundary_title : Text → Text
  boundary_title number =
      codes "## " ++ (number ++ codes ". Incremental validation cost at real boundaries")

  abbrev application_title : Text → Text
  application_title number = codes "## " ++ (number ++ codes ". Complete rsync paired measurement")

  abbrev interpretation_title : Text → Text
  interpretation_title number = codes "## " ++ (number ++ codes ". Interpretation and limitations")

  abbrev later_sections : List Row → Text × Text × Text
  later_sections [] =
      (boundary_title (codes "3"), application_title (codes "4"), interpretation_title (codes "5"))
  later_sections (row ∷ rows) =
      (boundary_title (codes "4"), application_title (codes "5"), interpretation_title (codes "6"))

  -- `runtime_rows` of `None` are no rows.
  unfoldable pub render_p8 :
      Facts F → List Row → List Row → List Row → Text → Text → List Row → Result Text
  unfolding line_for automation_line runtime_section paired_line
  render_p8 facts automation_rows boundary_rows app_rows reference_commit environment_note
        runtime_rows =
      let (boundary_section, app_section, interpretation_section) = later_sections runtime_rows in
      line_for automation_line automation_rows >>= λ automation.
      runtime_section runtime_rows >>= λ runtime.
      line_for
        (paired_line (codes "boundary") (codes "baseline_median_ns") (codes "extended_median_ns") 2)
        boundary_rows
      >>= λ boundaries.
          line_for
            (paired_line (codes "workload") (codes "baseline_median_ms")
              (codes "extended_median_ms") 3)
            app_rows
          >>= λ applications. ok (
              join newline (
                p8_opening numbers facts reference_commit environment_note
                ++ (automation
                    ++ (helper_note
                        ++ (runtime
                            ++ (boundary_opening boundary_section
                                ++ (boundaries
                                    ++ (application_opening app_section
                                        ++ (applications
                                            ++ p8_closing interpretation_section)))))))))
