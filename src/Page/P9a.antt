-- ===== src/Page/P9a.antt =====
-- `render` of tools/render_p9a_results.py.
use interspec_typed_allocato.Prelude.{List, [], ◌∷◌, ◌++◌, Text, codes, join, Result, ok, ◌>>=◌}
use interspec_typed_allocato.NativeHeaders.{newline}
use interspec_typed_allocato.Page.{Row, cell, Numbers, num, pct, line_for, cells_line}
use interspec_typed_allocato.Page.P9aTexts.{p9a_opening, p9a_closing}

module _ {F : Type 0} (numbers : Numbers F) where
  -- The cells of a workload: its name, three times and three overheads.
  unfoldable pub p9a_cells : Row → Result (List Text)
  unfolding num pct
  p9a_cells row = do
    workload ← cell row (codes "workload")
    rlbox ← cell row (codes "rlbox_median_ms")
    rlbox_ms ← num numbers rlbox 3
    tracked ← cell row (codes "tracked_median_ms")
    tracked_ms ← num numbers tracked 3
    extended ← cell row (codes "extended_median_ms")
    extended_ms ← num numbers extended 3
    tracking ← cell row (codes "tracking_overhead_median_pct")
    tracking_pct ← pct numbers tracking
    validation ← cell row (codes "validation_overhead_median_pct")
    validation_pct ← pct numbers validation
    total ← cell row (codes "total_overhead_median_pct")
    total_pct ← pct numbers total
    ok (
        workload ∷ rlbox_ms ∷ tracked_ms ∷ extended_ms ∷ tracking_pct ∷ validation_pct ∷ total_pct
        ∷ [])

  unfoldable pub p9a_line : Row → Result Text
  unfolding p9a_cells cells_line
  p9a_line row = do cells ← p9a_cells row; ok (cells_line cells)

  unfoldable pub render_p9a : List Row → Text → Text → Result Text
  unfolding line_for p9a_line
  render_p9a rows reference_commit environment_note = do
    table ← line_for p9a_line rows
    ok (join newline (p9a_opening reference_commit environment_note ++ (table ++ p9a_closing)))
