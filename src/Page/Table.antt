-- ===== src/Page/Table.antt =====
-- The table of a page is read back.
use interspec_typed_allocato.Prelude.{
  ℕ, ◌≡◌, refl, sym, ap, ap₂, ◌∙◌, false, some, List, [], ◌∷◌, ◌++◌, map, Text, All, ◌==◌,
  if◌then◌else◌, join, ok, codes,
}
use interspec_typed_allocato.NativeHeaders.{newline}
use interspec_typed_allocato.Page.{Row, Numbers, line_for, cells_line}
use interspec_typed_allocato.Page.P9a.{p9a_cells, p9a_line, render_p9a}
use interspec_typed_allocato.Page.P9aTexts.{p9a_opening, p9a_closing}

-- The text up to the last character.
abbrev drop_end : Text → Text
drop_end [] = []
drop_end (c ∷ []) = []
drop_end (c ∷ d ∷ text) = c ∷ drop_end (d ∷ text)

-- The text up to the first bar, and the texts behind each bar up to the next one.
unfoldable at_bars : Text → Text × List Text
at_bars [] = ([], [])
at_bars (c ∷ text) =
    let split = at_bars text in
    if c == b'|' then ([], split.0 ∷ split.1) else (c ∷ split.0, split.1)

-- Without the space in front and the one behind.
abbrev unpad : Text → Text
unpad [] = []
unpad (c ∷ text) = drop_end text

-- All but the last, which is what stands behind the last bar.
abbrev unpad_all : List Text → List Text
unpad_all [] = []
unpad_all (text ∷ []) = []
unpad_all (text ∷ next ∷ texts) = unpad text ∷ unpad_all (next ∷ texts)

-- A reader of table lines.
unfoldable pub read_cells : Text → List Text
unfolding at_bars
read_cells line = unpad_all (at_bars line).1

abbrev pub NoBar : Text → Type 0
NoBar text = All (λ (c : ℕ). (c == b'|') ≡ false) text

drop_end-append : (text : Text) (c : ℕ) → drop_end (text ++ (c ∷ [])) ≡ text
drop_end-append [] c = refl
drop_end-append (d ∷ []) c = refl
drop_end-append (d ∷ e ∷ text) c = ap (◌∷◌ d) (drop_end-append (e ∷ text) c)

at_bars-append :
    (text rest : Text)
    → NoBar text
    → at_bars (text ++ rest) ≡ (text ++ (at_bars rest).0, (at_bars rest).1)
unfolding at_bars
at_bars-append [] rest h = refl
at_bars-append (c ∷ text) rest (n, h) =
    rw (n, at_bars) (ap (λ (p : Text × List Text). (c ∷ p.0, p.1)) (at_bars-append text rest h))

-- A line of a table begins with a bar.
at_bars-cells_line : (cells : List Text) → (at_bars (cells_line cells)).0 ≡ []
unfolding at_bars cells_line
at_bars-cells_line [] = refl
at_bars-cells_line (text ∷ cells) = refl

behind_bar :
    (text : Text) (cells : List Text)
    → NoBar text
    → (at_bars (cells_line (text ∷ cells))).1
      ≡ (b' ' ∷ (text ++ (b' ' ∷ []))) ∷ (at_bars (cells_line cells)).1
unfolding cells_line at_bars
behind_bar text cells h =
    let split = at_bars-append text (b' ' ∷ cells_line cells) h in
    ap₂ (λ first more. (b' ' ∷ first) ∷ more)
      (ap (λ (p : Text × List Text). p.0) split
        ∙ ap (λ first. text ++ (b' ' ∷ first)) (at_bars-cells_line cells))
      (ap (λ (p : Text × List Text). p.1) split)

some_bar :
    (cells : List Text)
    → (first : Text) × (rest : List Text) × ((at_bars (cells_line cells)).1 ≡ first ∷ rest)
unfolding cells_line at_bars
some_bar [] = ([], [], refl)
some_bar (text ∷ cells) = (_, _, refl)

no_cells : unpad_all (at_bars (cells_line [])).1 ≡ []
unfolding cells_line at_bars
no_cells = refl

-- A line of a table is read back to its cells, where none of them has a bar.
read_cells-cells_line :
    (cells : List Text) → All NoBar cells → read_cells (cells_line cells) ≡ cells
unfolding read_cells
read_cells-cells_line [] h = no_cells
read_cells-cells_line (text ∷ cells) (h, more) =
    let (first, rest, e) = some_bar cells in
    ap unpad_all (behind_bar text cells h)
    ∙ ap (λ texts. unpad_all ((b' ' ∷ (text ++ (b' ' ∷ []))) ∷ texts)) e
    ∙ ap₂ ◌∷◌ (drop_end-append text b' ') (ap unpad_all (sym e) ∙ read_cells-cells_line cells more)

-- The column of the row holds the number.
abbrev pub Holds : {F : Type 0} → Numbers F → Row → Text → F → Type 0
Holds numbers row name number =
    (text : Text) × (row name ≡ some text) × (numbers.read_float text ≡ some number)

module _ {F : Type 0} (numbers : Numbers F) where
  -- What a row of the results says of its workload: the medians of the three kinds of runs in
  -- milliseconds, and those of the three overheads in percent.
  pub record Workload (row : Row) : Type 0 where
    pub name : Text
    pub name_is : row (codes "workload") ≡ some name
    pub rlbox_ms : F
    pub rlbox_is : Holds numbers row (codes "rlbox_median_ms") rlbox_ms
    pub tracked_ms : F
    pub tracked_is : Holds numbers row (codes "tracked_median_ms") tracked_ms
    pub extended_ms : F
    pub extended_is : Holds numbers row (codes "extended_median_ms") extended_ms
    pub tracking_pct : F
    pub tracking_is : Holds numbers row (codes "tracking_overhead_median_pct") tracking_pct
    pub validation_pct : F
    pub validation_is : Holds numbers row (codes "validation_overhead_median_pct") validation_pct
    pub total_pct : F
    pub total_is : Holds numbers row (codes "total_overhead_median_pct") total_pct

  -- The times to three places, and the overheads to one place with a percent sign.
  abbrev pub shown : {row : Row} → Workload row → List Text
  shown w =
      w.name
      ∷ numbers.fixed w.rlbox_ms 3
      ∷ numbers.fixed w.tracked_ms 3
      ∷ numbers.fixed w.extended_ms 3
      ∷ (numbers.fixed w.tracking_pct 1 ++ codes "%")
      ∷ (numbers.fixed w.validation_pct 1 ++ codes "%")
      ∷ (numbers.fixed w.total_pct 1 ++ codes "%")
      ∷ []

  -- Every row says all of this.
  abbrev pub AllWorkloads : List Row → Type 0
  AllWorkloads [] = Unit
  AllWorkloads (row ∷ rows) = Workload row × AllWorkloads rows

  abbrev pub all_shown : (rows : List Row) → AllWorkloads rows → List (List Text)
  all_shown [] ws = []
  all_shown (row ∷ rows) (w, ws) = shown w ∷ all_shown rows ws

  p9a_cells-shown : (row : Row) (w : Workload row) → p9a_cells numbers row ≡ ok (shown w)
  unfolding p9a_cells
  p9a_cells-shown row w =
      let (_, a, a') = w.rlbox_is in
      let (_, b, b') = w.tracked_is in
      let (_, c, c') = w.extended_is in
      let (_, d, d') = w.tracking_is in
      let (_, e, e') = w.validation_is in
      let (_, f, f') = w.total_is in rw (w.name_is, a, a', b, b', c, c', d, d', e, e', f, f') refl

  line_for-shown :
      (rows : List Row) (ws : AllWorkloads rows)
      → line_for (p9a_line numbers) rows ≡ ok (map cells_line (all_shown rows ws))
  unfolding line_for p9a_line
  line_for-shown [] ws = refl
  line_for-shown (row ∷ rows) (w, ws) =
      rw (p9a_cells-shown row w, p9a_line) (rw (line_for-shown rows ws) refl)

  map_read :
      (cells : List (List Text))
      → All (All NoBar) cells
      → map read_cells (map cells_line cells) ≡ cells
  map_read [] h = refl
  map_read (first ∷ cells) (h, more) = ap₂ ◌∷◌ (read_cells-cells_line first h) (map_read cells more)

  -- Where every row has its seven columns, six of them with numbers, and no text to be shown has a bar,
  -- the page of P9a is rendered. Its table has one line for each row, in their order, and each line is
  -- read back to the workload, its medians without and with tracking and with the checks, to three
  -- places, and its overheads of tracking, of validation and in total, to one place and in percent.
  pub render_p9a-read :
      (rows : List Row) (reference_commit environment_note : Text) (ws : AllWorkloads rows)
      → All (All NoBar) (all_shown rows ws)
      → (table : List Text) × (render_p9a numbers rows reference_commit environment_note
          ≡ ok (
              join newline
                (p9a_opening reference_commit environment_note ++ (table ++ p9a_closing))))
        × (map read_cells table ≡ all_shown rows ws)
  unfolding render_p9a
  render_p9a-read rows reference_commit environment_note ws n = (
    map cells_line (all_shown rows ws),
    rw (line_for-shown rows ws) refl,
    map_read (all_shown rows ws) n,
  )
