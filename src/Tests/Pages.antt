-- ===== src/Tests/Pages.antt =====
-- Tables of the pages.
use mathlib.Core.List.{Perm}
use interspec_typed_allocato.Prelude.{
  ◌-◌, Option, none, some, List, [], ◌∷◌, ◌++◌, ◌≡◌, refl, Text, All, Ordered, arith, codes, same,
  map, join, if◌then◌else◌, Result, ok, err,
}
use interspec_typed_allocato.Prelude.Integers.{ℤ, pos}
use interspec_typed_allocato.NativeHeaders.{newline}
use interspec_typed_allocato.Page.{Row, Numbers}
use interspec_typed_allocato.Page.P9a.{render_p9a}
use interspec_typed_allocato.Page.P9aTexts.{p9a_opening, p9a_closing}
use interspec_typed_allocato.Page.P8.{Selected, key_lt, selected_runtime_rows}
use interspec_typed_allocato.Page.Selected.{Selection, selected_runtime_rows-Selection}
use interspec_typed_allocato.Page.Table.{NoBar, Workload, all_shown, read_cells, render_p9a-read}

-- Numbers of one digit, which are written as they are.
abbrev digit_value : Text → Option ℤ
digit_value [] = none
digit_value (c ∷ []) = some (pos (c - b'0'))
digit_value _ = none

abbrev digits : Numbers Text
digits = record {
  read_float = λ text. some text;
  read_int = digit_value;
  fixed = λ text places. text;
  minus = λ a b. a;
  times_100 = λ a. a;
}

abbrev runtime_row : Text → Text → Text → Row
runtime_row metric threads population name =
    if same name (codes "metric")
    then some metric
    else if same name (codes "threads")
    then some threads
    else if same name (codes "population")
    then some population
    else none

abbrev runtime_rows : List Row
runtime_rows =
    runtime_row (codes "remaining_bytes") (codes "1") (codes "1")
    ∷ runtime_row (codes "check_live") (codes "2") (codes "1")
    ∷ runtime_row (codes "allocate") (codes "1") (codes "1")
    ∷ runtime_row (codes "check_live") (codes "1") (codes "3")
    ∷ runtime_row (codes "check_live") (codes "1") (codes "1")
    ∷ []

abbrev selected_of : Result (List Selected) → List Selected
selected_of r = elim r [ ok selected ↦ selected | err _ ↦ [] ]

selected_ok :
    selected_runtime_rows digits runtime_rows
    ≡ ok (selected_of (selected_runtime_rows digits runtime_rows))
unfolding selected_runtime_rows interspec_typed_allocato.Page.P8.select_row
    interspec_typed_allocato.Page.P8.select_thread
    interspec_typed_allocato.Page.P8.select_population
selected_ok = refl

two_selected :
    map (λ (s : Selected). s.metric) (selected_of (selected_runtime_rows digits runtime_rows))
    ≡ codes "check_live" ∷ codes "remaining_bytes" ∷ []
unfolding selected_runtime_rows interspec_typed_allocato.Page.P8.select_row
    interspec_typed_allocato.Page.P8.select_thread
    interspec_typed_allocato.Page.P8.select_population
two_selected = refl

selected_runtime_rows-Selection_example :
    (chosen : List Selected) × Selection digits runtime_rows chosen
    × Perm (selected_of (selected_runtime_rows digits runtime_rows)) chosen
    × Ordered key_lt (selected_of (selected_runtime_rows digits runtime_rows))
selected_runtime_rows-Selection_example =
    selected_runtime_rows-Selection digits runtime_rows selected_ok

abbrev workload_row : Row
workload_row name =
    if same name (codes "workload")
    then some (codes "popt help")
    else if same name (codes "rlbox_median_ms")
    then some (codes "3")
    else some (codes "4")

abbrev workload_cells : List Text
workload_cells =
    codes "popt help"
    ∷ codes "3"
    ∷ codes "4"
    ∷ codes "4"
    ∷ codes "4%"
    ∷ codes "4%"
    ∷ codes "4%"
    ∷ []

workload : Workload digits workload_row
unfolding same
workload = record {
  name = codes "popt help";
  name_is = refl;
  rlbox_ms = codes "3";
  rlbox_is = (codes "3", refl, refl);
  tracked_ms = codes "4";
  tracked_is = (codes "4", refl, refl);
  extended_ms = codes "4";
  extended_is = (codes "4", refl, refl);
  tracking_pct = codes "4";
  tracking_is = (codes "4", refl, refl);
  validation_pct = codes "4";
  validation_is = (codes "4", refl, refl);
  total_pct = codes "4";
  total_is = (codes "4", refl, refl);
}

no_bars : All (All NoBar) (all_shown digits (workload_row ∷ []) (workload, tt))
unfolding workload
no_bars = ground arith

read_back : all_shown digits (workload_row ∷ []) (workload, tt) ≡ workload_cells ∷ []
unfolding workload
read_back = refl

render_p9a-read_example :
    (table : List Text) × (render_p9a digits (workload_row ∷ []) (codes "0dd15342") (codes "CI")
      ≡ ok (join newline (p9a_opening (codes "0dd15342") (codes "CI") ++ (table ++ p9a_closing))))
    × (map read_cells table ≡ all_shown digits (workload_row ∷ []) (workload, tt))
render_p9a-read_example =
    render_p9a-read digits (workload_row ∷ []) (codes "0dd15342") (codes "CI") (workload, tt)
      no_bars
