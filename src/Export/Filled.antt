-- ===== src/Export/Filled.antt =====
-- The sheets of the spreadsheet, filled: which cell has what.
use supply_chain_game.Prelude.{
  ℕ, ◌+◌, ◌≤◌, ◌<◌, ◌≡◌, ◌≢◌, refl, ap, ◌∙◌, sym, subst, List, [], ◌∷◌, map, Option, some, true,
  String, length, length-map, get_elem?, arith, inl, inr,
}
use supply_chain_game.Prelude.Texts.{different_of}
use supply_chain_game.Word.{GoInt, add_int-small}
use supply_chain_game.Domain.Session.{GameSession, NodeState}
use supply_chain_game.Domain.Analytics.{NodeAnalytics, SessionAnalytics}
use supply_chain_game.Export.{
  Excel, Row, Cell, text, write_summary, summary_loop, write_weeks, analytics_row, write_analytics,
  workbook, week_headers, analytics_headers,
}
use supply_chain_game.Export.Rows.{
  ExcelLaws, IsSheetName, put_rows, put_table, week_loop-puts, analytics_loop-puts,
  summary_loop-puts, sheets_stay, other_sheet, header_of_table, cell_of_table, cell_of_put_rows,
}
use supply_chain_game.Export.Columns.{
  week_nodes, week_columns, role_columns, get_elem?-map, get_elem?-length, row_of, week_rows-map,
  week_columns-row_of, week_columns-headers, role_columns-row, summary_lines, line_row,
  summary_rows-lines,
}

module _ {X F : Type 0} (excel : Excel X F) (nought : F) (session : GameSession)
    (analytics : SessionAnalytics F) where
  -- What the three sheets of a file show: the lines of the summary, and each column of the two
  -- tables, with its header in the first row and the entry of the i-th node or role in the row i + 2.
  pub record Shows (file : X) : Type 0 where
    pub summary :
        (i : ℕ) (title : String) (value : Cell F)
        → get_elem? (summary_lines session analytics) i ≡ some (title, value)
        → (excel.read_cell "Summary" 1 (1 + i) file ≡ some (text title))
          × (excel.read_cell "Summary" 2 (1 + i) file ≡ some value)
    pub weeks :
        (i j : ℕ) (at : GoInt × NodeState) (title : String) (value : Cell F)
        → get_elem? (week_nodes session.history) i ≡ some at
        → get_elem? (week_columns at) j ≡ some (title, value)
        → (excel.read_cell "Weeks" (1 + j) 1 file ≡ some (text title))
          × (excel.read_cell "Weeks" (1 + j) (2 + i) file ≡ some value)
    pub roles :
        (i j : ℕ) (node : NodeAnalytics F) (title : String) (value : Cell F)
        → get_elem? analytics.node_analytics i ≡ some node
        → get_elem? (role_columns nought analytics node) j ≡ some (title, value)
        → (excel.read_cell "Analytics" (1 + j) 1 file ≡ some (text title))
          × (excel.read_cell "Analytics" (1 + j) (2 + i) file ≡ some value)

module _ {X F : Type 0} (excel : Excel X F) (laws : ExcelLaws excel) where
  -- A table leaves the sheets, and what stands on the others.
  table-sheets :
      (sheet other : String) (headers : Row F) (rows : List (Row F)) (file : X)
      → excel.has_sheet other file ≡ true
      → excel.has_sheet other (put_table excel sheet headers rows file) ≡ true
  table-sheets sheet other headers rows file has =
      sheets_stay excel laws sheet other rows 2 _
      ∙ laws.sheets_kept sheet "A1" other headers file
      ∙ has

  beside_table :
      (sheet other : String) (column n : GoInt) (headers : Row F) (rows : List (Row F)) (file : X)
      → IsSheetName sheet
      → IsSheetName other
      → sheet ≢ other
      → excel.read_cell other column n (put_table excel sheet headers rows file)
        ≡ excel.read_cell other column n file
  beside_table sheet other column n headers rows file named named' apart =
      other_sheet excel laws sheet other column n rows 2 _ named named' apart
      ∙ laws.sheet_kept sheet "A1" other column n headers file named named' apart

  module _ (nought : F) (session : GameSession) (analytics : SessionAnalytics F) where
    -- The file with its three sheets, still empty; with the summary; with the weeks; whole.
    abbrev three_sheets : X
    three_sheets =
        excel.new_sheet "Analytics"
          (excel.new_sheet "Weeks" (excel.set_sheet_name "Sheet1" "Summary" excel.new_file))

    abbrev lines : List (Row F)
    lines = map line_row (summary_lines session analytics)

    abbrev node_rows : List (Row F)
    node_rows = map row_of (week_nodes session.history)

    abbrev role_rows : List (Row F)
    role_rows = map (analytics_row nought analytics) analytics.node_analytics

    abbrev with_summary : X
    with_summary = put_rows excel "Summary" 1 lines three_sheets

    abbrev with_weeks : X
    with_weeks = put_table excel "Weeks" week_headers node_rows with_summary

    abbrev whole : X
    whole = put_table excel "Analytics" analytics_headers role_rows with_weeks

    summary-puts :
        (file : X)
        → write_summary excel "Summary" session analytics file
          ≡ put_rows excel "Summary" 1 lines file
    unfolding write_summary
    summary-puts file =
        ap (λ rows. summary_loop excel "Summary" 0 rows file) (summary_rows-lines session analytics)
        ∙ summary_loop-puts excel "Summary" lines 0 file
        ∙ ap (λ k. put_rows excel "Summary" k lines file) (add_int-small 0 1 (omega arith))

    weeks-puts :
        (file : X)
        → write_weeks excel "Weeks" session file
          ≡ put_table excel "Weeks" week_headers node_rows file
    unfolding write_weeks
    weeks-puts file =
        week_loop-puts excel "Weeks" session.history 2
          (excel.set_sheet_row "Weeks" "A1" week_headers file)
        ∙ ap
            (λ rows.
              put_rows excel "Weeks" 2 rows (excel.set_sheet_row "Weeks" "A1" week_headers file))
            (week_rows-map session.history)

    analytics-puts :
        (file : X)
        → write_analytics excel nought "Analytics" analytics file
          ≡ put_table excel "Analytics" analytics_headers role_rows file
    unfolding write_analytics
    analytics-puts file =
        analytics_loop-puts excel nought "Analytics" analytics analytics.node_analytics 2
          (excel.set_sheet_row "Analytics" "A1" analytics_headers file)

    workbook-whole : workbook excel nought session analytics ≡ whole
    unfolding workbook
    workbook-whole =
        analytics-puts _
        ∙ ap (put_table excel "Analytics" analytics_headers role_rows) (
            weeks-puts _
            ∙ ap (put_table excel "Weeks" week_headers node_rows) (summary-puts three_sheets))

    has_three : (name : String) → IsSheetName name → excel.has_sheet name three_sheets ≡ true
    has_three name (inl e) =
        subst (λ n. excel.has_sheet n three_sheets ≡ true) (sym e)
          (laws.added_beside "Analytics" "Summary" _ (
            laws.added_beside "Weeks" "Summary" _
              (laws.renamed "Sheet1" "Summary" _ (inl refl) laws.starts)))
    has_three name (inr (inl e)) =
        subst (λ n. excel.has_sheet n three_sheets ≡ true) (sym e)
          (laws.added_beside "Analytics" "Weeks" _ (laws.added "Weeks" _ (inr (inl refl))))
    has_three name (inr (inr e)) =
        subst (λ n. excel.has_sheet n three_sheets ≡ true) (sym e)
          (laws.added "Analytics" _ (inr (inr refl)))

    summary_stays : (name : String) → IsSheetName name → excel.has_sheet name with_summary ≡ true
    summary_stays name named =
        sheets_stay excel laws "Summary" name lines 1 three_sheets ∙ has_three name named

    weeks_stay : (name : String) → IsSheetName name → excel.has_sheet name with_weeks ≡ true
    weeks_stay name named =
        table-sheets "Weeks" name week_headers node_rows with_summary (summary_stays name named)

    summary_cell :
        (i j : GoInt) (row : Row F) (value : Cell F)
        → j < 16384
        → get_elem? lines i ≡ some row
        → get_elem? row j ≡ some value
        → excel.read_cell "Summary" (1 + j) (1 + i) whole ≡ some value
    summary_cell i j row value narrow e at =
        beside_table "Analytics" "Summary" (1 + j) (1 + i) analytics_headers role_rows with_weeks
          (inr (inr refl)) (inl refl) (different_of refl)
        ∙ beside_table "Weeks" "Summary" (1 + j) (1 + i) week_headers node_rows with_summary
            (inr (inl refl)) (inl refl) (different_of refl)
        ∙ cell_of_put_rows excel laws "Summary" lines i j 1 three_sheets row value
            (has_three "Summary" (inl refl)) (omega arith) (omega arith) narrow e at

    weeks_cell :
        (n j : GoInt) (value : Option (Cell F))
        → excel.read_cell "Weeks" (1 + j) n with_weeks ≡ value
        → excel.read_cell "Weeks" (1 + j) n whole ≡ value
    weeks_cell n j value e =
        beside_table "Analytics" "Weeks" (1 + j) n analytics_headers role_rows with_weeks
          (inr (inr refl)) (inr (inl refl)) (different_of refl)
        ∙ e

    summary-Shows :
        (i : ℕ) (title : String) (value : Cell F)
        → get_elem? (summary_lines session analytics) i ≡ some (title, value)
        → (excel.read_cell "Summary" 1 (1 + i) whole ≡ some (text title))
          × (excel.read_cell "Summary" 2 (1 + i) whole ≡ some value)
    summary-Shows i title value e =
        let row = get_elem?-map line_row (summary_lines session analytics) i (title, value) e in
        (
          summary_cell i 0 (text title ∷ value ∷ []) (text title) (omega arith) row refl,
          summary_cell i 1 (text title ∷ value ∷ []) value (omega arith) row refl,
        )

    weeks-Shows :
        length (week_nodes session.history) ≤ 1048575
        → (i j : ℕ) (at : GoInt × NodeState) (title : String) (value : Cell F)
        → get_elem? (week_nodes session.history) i ≡ some at
        → get_elem? (week_columns at) j ≡ some (title, value)
        → (excel.read_cell "Weeks" (1 + j) 1 whole ≡ some (text title))
          × (excel.read_cell "Weeks" (1 + j) (2 + i) whole ≡ some value)
    weeks-Shows fits i j at title value e column =
        let few : j < 9 = get_elem?-length (week_columns at) j (title, value) column in
        let short : length node_rows ≤ 1048575 =
          rw (length-map (row_of {F = F}) (week_nodes session.history)) fits in
        let has = summary_stays "Weeks" (inr (inl refl)) in
        let titles =
          subst (λ row. get_elem? row j ≡ some (text title)) (week_columns-headers at)
            (get_elem?-map (λ c. text c.0) (week_columns at) j (title, value) column) in
        let values =
          subst (λ row. get_elem? row j ≡ some value) (week_columns-row_of at)
            (get_elem?-map (λ c. c.1) (week_columns at) j (title, value) column) in
        (
          weeks_cell 1 j _ (
              header_of_table excel laws "Weeks" week_headers node_rows j (text title) with_summary
                has short (omega (arith, few)) titles),
          weeks_cell (2 + i) j _ (
              cell_of_table excel laws "Weeks" week_headers node_rows i j (row_of at) value
                with_summary has short (omega (arith, few))
                (get_elem?-map row_of (week_nodes session.history) i at e) values),
        )

    roles-Shows :
        length analytics.node_analytics ≤ 1048575
        → (i j : ℕ) (node : NodeAnalytics F) (title : String) (value : Cell F)
        → get_elem? analytics.node_analytics i ≡ some node
        → get_elem? (role_columns nought analytics node) j ≡ some (title, value)
        → (excel.read_cell "Analytics" (1 + j) 1 whole ≡ some (text title))
          × (excel.read_cell "Analytics" (1 + j) (2 + i) whole ≡ some value)
    roles-Shows fits i j node title value e column =
        let columns = role_columns nought analytics node in
        let few : j < 7 = get_elem?-length columns j (title, value) column in
        let short : length role_rows ≤ 1048575 =
          rw (length-map (analytics_row nought analytics) analytics.node_analytics) fits in
        let has = weeks_stay "Analytics" (inr (inr refl)) in
        let values =
          subst (λ row. get_elem? row j ≡ some value) (role_columns-row nought analytics node)
            (get_elem?-map (λ c. c.1) columns j (title, value) column) in
        (
          header_of_table excel laws "Analytics" analytics_headers role_rows j (text title)
              with_weeks has short (omega (arith, few))
              (get_elem?-map (λ c. text c.0) columns j (title, value) column),
          cell_of_table excel laws "Analytics" analytics_headers role_rows i j
              (analytics_row nought analytics node) value with_weeks has short (omega (arith, few))
              (get_elem?-map (analytics_row nought analytics) analytics.node_analytics i node e)
              values,
        )

    -- For a game whose rows fit on a sheet, the file that is exported has its three sheets filled:
    -- each line of the summary, and on the sheets Weeks and Analytics each column with its header,
    -- and below it what the i-th node, counted through the weeks in order, or the i-th role has for
    -- that column; none is left out or overwritten.
    pub workbook_lem :
        length (week_nodes session.history) ≤ 1048575
        → length analytics.node_analytics ≤ 1048575
        → Shows excel nought session analytics (workbook excel nought session analytics)
    workbook_lem weeks_fit roles_fit =
        subst (Shows excel nought session analytics) (sym workbook-whole) (record {
          summary = summary-Shows;
          weeks = weeks-Shows weeks_fit;
          roles = roles-Shows roles_fit;
        })
