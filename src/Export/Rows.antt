-- ===== src/Export/Rows.antt =====
-- Which row of the spreadsheet has what.
use supply_chain_game.Prelude.{
  ℕ, suc, zero, true, sym, subst, ◌+◌, ◌≤◌, ◌<◌, ◌≡◌, ◌≢◌, ◌⊎◌, refl, ap, ◌∙◌, List, [], ◌∷◌, ◌++◌,
  map, some, String, length, get_elem?, arith,
}
use supply_chain_game.Word.{GoInt, add_int, add_int-small}
use supply_chain_game.Domain.Session.{NodeState, WeekState}
use supply_chain_game.Domain.Analytics.{NodeAnalytics, SessionAnalytics}
use supply_chain_game.Export.{
  Excel, Row, Cell, put_row, node_row, node_loop, week_loop, analytics_row, analytics_loop,
  summary_loop,
}

-- The rows that a sheet can have.
abbrev pub IsRowIndex : GoInt → Type 0
IsRowIndex n = (1 ≤ n) × (n ≤ 1048576)

-- The names that the exporter gives its sheets, which excelize accepts.
abbrev pub IsSheetName : String → Type 0
IsSheetName name = (name ≡ "Summary") ⊎ (name ≡ "Weeks") ⊎ (name ≡ "Analytics")

-- A new file has the sheet Sheet1, a renamed sheet has its new name, and no sheet gets lost when one
-- is added. A row that is put on a sheet of the file fills the columns of its own row from the first,
-- up to the 16384th, and no other row and no other sheet.
pub record ExcelLaws {X F : Type 0} (excel : Excel X F) : Type 0 where
  pub starts : excel.has_sheet "Sheet1" excel.new_file ≡ true
  pub renamed :
      (old name : String) (file : X)
      → IsSheetName name
      → excel.has_sheet old file ≡ true
      → excel.has_sheet name (excel.set_sheet_name old name file) ≡ true
  pub added :
      (name : String) (file : X)
      → IsSheetName name
      → excel.has_sheet name (excel.new_sheet name file) ≡ true
  pub added_beside :
      (name other : String) (file : X)
      → excel.has_sheet other file ≡ true
      → excel.has_sheet other (excel.new_sheet name file) ≡ true
  pub sheets_kept :
      (sheet cell other : String) (row : Row F) (file : X)
      → excel.has_sheet other (excel.set_sheet_row sheet cell row file) ≡ excel.has_sheet other file
  pub first_cell : excel.cell_name 1 1 ≡ "A1"
  pub row_set :
      (sheet : String) (n j : GoInt) (row : Row F) (value : Cell F) (file : X)
      → excel.has_sheet sheet file ≡ true
      → IsRowIndex n
      → j < 16384
      → get_elem? row j ≡ some value
      → excel.read_cell sheet (1 + j) n (excel.set_sheet_row sheet (excel.cell_name 1 n) row file)
        ≡ some value
  pub row_kept :
      (sheet : String) (m n column : GoInt) (row : Row F) (file : X)
      → IsRowIndex m
      → IsRowIndex n
      → m ≢ n
      → excel.read_cell sheet column n (excel.set_sheet_row sheet (excel.cell_name 1 m) row file)
        ≡ excel.read_cell sheet column n file
  pub sheet_kept :
      (sheet cell other : String) (column n : GoInt) (row : Row F) (file : X)
      → IsSheetName sheet
      → IsSheetName other
      → sheet ≢ other
      → excel.read_cell other column n (excel.set_sheet_row sheet cell row file)
        ≡ excel.read_cell other column n file

-- A row for each node of each week, in order.
abbrev pub week_rows : {F : Type 0} → List WeekState → List (Row F)
week_rows [] = []
week_rows (week ∷ rest) = map (node_row week.week) week.nodes ++ week_rows rest

module _ {X F : Type 0} (excel : Excel X F) where
  -- Rows that are put one below the other.
  abbrev pub put_rows : String → GoInt → List (Row F) → X → X
  put_rows sheet k [] file = file
  put_rows sheet k (row ∷ rest) file =
      put_rows sheet (add_int k 1) rest (put_row excel sheet k row file)

  node_loop-puts :
      (sheet : String) (week : GoInt) (nodes : List NodeState) (more : List (Row F)) (k : GoInt)
      (file : X)
      → put_rows sheet
          (node_loop excel sheet week nodes (k, file)).0
          more
          (node_loop excel sheet week nodes (k, file)).1
        ≡ put_rows sheet k (map (node_row week) nodes ++ more) file
  unfolding node_loop
  node_loop-puts sheet week [] more k file = refl
  node_loop-puts sheet week (node ∷ rest) more k file = node_loop-puts sheet week rest more _ _

  pub week_loop-puts :
      (sheet : String) (weeks : List WeekState) (k : GoInt) (file : X)
      → (week_loop excel sheet weeks (k, file)).1 ≡ put_rows sheet k (week_rows weeks) file
  unfolding week_loop
  week_loop-puts sheet [] k file = refl
  week_loop-puts sheet (week ∷ rest) k file =
      week_loop-puts sheet rest _ _
      ∙ node_loop-puts sheet week.week week.nodes (week_rows rest) k file

  pub analytics_loop-puts :
      (nought : F) (sheet : String) (analytics : SessionAnalytics F)
      (nodes : List (NodeAnalytics F)) (k : GoInt) (file : X)
      → analytics_loop excel nought sheet analytics k nodes file
        ≡ put_rows sheet k (map (analytics_row nought analytics) nodes) file
  unfolding analytics_loop
  analytics_loop-puts nought sheet analytics [] k file = refl
  analytics_loop-puts nought sheet analytics (node ∷ rest) k file =
      analytics_loop-puts nought sheet analytics rest _ _

  -- The rows from the one after `k`.
  pub summary_loop-puts :
      (sheet : String) (rows : List (Row F)) (k : GoInt) (file : X)
      → summary_loop excel sheet k rows file ≡ put_rows sheet (add_int k 1) rows file
  unfolding summary_loop
  summary_loop-puts sheet [] k file = refl
  summary_loop-puts sheet (row ∷ rest) k file = summary_loop-puts sheet rest _ _

  -- A table: a row of headers, and rows below it.
  abbrev pub put_table : String → Row F → List (Row F) → X → X
  put_table sheet headers rows file =
      put_rows sheet 2 rows (excel.set_sheet_row sheet "A1" headers file)

  module _ (laws : ExcelLaws excel) where
    pub sheets_stay :
        (sheet other : String) (rows : List (Row F)) (k : GoInt) (file : X)
        → excel.has_sheet other (put_rows sheet k rows file) ≡ excel.has_sheet other file
    sheets_stay sheet other [] k file = refl
    sheets_stay sheet other (row ∷ rest) k file =
        sheets_stay sheet other rest _ _ ∙ laws.sheets_kept sheet _ other row file

    pub other_sheet :
        (sheet other : String) (column n : GoInt) (rows : List (Row F)) (k : GoInt) (file : X)
        → IsSheetName sheet
        → IsSheetName other
        → sheet ≢ other
        → excel.read_cell other column n (put_rows sheet k rows file)
          ≡ excel.read_cell other column n file
    other_sheet sheet other column n [] k file named named' apart = refl
    other_sheet sheet other column n (row ∷ rest) k file named named' apart =
        other_sheet sheet other column n rest _ _ named named' apart
        ∙ laws.sheet_kept sheet _ other column n row file named named' apart

    different : {j k : ℕ} → j < k → k ≢ j
    different above e = omega (arith, above, e)

    -- The rows above are kept.
    row_above :
        (sheet : String) (rows : List (Row F)) (n k column : GoInt) (file : X)
        → 1 ≤ n
        → n < k
        → k + length rows ≤ 1048577
        → excel.read_cell sheet column n (put_rows sheet k rows file)
          ≡ excel.read_cell sheet column n file
    row_above sheet [] n k column file first above fits = refl
    row_above sheet (row ∷ rest) n k column file first above fits =
        let next : add_int k 1 ≡ k + 1 = add_int-small k 1 (omega arith) in
        row_above sheet rest n (add_int k 1) column _ first (rw next (omega arith))
          (rw next (omega arith))
        ∙ laws.row_kept sheet k n column row file
            (omega (arith, first, above, fits), omega (arith, fits))
            (first, omega (arith, above, fits)) (different above)

    pub cell_of_put_rows :
        (sheet : String) (rows : List (Row F)) (i j k : GoInt) (file : X) (row : Row F)
        (value : Cell F)
        → excel.has_sheet sheet file ≡ true
        → 1 ≤ k
        → k + length rows ≤ 1048577
        → j < 16384
        → get_elem? rows i ≡ some row
        → get_elem? row j ≡ some value
        → excel.read_cell sheet (1 + j) (k + i) (put_rows sheet k rows file) ≡ some value
    cell_of_put_rows sheet [] i j k file row value has first fits narrow e at = cc
    cell_of_put_rows sheet (top ∷ rest) zero j k file row value has first fits narrow e at =
        let next : add_int k 1 ≡ k + 1 = add_int-small k 1 (omega (arith, fits)) in
        let here : k + 0 ≡ k = omega arith in
        let same : top ≡ row = cc in
        let own = subst (λ r. get_elem? r j ≡ some value) (sym same) at in
        rw here (
          row_above sheet rest k (add_int k 1) (1 + j) _ first (rw next (omega arith))
            (rw next (omega (arith, fits)))
          ∙ laws.row_set sheet k j top value file has (first, omega (arith, fits)) narrow own)
    cell_of_put_rows sheet (top ∷ rest) (suc i) j k file row value has first fits narrow e at =
        let next : add_int k 1 ≡ k + 1 = add_int-small k 1 (omega (arith, fits)) in
        let below : k + suc i ≡ add_int k 1 + i = rw next (omega arith) in
        ap (λ n. excel.read_cell sheet (1 + j) n (put_rows sheet k (top ∷ rest) file)) below
        ∙ cell_of_put_rows sheet rest i j (add_int k 1) _ row value
            (laws.sheets_kept sheet _ sheet top file ∙ has) (rw next (omega arith))
            (rw next (omega (arith, fits))) narrow e at

    pub header_of_table :
        (sheet : String) (headers : Row F) (rows : List (Row F)) (j : GoInt) (value : Cell F)
        (file : X)
        → excel.has_sheet sheet file ≡ true
        → length rows ≤ 1048575
        → j < 16384
        → get_elem? headers j ≡ some value
        → excel.read_cell sheet (1 + j) 1 (put_table sheet headers rows file) ≡ some value
    header_of_table sheet headers rows j value file has fits narrow at =
        row_above sheet rows 1 2 (1 + j) (excel.set_sheet_row sheet "A1" headers file) (omega arith)
          (omega arith) (omega (arith, fits))
        ∙ subst
            (λ cell.
              excel.read_cell sheet (1 + j) 1 (excel.set_sheet_row sheet cell headers file)
              ≡ some value)
            laws.first_cell
            (laws.row_set sheet 1 j headers value file has (omega arith, omega arith) narrow at)

    pub cell_of_table :
        (sheet : String) (headers : Row F) (rows : List (Row F)) (i j : GoInt) (row : Row F)
        (value : Cell F) (file : X)
        → excel.has_sheet sheet file ≡ true
        → length rows ≤ 1048575
        → j < 16384
        → get_elem? rows i ≡ some row
        → get_elem? row j ≡ some value
        → excel.read_cell sheet (1 + j) (2 + i) (put_table sheet headers rows file) ≡ some value
    cell_of_table sheet headers rows i j row value file has fits narrow e at =
        cell_of_put_rows sheet rows i j 2 _ row value
          (laws.sheets_kept sheet "A1" sheet headers file ∙ has) (omega arith) (omega (arith, fits))
          narrow e at
