-- ===== src/Export.antt =====
-- internal/infrastructure/export/xlsx_exporter.go: a game as a spreadsheet. The library excelize is a
-- parameter.
pub mod Rows
pub mod Columns
pub mod Filled
mod Tests
use Prim.Native.String.{◌++◌ as ◌<>◌}
use supply_chain_game.Prelude.{ℕ, List, [], ◌∷◌, Bool, Option, none, some, String, if◌then◌else◌}
use supply_chain_game.Word.{GoInt, add_int}
use supply_chain_game.Result.{Result, ok, err, store_failed}
use supply_chain_game.Domain.Role.{Role, role_eq}
use supply_chain_game.Domain.Room.{GameStatus}
use supply_chain_game.Domain.Session.{GameSession, NodeState, WeekState}
use supply_chain_game.Domain.Analytics.{NodeAnalytics, SessionAnalytics}
use supply_chain_game.Usecase.Ports.{ExportedFile}

-- What stands in a cell.
pub data Cell (F : Type 0) : Type 0 where
  text : String → Cell F
  number : GoInt → Cell F
  decimal : F → Cell F
  role_name : Role → Cell F
  status_name : GameStatus → Cell F

abbrev pub Row : Type 0 → Type 0
Row F = List (Cell F)

-- What the exporter calls of excelize, over its file `X`: `SetSheetRow` takes a sheet and the name of
-- a cell. Their errors are dropped. `has_sheet` and `read_cell`, of a column and a row, are what the
-- file then holds.
pub record Excel (X F : Type 0) : Type 0 where
  pub new_file : X
  pub set_sheet_name : String → String → X → X
  pub new_sheet : String → X → X
  pub cell_name : GoInt → GoInt → String
  pub set_sheet_row : String → String → Row F → X → X
  pub has_sheet : String → X → Bool
  pub read_cell : String → GoInt → GoInt → X → Option (Cell F)
  pub write : X → Option (List ℕ)

-- `analytics.BullwhipEffect[role]`
unfoldable pub effect_of : {F : Type 0} → F → Role → List (Role × F) → F
effect_of nought role [] = nought
effect_of nought role ((other, effect) ∷ rest) =
    if role_eq other role then effect else effect_of nought role rest

unfoldable pub summary_rows : {F : Type 0} → GameSession → SessionAnalytics F → List (Row F)
summary_rows session analytics =
    (text "Session ID" ∷ text session.id ∷ [])
    ∷ (text "Room ID" ∷ text session.room_id ∷ [])
    ∷ (text "Status" ∷ status_name session.status ∷ [])
    ∷ (text "Scenario ID" ∷ text session.scenario.id ∷ [])
    ∷ (text "Weeks Played" ∷ number analytics.total_weeks ∷ [])
    ∷ (text "Total Cost" ∷ number analytics.total_cost ∷ [])
    ∷ (text "Demand Variance" ∷ decimal analytics.demand_variance ∷ [])
    ∷ []

abbrev pub week_headers : {F : Type 0} → Row F
week_headers =
    text "Week"
    ∷ text "Role"
    ∷ text "Incoming Order"
    ∷ text "Incoming Goods"
    ∷ text "Inventory"
    ∷ text "Backlog"
    ∷ text "Placed Order"
    ∷ text "Shipment"
    ∷ text "Weekly Cost"
    ∷ []

unfoldable pub node_row : {F : Type 0} → GoInt → NodeState → Row F
node_row week node =
    number week
    ∷ role_name node.role
    ∷ number node.incoming_order
    ∷ number node.incoming_goods
    ∷ number node.inventory
    ∷ number node.backlog
    ∷ number node.placed_order
    ∷ number node.actual_shipment
    ∷ number node.weekly_cost
    ∷ []

abbrev pub analytics_headers : {F : Type 0} → Row F
analytics_headers =
    text "Role"
    ∷ text "Total Cost"
    ∷ text "Average Inventory"
    ∷ text "Total Backlog"
    ∷ text "Total Orders"
    ∷ text "Order Variance"
    ∷ text "Bullwhip Effect"
    ∷ []

unfoldable pub analytics_row : {F : Type 0} → F → SessionAnalytics F → NodeAnalytics F → Row F
unfolding effect_of
analytics_row nought analytics node =
    role_name node.role
    ∷ number node.total_cost
    ∷ decimal node.average_inventory
    ∷ number node.total_backlog
    ∷ number node.total_orders
    ∷ decimal node.order_variance
    ∷ decimal (effect_of nought node.role analytics.bullwhip_effect)
    ∷ []

module _ {X F : Type 0} (excel : Excel X F) where
  -- The row goes to column 1 of the sheet.
  abbrev pub put_row : String → GoInt → Row F → X → X
  put_row sheet row_index row file =
      excel.set_sheet_row sheet (excel.cell_name 1 row_index) row file

  -- The loop of `writeSummary`, from the row after `row_index`.
  unfoldable pub summary_loop : String → GoInt → List (Row F) → X → X
  summary_loop sheet row_index [] file = file
  summary_loop sheet row_index (row ∷ rest) file =
      summary_loop sheet (add_int row_index 1) rest (put_row sheet (add_int row_index 1) row file)

  unfoldable pub write_summary : String → GameSession → SessionAnalytics F → X → X
  unfolding summary_rows summary_loop
  write_summary sheet session analytics = summary_loop sheet 0 (summary_rows session analytics)

  -- The loop over the nodes of a week: the next row, and the file.
  unfoldable pub node_loop : String → GoInt → List NodeState → GoInt × X → GoInt × X
  unfolding node_row
  node_loop sheet week [] (row_index, file) = (row_index, file)
  node_loop sheet week (node ∷ rest) (row_index, file) =
      node_loop sheet week rest
        (add_int row_index 1, put_row sheet row_index (node_row week node) file)

  unfoldable pub week_loop : String → List WeekState → GoInt × X → GoInt × X
  unfolding node_loop
  week_loop sheet [] at = at
  week_loop sheet (week ∷ rest) at = week_loop sheet rest (node_loop sheet week.week week.nodes at)

  unfoldable pub write_weeks : String → GameSession → X → X
  unfolding week_loop
  write_weeks sheet session file =
      (week_loop sheet session.history (2, excel.set_sheet_row sheet "A1" week_headers file)).1

  module _ (nought : F) where
    unfoldable pub analytics_loop :
        String → SessionAnalytics F → GoInt → List (NodeAnalytics F) → X → X
    unfolding analytics_row
    analytics_loop sheet analytics row_index [] file = file
    analytics_loop sheet analytics row_index (node ∷ rest) file =
        analytics_loop sheet analytics (add_int row_index 1) rest
          (put_row sheet row_index (analytics_row nought analytics node) file)

    unfoldable pub write_analytics : String → SessionAnalytics F → X → X
    unfolding analytics_loop
    write_analytics sheet analytics file =
        analytics_loop sheet analytics 2 analytics.node_analytics
          (excel.set_sheet_row sheet "A1" analytics_headers file)

    -- The file before it is written.
    unfoldable pub workbook : GameSession → SessionAnalytics F → X
    unfolding write_summary write_weeks write_analytics
    workbook session analytics = write_analytics "Analytics" analytics (
        write_weeks "Weeks" session (
          write_summary "Summary" session analytics (
            excel.new_sheet "Analytics"
              (excel.new_sheet "Weeks" (excel.set_sheet_name "Sheet1" "Summary" excel.new_file)))))

    unfoldable pub export_xlsx : GameSession → SessionAnalytics F → Result ExportedFile
    unfolding workbook
    export_xlsx session analytics = elim (excel.write (workbook session analytics)) [
      | none ↦ err store_failed
      | some content ↦ ok (record {
        file_name = "session_" <> (session.id <> ".xlsx");
        content_type = "application/vnd.openxmlformats-officedocument.spreadsheetml.sheet";
        content = content;
      })
    ]
