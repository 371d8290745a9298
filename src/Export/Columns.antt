-- ===== src/Export/Columns.antt =====
-- What the columns of the spreadsheet are called, and what they hold.
use supply_chain_game.Prelude.{
  ℕ, suc, zero, ◌<◌, ◌≡◌, refl, ap, ◌∙◌, sym, List, [], ◌∷◌, ◌++◌, map, some, String, length,
  get_elem?, arith,
}
use supply_chain_game.Word.{GoInt}
use supply_chain_game.Domain.Session.{GameSession, NodeState, WeekState}
use supply_chain_game.Domain.Analytics.{NodeAnalytics, SessionAnalytics}
use supply_chain_game.Export.{
  Row, Cell, text, number, decimal, role_name, status_name, node_row, summary_rows, analytics_row,
  effect_of, week_headers,
}
use supply_chain_game.Export.Rows.{week_rows}

-- The nodes of a game, week by week, each with its week.
abbrev pub week_nodes : List WeekState → List (GoInt × NodeState)
week_nodes [] = []
week_nodes (week ∷ rest) = map (λ node. (week.week, node)) week.nodes ++ week_nodes rest

-- The columns of the sheet Weeks: the header of each, and what stands below it.
abbrev pub week_columns : {F : Type 0} → GoInt × NodeState → List (String × Cell F)
week_columns (week, node) =
    ("Week", number week)
    ∷ ("Role", role_name node.role)
    ∷ ("Incoming Order", number node.incoming_order)
    ∷ ("Incoming Goods", number node.incoming_goods)
    ∷ ("Inventory", number node.inventory)
    ∷ ("Backlog", number node.backlog)
    ∷ ("Placed Order", number node.placed_order)
    ∷ ("Shipment", number node.actual_shipment)
    ∷ ("Weekly Cost", number node.weekly_cost)
    ∷ []

-- And of the sheet Analytics.
abbrev pub role_columns :
    {F : Type 0} → F → SessionAnalytics F → NodeAnalytics F → List (String × Cell F)
role_columns nought analytics node =
    ("Role", role_name node.role)
    ∷ ("Total Cost", number node.total_cost)
    ∷ ("Average Inventory", decimal node.average_inventory)
    ∷ ("Total Backlog", number node.total_backlog)
    ∷ ("Total Orders", number node.total_orders)
    ∷ ("Order Variance", decimal node.order_variance)
    ∷ ("Bullwhip Effect", decimal (effect_of nought node.role analytics.bullwhip_effect))
    ∷ []

pub get_elem?-map :
    {A B : Type 0} (f : A → B) (xs : List A) (i : ℕ) (a : A)
    → get_elem? xs i ≡ some a
    → get_elem? (map f xs) i ≡ some (f a)
get_elem?-map f [] i a e = cc
get_elem?-map f (x ∷ xs) zero a e = let same : x ≡ a = cc in ap (λ y. some (f y)) same
get_elem?-map f (x ∷ xs) (suc i) a e = get_elem?-map f xs i a e

pub get_elem?-length :
    {A : Type 0} (xs : List A) (i : ℕ) (a : A) → get_elem? xs i ≡ some a → i < length xs
get_elem?-length [] i a e = cc
get_elem?-length (x ∷ xs) zero a e = omega arith
get_elem?-length (x ∷ xs) (suc i) a e =
    let below = get_elem?-length xs i a e in omega (arith, below)

abbrev pub row_of : {F : Type 0} → GoInt × NodeState → Row F
row_of (week, node) = node_row week node

map-pairs :
    {F : Type 0} (week : GoInt) (nodes : List NodeState) (more : List (GoInt × NodeState))
    → map (row_of {F = F}) (map (λ node. (week, node)) nodes ++ more)
      ≡ map (node_row week) nodes ++ map row_of more
map-pairs week [] more = refl
map-pairs week (node ∷ rest) more =
    ap (λ rows. node_row week node ∷ rows) (map-pairs week rest more)

pub week_rows-map :
    {F : Type 0} (weeks : List WeekState) → week_rows {F = F} weeks ≡ map row_of (week_nodes weeks)
week_rows-map [] = refl
week_rows-map (week ∷ rest) =
    ap (λ rows. map (node_row week.week) week.nodes ++ rows) (week_rows-map rest)
    ∙ sym (map-pairs week.week week.nodes (week_nodes rest))

pub week_columns-row_of :
    {F : Type 0} (at : GoInt × NodeState)
    → map (λ column. column.1) (week_columns {F = F} at) ≡ row_of at
unfolding node_row
week_columns-row_of (week, node) = refl

pub week_columns-headers :
    {F : Type 0} (at : GoInt × NodeState)
    → map {B = Cell F} (λ column. text column.0) (week_columns {F = F} at) ≡ week_headers
week_columns-headers (week, node) = refl

pub role_columns-row :
    {F : Type 0} (nought : F) (analytics : SessionAnalytics F) (node : NodeAnalytics F)
    → map (λ column. column.1) (role_columns nought analytics node)
      ≡ analytics_row nought analytics node
unfolding analytics_row
role_columns-row nought analytics node = refl

-- What stands in the first two columns of the sheet Summary, line by line.
abbrev pub summary_lines : {F : Type 0} → GameSession → SessionAnalytics F → List (String × Cell F)
summary_lines session analytics =
    ("Session ID", text session.id)
    ∷ ("Room ID", text session.room_id)
    ∷ ("Status", status_name session.status)
    ∷ ("Scenario ID", text session.scenario.id)
    ∷ ("Weeks Played", number analytics.total_weeks)
    ∷ ("Total Cost", number analytics.total_cost)
    ∷ ("Demand Variance", decimal analytics.demand_variance)
    ∷ []

abbrev pub line_row : {F : Type 0} → String × Cell F → Row F
line_row (title, value) = text title ∷ value ∷ []

pub summary_rows-lines :
    {F : Type 0} (session : GameSession) (analytics : SessionAnalytics F)
    → summary_rows session analytics ≡ map line_row (summary_lines session analytics)
unfolding summary_rows
summary_rows-lines session analytics = refl
