-- ===== src/Domain/Analytics.antt =====
-- internal/domain/analytics.go: totals, means and variances of the weeks played.
pub mod Series
pub mod Report
pub mod Costs
pub mod Tests
use supply_chain_game.Prelude.{ℕ, Bool, List, [], ◌∷◌, ◌++◌, if◌then◌else◌, length}
use supply_chain_game.Word.{GoInt, add_int}
use supply_chain_game.Domain.Role.{Role, retailer, all_roles, role_eq}
use supply_chain_game.Domain.Session.{GameSession, NodeState, WeekState}

-- `float64`: the arithmetic that the code uses.
pub record Floats (Float : Type 0) : Type 0 where
  pub nought : Float
  pub of_int : GoInt → Float
  pub plus : Float → Float → Float
  pub minus : Float → Float → Float
  pub times : Float → Float → Float
  pub over : Float → Float → Float
  pub is_positive : Float → Bool

pub record NodeAnalytics (Float : Type 0) : Type 0 where
  pub role : Role
  pub total_cost : GoInt
  pub average_inventory : Float
  pub total_backlog : GoInt
  pub total_orders : GoInt
  pub order_variance : Float

-- The maps have a key for each role, or none.
pub record SessionAnalytics (Float : Type 0) : Type 0 where
  pub total_weeks : GoInt
  pub total_cost : GoInt
  pub demand_variance : Float
  pub node_analytics : List (NodeAnalytics Float)
  pub order_variance : List (Role × Float)
  pub bullwhip_effect : List (Role × Float)

unfoldable pub sum_loop : GoInt → List GoInt → GoInt
sum_loop total [] = total
sum_loop total (value ∷ rest) = sum_loop (add_int total value) rest

unfoldable pub sum_ints : List GoInt → GoInt
unfolding sum_loop
sum_ints values = sum_loop 0 values

-- What the loop over the weeks gathers: the sum of the weeks' costs, the demand, and the maps
-- `perRoleOrders`, `perRoleInventory`, `perRoleBacklog` and `perRoleCost`.
pub record Gathered : Type 0 where
  pub total_cost : GoInt
  pub demand : List GoInt
  pub orders : Role → List GoInt
  pub inventory : Role → List GoInt
  pub backlog : Role → List GoInt
  pub cost : Role → GoInt

abbrev pub nothing_gathered : Gathered
nothing_gathered = record {
  total_cost = 0;
  demand = [];
  orders = λ role. [];
  inventory = λ role. [];
  backlog = λ role. [];
  cost = λ role. 0;
}

-- `m[role] = append(m[role], value)`
unfoldable pub append_at : (Role → List GoInt) → Role → GoInt → Role → List GoInt
append_at m role value other = if role_eq role other then m role ++ value ∷ [] else m other

-- `m[role] += value`
unfoldable pub add_at : (Role → GoInt) → Role → GoInt → Role → GoInt
add_at m role value other = if role_eq role other then add_int (m role) value else m other

unfoldable pub gather_node : NodeState → Gathered → Gathered
gather_node node g = record g {
  orders = append_at g.orders node.role node.placed_order;
  inventory = append_at g.inventory node.role node.inventory;
  backlog = append_at g.backlog node.role node.backlog;
  cost = add_at g.cost node.role node.weekly_cost;
  demand = if role_eq node.role retailer then g.demand ++ node.incoming_order ∷ [] else g.demand;
}

unfoldable pub gather_nodes : List NodeState → Gathered → Gathered
gather_nodes [] g = g
gather_nodes (node ∷ rest) g = gather_nodes rest (gather_node node g)

unfoldable pub gather_weeks : List WeekState → Gathered → Gathered
gather_weeks [] g = g
gather_weeks (week ∷ rest) g =
    gather_weeks rest
      (gather_nodes week.nodes (record g { total_cost = add_int g.total_cost week.total_cost }))

module _ {Float : Type 0} (floats : Floats Float) where
  open floats use {nought, of_int, plus, minus, times, over, is_positive}

  unfoldable pub average_ints : List GoInt → Float
  average_ints [] = nought
  average_ints (value ∷ rest) =
      over (of_int (sum_ints (value ∷ rest))) (of_int (length (value ∷ rest)))

  unfoldable pub square_loop : Float → Float → List GoInt → Float
  square_loop mean sum [] = sum
  square_loop mean sum (value ∷ rest) =
      let diff = minus (of_int value) mean in square_loop mean (plus sum (times diff diff)) rest

  unfoldable pub variance_ints : List GoInt → Float
  unfolding average_ints square_loop
  variance_ints [] = nought
  variance_ints (value ∷ rest) =
      over (square_loop (average_ints (value ∷ rest)) nought (value ∷ rest))
        (of_int (length (value ∷ rest)))

  unfoldable pub bullwhip : Float → Float → Float
  bullwhip role_variance demand_variance =
      if is_positive demand_variance then over role_variance demand_variance else nought

  -- The body of the loop over the roles.
  unfoldable pub role_analytics : Gathered → Role → NodeAnalytics Float
  role_analytics g role = record {
    role = role;
    total_cost = g.cost role;
    average_inventory = average_ints (g.inventory role);
    total_backlog = sum_ints (g.backlog role);
    total_orders = sum_ints (g.orders role);
    order_variance = variance_ints (g.orders role);
  }

  unfoldable pub analyse_roles :
      Gathered → Float → List Role → SessionAnalytics Float → SessionAnalytics Float
  unfolding role_analytics bullwhip
  analyse_roles g demand_variance [] result = result
  analyse_roles g demand_variance (role ∷ rest) result =
      let role_variance = variance_ints (g.orders role) in
      analyse_roles g demand_variance rest (record result {
        order_variance = result.order_variance ++ (role, role_variance) ∷ [];
        bullwhip_effect =
            result.bullwhip_effect ++ (role, bullwhip role_variance demand_variance) ∷ [];
        node_analytics = result.node_analytics ++ role_analytics g role ∷ [];
      })

  -- The analytics before the loops, and of a game with no week played.
  abbrev pub no_analytics : GoInt → SessionAnalytics Float
  no_analytics total_weeks = record {
    total_weeks = total_weeks;
    total_cost = 0;
    demand_variance = nought;
    node_analytics = [];
    order_variance = [];
    bullwhip_effect = [];
  }

  unfoldable pub analyse_history : List WeekState → SessionAnalytics Float
  unfolding analyse_roles
  analyse_history [] = no_analytics 0
  analyse_history (week ∷ rest) =
      let g = gather_weeks (week ∷ rest) nothing_gathered in
      let demand_variance = variance_ints g.demand in
      analyse_roles g demand_variance all_roles (record (no_analytics (length (week ∷ rest))) {
        total_cost = g.total_cost;
        demand_variance = demand_variance;
      })

  unfoldable pub calculate_session_analytics : GameSession → SessionAnalytics Float
  unfolding analyse_history
  calculate_session_analytics session = analyse_history session.history
