-- ===== src/Domain/Session.antt =====
-- internal/domain/state.go and internal/domain/game_session.go: the state of a game, and the week.
pub mod Queues
pub mod Node
pub mod Week
pub mod Totals
pub mod Invariant
pub mod Bounds
pub mod Advance
pub mod Game
pub mod Play
pub mod Kept
pub mod Begin
pub mod Tests
use Prim.Native.String.{◌++◌ as ◌<>◌}
use supply_chain_game.Prelude.{
  ℕ, Bool, true, false, not, List, [], ◌∷◌, ◌++◌, Option, none, some, String, if◌then◌else◌, length,
}
use supply_chain_game.Word.{GoInt, Time, add_int, sub_int, mul_int, lt_int, le_int}
use supply_chain_game.Result.{
  Result, ok, err, panic, ◌>>=◌, ◌>>◌, reject_if, invalid_max_weeks, session_not_active,
  week_limit_reached, missing_decision, negative_decision,
}
use supply_chain_game.Domain.Role.{
  Role, factory, distributor, wholesaler, retailer, all_roles, role_eq, role_text,
}
use supply_chain_game.Domain.Scenario.{Scenario, validate, demand_for_week}
use supply_chain_game.Domain.Room.{GameStatus, waiting, active, finished}
use supply_chain_game.Domain.RoleMap.{RoleMap, lookup, get_or_zero}

pub record NodeState : Type 0 where
  pub id : String
  pub role : Role
  pub inventory : GoInt
  pub backlog : GoInt
  pub incoming_order : GoInt
  pub incoming_goods : GoInt
  pub placed_order : GoInt
  pub actual_shipment : GoInt
  pub weekly_cost : GoInt

pub record WeekState : Type 0 where
  pub week : GoInt
  pub nodes : List NodeState
  pub total_cost : GoInt

-- `map[Role][]int`, where a missing key reads as the empty slice: the queues of the four roles, and
-- the entries of any other key.
pub record Pipelines : Type 0 where
  pub of_factory : List GoInt
  pub of_distributor : List GoInt
  pub of_wholesaler : List GoInt
  pub of_retailer : List GoInt
  pub of_others : List (Role × List GoInt)

abbrev pub entry_of : List (Role × List GoInt) → Role → List GoInt
entry_of [] role = []
entry_of ((other, queue) ∷ rest) role = if role_eq other role then queue else entry_of rest role

-- `pipelines[role]`
abbrev pub queue_of : Pipelines → Role → List GoInt
queue_of pipelines factory = pipelines.of_factory
queue_of pipelines distributor = pipelines.of_distributor
queue_of pipelines wholesaler = pipelines.of_wholesaler
queue_of pipelines retailer = pipelines.of_retailer
queue_of pipelines role = entry_of pipelines.of_others role

pub record GameSession : Type 0 where
  pub id : String
  pub room_id : String
  pub status : GameStatus
  pub current_week : GoInt
  pub max_weeks : GoInt
  pub scenario : Scenario
  pub nodes : List NodeState
  pub goods_pipelines : Pipelines
  pub order_pipelines : Pipelines
  pub production_queue : List GoInt
  pub history : List WeekState
  pub created_at : Time
  pub updated_at : Time

-- A node with the zero value in every other field.
abbrev pub empty_node : Role → NodeState
empty_node role = record {
  id = "";
  role = role;
  inventory = 0;
  backlog = 0;
  incoming_order = 0;
  incoming_goods = 0;
  placed_order = 0;
  actual_shipment = 0;
  weekly_cost = 0;
}

unfoldable pub initial_nodes : String → Scenario → List Role → List NodeState
initial_nodes id scenario [] = []
initial_nodes id scenario (role ∷ rest) =
    record (empty_node role) {
      id = id <> ("-" <> role_text role);
      inventory = scenario.initial_inventory;
      backlog = scenario.initial_backlog;
    }
    ∷ initial_nodes id scenario rest

-- `pipelines[role] = queue`
unfoldable pub put : Pipelines → Role → List GoInt → Pipelines
put pipelines factory queue = record pipelines { of_factory = queue }
put pipelines distributor queue = record pipelines { of_distributor = queue }
put pipelines wholesaler queue = record pipelines { of_wholesaler = queue }
put pipelines retailer queue = record pipelines { of_retailer = queue }
put pipelines role queue = record pipelines { of_others = (role, queue) ∷ pipelines.of_others }

-- The map that `make` makes.
abbrev pub no_queues : Pipelines
no_queues = record {
  of_factory = [];
  of_distributor = [];
  of_wholesaler = [];
  of_retailer = [];
  of_others = [];
}

-- The three entries that `NewGameSession` makes; `copyInts` copies, so they are not shared.
unfoldable pub initial_pipelines : Role → Role → Role → List GoInt → Pipelines
unfolding put
initial_pipelines a b c queue = put (put (put no_queues a queue) b queue) c queue

unfoldable pub new_game_session : String → String → Scenario → GoInt → Time → Result GameSession
unfolding initial_nodes initial_pipelines
new_game_session id room_id scenario max_weeks now = do
  reject_if (le_int max_weeks 0) invalid_max_weeks
  validate scenario
  ok (record {
    id = id;
    room_id = room_id;
    status = active;
    current_week = 0;
    max_weeks = max_weeks;
    scenario = scenario;
    nodes = initial_nodes id scenario all_roles;
    goods_pipelines =
        initial_pipelines distributor wholesaler retailer scenario.initial_pipeline_goods;
    order_pipelines =
        initial_pipelines factory distributor wholesaler scenario.initial_pipeline_orders;
    production_queue = scenario.initial_pipeline_goods;
    history = [];
    created_at = now;
    updated_at = now;
  })

unfoldable pub node_by_role : List NodeState → Role → NodeState
node_by_role [] role = empty_node role
node_by_role (node ∷ rest) role = if role_eq node.role role then node else node_by_role rest role

unfoldable pub must_node : GameSession → Role → NodeState
unfolding node_by_role
must_node s role = node_by_role s.nodes role

-- `shiftSlice`: the head of the queue, 0 if there is none, and the rest.
unfoldable pub shift_slice : List GoInt → GoInt × List GoInt
shift_slice [] = (0, [])
shift_slice (incoming ∷ rest) = (incoming, rest)

shift_entry : Pipelines → Role → List GoInt → GoInt × Pipelines
unfolding put
shift_entry pipelines role [] = (0, pipelines)
shift_entry pipelines role (incoming ∷ rest) = (incoming, put pipelines role rest)

unfoldable pub shift_pipeline : Pipelines → Role → GoInt × Pipelines
unfolding shift_entry
shift_pipeline pipelines role = shift_entry pipelines role (queue_of pipelines role)

unfoldable pub append_pipeline : Pipelines → Role → GoInt → Pipelines
unfolding put
append_pipeline pipelines role value = put pipelines role (queue_of pipelines role ++ value ∷ [])

unfoldable pub min_int : GoInt → GoInt → GoInt
min_int a b = if lt_int a b then a else b

unfoldable pub max_int : GoInt → GoInt → GoInt
max_int a b = if lt_int b a then a else b

-- The loop that asks for a decision of each role.
unfoldable pub check_decisions : List Role → RoleMap → Result (Unit {0})
check_decisions [] decisions = ok tt
check_decisions (role ∷ rest) decisions = elim (lookup role decisions) [
  | none ↦ err (missing_decision role)
  | some order ↦
      if lt_int order 0 then err (negative_decision role) else check_decisions rest decisions
]

-- The maps `incomingGoods` and `incomingOrders`.
abbrev pub by_role : GoInt → GoInt → GoInt → GoInt → Role → GoInt
by_role f d w r factory = f
by_role f d w r distributor = d
by_role f d w r wholesaler = w
by_role f d w r retailer = r
by_role f d w r _ = 0

-- What arrives in a week, and the queues that it has left.
pub record Incoming : Type 0 where
  pub goods : Role → GoInt
  pub orders : Role → GoInt
  pub goods_left : Pipelines
  pub orders_left : Pipelines
  pub production_left : List GoInt

unfoldable pub receive : GameSession → GoInt → Incoming
receive s demand =
    let to_distributor = shift_pipeline s.goods_pipelines distributor in
    let to_wholesaler = shift_pipeline to_distributor.1 wholesaler in
    let to_retailer = shift_pipeline to_wholesaler.1 retailer in
    let produced = shift_slice s.production_queue in
    let by_retailer = shift_pipeline s.order_pipelines wholesaler in
    let by_wholesaler = shift_pipeline by_retailer.1 distributor in
    let by_distributor = shift_pipeline by_wholesaler.1 factory in
    record {
      goods = by_role produced.0 to_distributor.0 to_wholesaler.0 to_retailer.0;
      orders = by_role by_distributor.0 by_wholesaler.0 by_retailer.0 demand;
      goods_left = to_retailer.1;
      orders_left = by_distributor.1;
      production_left = produced.1;
    }

-- The body of the loop over the roles.
unfoldable pub next_node : Scenario → NodeState → Role → GoInt → GoInt → GoInt → NodeState
next_node scenario prev role incoming_goods incoming_order placed_order =
    let available = add_int prev.inventory incoming_goods in
    let required = add_int incoming_order prev.backlog in
    let shipment = min_int available required in
    let backlog = max_int (sub_int required shipment) 0 in
    let inventory = sub_int available shipment in
    record {
      id = prev.id;
      role = role;
      inventory = inventory;
      backlog = backlog;
      incoming_order = incoming_order;
      incoming_goods = incoming_goods;
      placed_order = placed_order;
      actual_shipment = shipment;
      weekly_cost =
          add_int (mul_int inventory scenario.holding_cost) (mul_int backlog scenario.backlog_cost);
    }

-- The loop over the roles, with `nextNodes` and `totalCost`.
unfoldable pub advance_nodes :
    GameSession → Incoming → RoleMap → List Role → List NodeState → GoInt → List NodeState × GoInt
advance_nodes s incoming decisions [] next_nodes total_cost = (next_nodes, total_cost)
advance_nodes s incoming decisions (role ∷ rest) next_nodes total_cost =
    let next =
      next_node s.scenario (must_node s role) role (incoming.goods role) (incoming.orders role)
        (get_or_zero role decisions) in
    advance_nodes s incoming decisions rest (next_nodes ++ next ∷ [])
      (add_int total_cost next.weekly_cost)

unfoldable pub place_orders : Pipelines → RoleMap → Pipelines
unfolding append_pipeline
place_orders pipelines decisions =
    append_pipeline
      (append_pipeline (append_pipeline pipelines wholesaler (get_or_zero retailer decisions))
        distributor (get_or_zero wholesaler decisions))
      factory (get_or_zero distributor decisions)

unfoldable pub ship_goods : Pipelines → List NodeState → Pipelines
unfolding append_pipeline node_by_role
ship_goods pipelines nodes =
    append_pipeline
      (append_pipeline
        (append_pipeline pipelines distributor (node_by_role nodes factory).actual_shipment)
        wholesaler (node_by_role nodes distributor).actual_shipment)
      retailer (node_by_role nodes wholesaler).actual_shipment

-- `AdvanceWeek` after its checks, with the consumers' demand of the week.
unfoldable pub play_week : GameSession → RoleMap → Time → GoInt → GoInt → WeekState × GameSession
play_week s decisions now next_week demand =
    let incoming = receive s demand in
    let (next_nodes, total_cost) = advance_nodes s incoming decisions all_roles [] 0 in
    let week_state : WeekState = record {
      week = next_week;
      nodes = next_nodes;
      total_cost = total_cost;
    } in
    (
      week_state,
      record s {
        status = if le_int s.max_weeks next_week then finished else s.status;
        current_week = next_week;
        nodes = next_nodes;
        goods_pipelines = ship_goods incoming.goods_left next_nodes;
        order_pipelines = place_orders incoming.orders_left decisions;
        production_queue = incoming.production_left ++ get_or_zero factory decisions ∷ [];
        history = s.history ++ week_state ∷ [];
        updated_at = now;
      },
    )

abbrev pub is_active : GameStatus → Bool
is_active waiting = false
is_active active = true
is_active finished = false

unfoldable pub advance_week : GameSession → RoleMap → Time → Result (WeekState × GameSession)
advance_week s decisions now = do
  reject_if (not (is_active s.status)) session_not_active
  reject_if (le_int s.max_weeks s.current_week) week_limit_reached
  check_decisions all_roles decisions
  demand ← demand_for_week s.scenario (add_int s.current_week 1)
  ok (play_week s decisions now (add_int s.current_week 1) demand)
