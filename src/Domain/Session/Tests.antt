-- ===== src/Domain/Session/Tests.antt =====
-- A game of two weeks, played.
use supply_chain_game.Prelude.{◌+◌, ◌≤◌, ◌≡◌, refl, [], ◌∷◌, arith, some}
use supply_chain_game.Word.{GoInt, add_int, sub_int, mul_int, lt_int, le_int}
use supply_chain_game.Result.{ok, err, ◌>>=◌, missing_decision}
use supply_chain_game.Domain.Role.{
  Role, factory, distributor, wholesaler, retailer, unassigned, unknown, IsKnown, is_known_role,
  role_eq,
}
use supply_chain_game.Domain.Scenario.{
  Scenario, fixed, normalized_demand_mode, demand_for_week, demand_of,
}
use supply_chain_game.Domain.RoleMap.{RoleMap, lookup, get_or_zero}
use supply_chain_game.Domain.Session.{
  GameSession, WeekState, new_game_session, advance_week, play_week, receive, advance_nodes,
  next_node, must_node, node_by_role, check_decisions, shift_slice, shift_pipeline, put, min_int,
  max_int, initial_nodes, initial_pipelines,
}
use supply_chain_game.Domain.Session.Invariant.{Limits, AreDecided}
use supply_chain_game.Domain.Session.Play.{Moves, IsOver, play_weeks}
use supply_chain_game.Domain.Session.Game.{Plays, IsReady, advance_week-Plays}
use supply_chain_game.Domain.Session.Begin.{
  IsStartable, initial_limits, fresh, fresh-IsValid, fresh-IsWithin, new_game-IsOver,
}

abbrev pub two_weeks : Scenario
two_weeks = record {
  id = "two-weeks";
  initial_inventory = 12;
  initial_backlog = 0;
  initial_pipeline_goods = 4 ∷ 4 ∷ [];
  initial_pipeline_orders = 4 ∷ [];
  consumer_demand = 5 ∷ 30 ∷ [];
  shipping_delay = 2;
  order_delay = 1;
  production_delay = 2;
  holding_cost = 1;
  backlog_cost = 2;
  demand_mode = fixed;
  demand_min = 0;
  demand_max = 0;
  demand_change_period = 0;
}

pub two_weeks-IsStartable : IsStartable two_weeks 2 30
unfolding normalized_demand_mode
two_weeks-IsStartable = ground arith

abbrev pub orders : RoleMap
orders = (factory, 7) ∷ (distributor, 6) ∷ (wholesaler, 5) ∷ (retailer, 9) ∷ []

abbrev pub session : GameSession
session = fresh "s1" "r1" two_weeks 2 3

abbrev pub limits : Limits
limits = initial_limits two_weeks 30

pub orders-AreDecided : AreDecided limits orders
unfolding lookup role_eq is_known_role
orders-AreDecided = record { decided = decided }
  where
    decided :
        (role : Role)
        → IsKnown role
        → (order : GoInt) × (lookup role orders ≡ some order) × (order ≤ 30)
    decided factory k = (7, refl, omega arith)
    decided distributor k = (6, refl, omega arith)
    decided wholesaler k = (5, refl, omega arith)
    decided retailer k = (9, refl, omega arith)
    decided unassigned k = cc
    decided (unknown s) k = cc

pub session-IsReady : IsReady limits session orders
session-IsReady = record {
  valid = fresh-IsValid "s1" "r1" two_weeks 2 3 30 two_weeks-IsStartable;
  within = fresh-IsWithin "s1" "r1" two_weeks 2 3 30 two_weeks-IsStartable;
  decided = orders-AreDecided;
  running = omega arith;
}

-- The first week: 12 + 4 goods at every node, 4 ordered from all but the retailer, 5 from it.
first_week : WeekState
first_week = (play_week session orders 4 1 5).0

second_session : GameSession
second_session = (play_week session orders 4 1 5).1

advance_week-first : advance_week session orders 4 ≡ ok (first_week, second_session)
unfolding first_week second_session advance_week check_decisions lookup role_eq lt_int le_int
    add_int demand_for_week demand_of sub_int
advance_week-first = refl

first_week_cost : first_week.total_cost ≡ 47
unfolding first_week play_week receive advance_nodes next_node must_node node_by_role min_int
    max_int lt_int add_int sub_int mul_int role_eq initial_nodes initial_pipelines shift_slice
    shift_pipeline put get_or_zero lookup le_int
first_week_cost = refl

-- Three decisions are not enough.
advance_week-missing :
    advance_week session ((factory, 7) ∷ (distributor, 6) ∷ (retailer, 9) ∷ []) 4
    ≡ err (missing_decision wholesaler)
unfolding advance_week check_decisions lookup role_eq lt_int le_int
advance_week-missing = refl

advance_week-Plays_example :
    (arrived : GoInt) × (demand_for_week two_weeks (0 + 1) ≡ ok arrived)
    × Plays session second_session orders arrived
advance_week-Plays_example =
    advance_week-Plays limits session orders 4 session-IsReady first_week second_session
      advance_week-first

abbrev pub moves : Moves
moves = (orders, 4) ∷ (orders, 5) ∷ []

new_game-IsOver_example :
    (end : GameSession) × ((new_game_session "s1" "r1" two_weeks 2 3 >>= play_weeks moves) ≡ ok end)
    × IsOver limits end
new_game-IsOver_example =
    new_game-IsOver "s1" "r1" two_weeks 2 3 30 two_weeks-IsStartable moves
      (orders-AreDecided, (orders-AreDecided, tt)) refl
