-- ===== src/Usecase/Games/PlayerStates.antt =====
-- `GetPlayerState` of internal/usecase/game_service.go, and internal/usecase/player_state.go: what one
-- player sees of a game.
pub mod View
use text.Mathlib.Text.{◌==◌ as str_eq}
use supply_chain_game.Prelude.{
  Bool, true, false, List, [], ◌∷◌, Option, none, some, String, map, length, if◌then◌else◌,
}
use supply_chain_game.Word.{GoInt}
use supply_chain_game.Result.{Result, ok, err, player_not_found}
use supply_chain_game.Domain.Role.{Role, all_roles, role_eq}
use supply_chain_game.Domain.RoleMap.{RoleMap, lookup}
use supply_chain_game.Domain.Room.{GameStatus, waiting, active, finished, Player, Room, is_waiting}
use supply_chain_game.Domain.Session.{GameSession, NodeState, WeekState, node_by_role}
use supply_chain_game.Domain.Analytics.{
  NodeAnalytics, SessionAnalytics, calculate_session_analytics,
}
use supply_chain_game.Usecase.Decisions.{WeeklyDecisionsSnapshot}
use supply_chain_game.Usecase.Ports.{Ports, World, Action, ◌>>=◌, lift, room_by_id, session_by_room}
use supply_chain_game.Usecase.Games.{current_playable_week, get_pending_decisions}

pub record PlayerSummary : Type 0 where
  pub name : String
  pub role : Role
  pub connected : Bool

pub record PlayerGameState (F : Type 0) : Type 0 where
  pub room_id : String
  pub player_id : String
  pub player_name : String
  pub role : Role
  pub room_status : GameStatus
  pub current_week : GoInt
  pub max_weeks : GoInt
  pub scenario_id : String
  pub players : List PlayerSummary
  pub orders_submitted : GoInt
  pub orders_expected : GoInt
  pub week_ready : Bool
  pub own_order_submitted : Bool
  pub own_current_order : GoInt
  pub own_node : Option NodeState
  pub own_history : List NodeState
  pub total_system_cost : GoInt
  -- `PlayerAnalytics` has the fields of `NodeAnalytics`.
  pub own_analytics : Option (NodeAnalytics F)

unfoldable pub find_player : String → List Player → Result Player
find_player player_id [] = err player_not_found
find_player player_id (p ∷ rest) =
    if str_eq p.id player_id then ok p else find_player player_id rest

unfoldable pub to_player_summaries : List Player → List PlayerSummary
to_player_summaries [] = []
to_player_summaries (p ∷ rest) =
    record { name = p.name; role = p.role; connected = p.connected } ∷ to_player_summaries rest

unfoldable pub player_analytics_by_role :
    {F : Type 0} → List (NodeAnalytics F) → Role → Option (NodeAnalytics F)
player_analytics_by_role [] role = none
player_analytics_by_role (node ∷ rest) role =
    if role_eq node.role role then some node else player_analytics_by_role rest role

-- The loop over the weeks of `GetPlayerState`.
unfoldable pub own_nodes : List WeekState → Role → List NodeState
own_nodes [] role = []
own_nodes (week ∷ rest) role = node_by_role week.nodes role ∷ own_nodes rest role

-- What a player sees before the game.
unfoldable pub waiting_state : {F : Type 0} → Room → Player → PlayerGameState F
unfolding to_player_summaries
waiting_state room player = record {
  room_id = room.id;
  player_id = player.id;
  player_name = player.name;
  role = player.role;
  room_status = room.status;
  current_week = room.current_week;
  max_weeks = room.max_weeks;
  scenario_id = room.scenario_id;
  players = to_player_summaries room.players;
  orders_submitted = 0;
  orders_expected = 0;
  week_ready = false;
  own_order_submitted = false;
  own_current_order = 0;
  own_node = none;
  own_history = [];
  total_system_cost = 0;
  own_analytics = none;
}

unfoldable pub is_some {ℓ} : {A : Type ℓ} → Option A → Bool
is_some none = false
is_some (some a) = true

unfoldable pub or_zero : Option GoInt → GoInt
or_zero none = 0
or_zero (some order) = order

module _ {R S D F : Type 0} (ports : Ports R S D F) where
  unfoldable pub playing_state :
      Room → Player → GameSession → WeeklyDecisionsSnapshot → PlayerGameState F
  unfolding own_nodes player_analytics_by_role is_some or_zero
  playing_state room player session decisions =
      let analytics = calculate_session_analytics ports.floats session in
      record (waiting_state room player) {
        current_week = current_playable_week session;
        scenario_id = session.scenario.id;
        orders_submitted = length decisions.submitted_roles;
        orders_expected = length all_roles;
        week_ready = decisions.ready;
        own_node = some (node_by_role session.nodes player.role);
        own_history = own_nodes session.history player.role;
        total_system_cost = analytics.total_cost;
        own_order_submitted = is_some (lookup player.role decisions.orders);
        own_current_order = or_zero (lookup player.role decisions.orders);
        own_analytics = player_analytics_by_role analytics.node_analytics player.role;
      }

  -- `GetPlayerState` once the player has been found.
  unfoldable pub found_player_state :
      Room → String → Player → Action (World R S D F) (PlayerGameState F)
  found_player_state room room_id player =
      let at_play = (do
        session ← session_by_room ports room_id
        decisions ← get_pending_decisions ports room_id
        lift (ok (playing_state room player session decisions))) in
      if is_waiting room.status then lift (ok (waiting_state room player)) else at_play

  unfoldable pub get_player_state : String → String → Action (World R S D F) (PlayerGameState F)
  unfolding found_player_state
  get_player_state room_id player_id = do
    room ← room_by_id ports room_id
    player ← lift (find_player player_id room.players)
    found_player_state room room_id player
