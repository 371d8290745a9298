-- ===== src/Usecase/Games.antt =====
-- internal/usecase/game_service.go: starting a game, ordering, and moving on by a week.
pub mod Orders
pub mod Weeks
pub mod Start
pub mod PlayerStates
pub mod Season
pub mod Interleaved
use text.Mathlib.Text.{◌==◌ as str_eq}
use supply_chain_game.Prelude.{
  Bool, not, List, [], ◌∷◌, Option, none, some, String, if◌then◌else◌, length, ◌==◌,
}
use supply_chain_game.Word.{GoInt, Time, add_int, lt_int}
use supply_chain_game.Result.{
  Result, ok, err, panic, Error, reject_if, negative_order, session_not_active, week_not_ready,
  week_decisions_not_found, player_not_found,
}
use supply_chain_game.Domain.Role.{Role, all_roles}
use supply_chain_game.Domain.RoleMap.{RoleMap, insert}
use supply_chain_game.Domain.Scenario.{Rand, Scenario, materialize_demand}
use supply_chain_game.Domain.Room.{
  GameStatus, Player, Room, waiting, active, finished, role_of_player, start,
}
use supply_chain_game.Domain.Session.{
  GameSession, WeekState, new_game_session, advance_week, is_active,
}
use supply_chain_game.Domain.Analytics.{SessionAnalytics, calculate_session_analytics}
use supply_chain_game.Usecase.Decisions.{WeeklyDecisions, WeeklyDecisionsSnapshot, snapshot}
use supply_chain_game.Usecase.Ports.{
  Ports, World, Action, RoomEvent, ExportedFile, ◌>>=◌, ◌>>◌, lift, save_room, room_by_id,
  write_players, save_session, session_by_id, session_by_room, save_decisions, decisions_of,
  delete_decisions, new_id, now, publish,
}

-- The week that the players order for.
unfoldable pub current_playable_week : GameSession → GoInt
current_playable_week s = elim s.status [
  | finished ↦ s.current_week
  | waiting ↦ add_int s.current_week 1
  | active ↦ add_int s.current_week 1
]

abbrev pub no_decisions : String → GoInt → Time → WeeklyDecisions
no_decisions room_id week time = record {
  room_id = room_id;
  week = week;
  orders = [];
  updated_at = time;
}

-- `SubmitOrder` starts from an empty map where the store has no decisions for the week.
unfoldable pub or_no_decisions : String → GoInt → Result WeeklyDecisions → Result WeeklyDecisions
or_no_decisions room_id week (err week_decisions_not_found) = ok (no_decisions room_id week 0)
or_no_decisions room_id week answer = answer

-- `AdvanceWeek` takes missing decisions as a week that is not ready.
unfoldable pub or_not_ready : Result WeeklyDecisions → Result WeeklyDecisions
or_not_ready (err week_decisions_not_found) = err week_not_ready
or_not_ready answer = answer

module _ {R S D F : Type 0} (ports : Ports R S D F) where
  unfoldable pub resolve_scenario : String → Result Scenario
  resolve_scenario scenario_id =
      if str_eq scenario_id ""
      then ports.scenarios.get_default
      else ports.scenarios.get_by_id scenario_id

  unfoldable pub publish_room_event :
      String
      → Room
      → GameSession
      → Option WeeklyDecisionsSnapshot
      → Action (World R S D F) (Unit {0})
  publish_room_event kind room session decisions = do
    time ← now ports
    publish ports (record {
      kind = kind;
      room_id = room.id;
      occurred_at = time;
      room = some room;
      session = some session;
      decisions = decisions;
      analytics = some (calculate_session_analytics ports.floats session);
    })

  module _ (rng : Rand) where
    -- `Start` writes the roles through the slice of players, which the store may share.
    unfoldable pub start_game : String → String → Action (World R S D F) GameSession
    unfolding resolve_scenario publish_room_event current_playable_week
    start_game room_id scenario_id = do
      room ← room_by_id ports room_id
      scenario ← lift (resolve_scenario scenario_id)
      time ← now ports
      scenario ← lift (materialize_demand rng scenario room.max_weeks time)
      started ← lift (start room time)
      write_players ports room_id started.players
      session_id ← new_id ports
      session ← lift (new_game_session session_id started.id scenario started.max_weeks time)
      let saved = record started {
        current_week = current_playable_week session;
        scenario_id = scenario.id;
      } in
          do
            save_room ports saved
            save_session ports session
            publish_room_event "game.started" saved session none
            lift (ok session)

  unfoldable pub submit_order :
      String → String → GoInt → Action (World R S D F) WeeklyDecisionsSnapshot
  submit_order room_id player_id order = do
    lift (reject_if (lt_int order 0) negative_order)
    room ← room_by_id ports room_id
    role ← lift (role_of_player room player_id)
    session ← session_by_room ports room_id
    lift (reject_if (not (is_active session.status)) session_not_active)
    answer ← decisions_of ports room_id (current_playable_week session)
    decisions ← lift (or_no_decisions room_id (current_playable_week session) answer)
    time ← now ports
    let updated = record decisions {
      orders = insert role order decisions.orders;
      updated_at = time;
    } in
        do
          save_decisions ports updated
          publish_room_event "game.order_submitted" room session (some (snapshot updated))
          lift (ok (snapshot updated))

  -- `AdvanceWeek` after its checks, with the week that has been played.
  unfoldable pub finish_week :
      String → GoInt → Room → WeekState × GameSession → Action (World R S D F) WeekState
  finish_week room_id week room (week_state, session) = do
    time ← now ports
    let updated = record room {
      current_week = current_playable_week session;
      status = session.status;
      updated_at = time;
    } in
        do
          save_session ports session
          save_room ports updated
          delete_decisions ports room_id week
          publish_room_event "game.week_advanced" updated session none
          lift (ok week_state)

  unfoldable pub advance_game_week : String → Action (World R S D F) WeekState
  advance_game_week room_id = do
    room ← room_by_id ports room_id
    session ← session_by_room ports room_id
    answer ← decisions_of ports room_id (current_playable_week session)
    decisions ← lift (or_not_ready answer)
    lift (reject_if (not (length decisions.orders == length all_roles)) week_not_ready)
    time ← now ports
    played ← lift (advance_week session decisions.orders time)
    finish_week room_id (current_playable_week session) room played

  unfoldable pub get_session : String → Action (World R S D F) GameSession
  get_session session_id = session_by_id ports session_id

  unfoldable pub get_session_by_room : String → Action (World R S D F) GameSession
  get_session_by_room room_id = session_by_room ports room_id

  unfoldable pub get_weeks : String → Action (World R S D F) (List WeekState)
  get_weeks room_id = do session ← session_by_room ports room_id; lift (ok session.history)

  -- The snapshot of the decisions of a week, empty where the store has none.
  unfoldable pub pending_snapshot :
      String → GoInt → Result WeeklyDecisions → Result WeeklyDecisionsSnapshot
  pending_snapshot room_id week (err week_decisions_not_found) =
      ok (snapshot (no_decisions room_id week 0))
  pending_snapshot room_id week (err e) = err e
  pending_snapshot room_id week (ok decisions) = ok (snapshot decisions)
  pending_snapshot room_id week panic = panic

  unfoldable pub get_pending_decisions : String → Action (World R S D F) WeeklyDecisionsSnapshot
  get_pending_decisions room_id = do
    session ← session_by_room ports room_id
    answer ← decisions_of ports room_id (current_playable_week session)
    lift (pending_snapshot room_id (current_playable_week session) answer)

  unfoldable pub get_analytics : String → Action (World R S D F) (SessionAnalytics F)
  get_analytics room_id = do
    session ← session_by_room ports room_id
    lift (ok (calculate_session_analytics ports.floats session))

  unfoldable pub export_session : String → Action (World R S D F) ExportedFile
  export_session room_id = do
    session ← session_by_room ports room_id
    lift (ports.export_session session (calculate_session_analytics ports.floats session))
