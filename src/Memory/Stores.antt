-- ===== src/Memory/Stores.antt =====
-- internal/infrastructure/memory: room_store.go, session_store.go, decision_store.go and
-- scenario_repository.go. A method holds the lock of its store for its whole body, so it is one step.
pub mod Laws
use text.Mathlib.Text.{◌==◌ as str_eq}
use supply_chain_game.Prelude.{
  Bool, true, false, List, [], ◌∷◌, Option, none, some, String, if◌then◌else◌, ◌==◌, ◌&&◌,
}
use supply_chain_game.Word.{GoInt}
use supply_chain_game.Result.{
  Result, ok, err, room_not_found, session_not_found, week_decisions_not_found,
}
use supply_chain_game.Domain.Scenario.{Scenario, random_blocks}
use supply_chain_game.Domain.Room.{Player, Room}
use supply_chain_game.Domain.Session.{GameSession}
use supply_chain_game.Usecase.Decisions.{WeeklyDecisions}
use supply_chain_game.Usecase.Ports.{RoomStore, SessionStore, DecisionStore, ScenarioRepository}

-- `map[string]V`
abbrev pub StringMap {ℓ} : Type ℓ → Type ℓ
StringMap V = String → Option V

-- `m[k] = v`
abbrev pub put_at {ℓ} : {V : Type ℓ} → String → V → StringMap V → StringMap V
put_at k v m other = if str_eq k other then some v else m other

-- `v, ok := m[k]; if !ok { return e }`
abbrev pub found_or {ℓ} : {V : Type ℓ} → Option V → Result V → Result V
found_or (some v) e = ok v
found_or none e = e

abbrev pub Rooms : Type 0
Rooms = StringMap Room

abbrev pub no_rooms : Rooms
no_rooms id = none

unfoldable pub save_room : Room → Rooms → Result (Unit {0}) × Rooms
save_room room rooms = (ok tt, put_at room.id room rooms)

unfoldable pub room_by_id : String → Rooms → Result Room
room_by_id id rooms = found_or (rooms id) (err room_not_found)

with_players : List Player → Option Room → Option Room
with_players players none = none
with_players players (some room) = some (record room { players = players })

-- A room that `GetByID` returns shares its slice of players with the map.
unfoldable pub share_players : String → List Player → Rooms → Rooms
unfolding with_players
share_players id players rooms other =
    if str_eq id other then with_players players (rooms other) else rooms other

abbrev pub room_store : RoomStore Rooms
room_store = record { save = save_room; get_by_id = room_by_id; write_players = share_players }

pub record Sessions : Type 0 where
  pub sessions : StringMap GameSession
  pub by_room_id : StringMap String

abbrev pub no_sessions : Sessions
no_sessions = record { sessions = λ id. none; by_room_id = λ id. none }

unfoldable pub save_session : GameSession → Sessions → Result (Unit {0}) × Sessions
save_session session s = (
  ok tt,
  record {
    sessions = put_at session.id session s.sessions;
    by_room_id = put_at session.room_id session.id s.by_room_id;
  },
)

unfoldable pub session_by_id : String → Sessions → Result GameSession
session_by_id id s = found_or (s.sessions id) (err session_not_found)

indexed : Option String → Sessions → Result GameSession
unfolding session_by_id
indexed none s = err session_not_found
indexed (some id) s = session_by_id id s

unfoldable pub session_by_room_id : String → Sessions → Result GameSession
unfolding indexed
session_by_room_id room_id s = indexed (s.by_room_id room_id) s

abbrev pub session_store : SessionStore Sessions
session_store = record {
  save = save_session;
  get_by_id = session_by_id;
  get_by_room_id = session_by_room_id;
}

-- The key of the map is the room, a colon and the decimal week; as a decimal number holds no colon,
-- two keys are equal only for equal pairs, and a pair is used in its place.
abbrev pub Decisions : Type 0
Decisions = String → GoInt → Option WeeklyDecisions

abbrev pub no_stored_decisions : Decisions
no_stored_decisions room_id week = none

unfoldable pub at_key : String → GoInt → String → GoInt → Bool
at_key room_id week other_room other_week = str_eq room_id other_room && (week == other_week)

-- The orders are copied, so nothing else shares them.
unfoldable pub save_decisions : WeeklyDecisions → Decisions → Result (Unit {0}) × Decisions
unfolding at_key
save_decisions d stored = (
  ok tt,
  λ room_id week. if at_key d.room_id d.week room_id week then some d else stored room_id week,
)

unfoldable pub decisions_by_room_and_week : String → GoInt → Decisions → Result WeeklyDecisions
decisions_by_room_and_week room_id week stored =
    found_or (stored room_id week) (err week_decisions_not_found)

unfoldable pub delete_decisions : String → GoInt → Decisions → Result (Unit {0}) × Decisions
unfolding at_key
delete_decisions room_id week stored = (
  ok tt,
  λ other_room other_week.
      if at_key room_id week other_room other_week then none else stored other_room other_week,
)

abbrev pub decision_store : DecisionStore Decisions
decision_store = record {
  save = save_decisions;
  get_by_room_and_week = decisions_by_room_and_week;
  delete_by_room_and_week = delete_decisions;
}

abbrev pub default_scenario : Scenario
default_scenario = record {
  id = "default-beer-game";
  initial_inventory = 12;
  initial_backlog = 0;
  initial_pipeline_goods = 4 ∷ 4 ∷ [];
  initial_pipeline_orders = 4 ∷ [];
  consumer_demand = [];
  shipping_delay = 2;
  order_delay = 1;
  production_delay = 2;
  holding_cost = 1;
  backlog_cost = 2;
  demand_mode = random_blocks;
  demand_min = 8;
  demand_max = 20;
  demand_change_period = 5;
}

-- A scenario that is not there is reported as a room that is not.
unfoldable pub scenario_by_id : String → Result Scenario
scenario_by_id id =
    if str_eq default_scenario.id id then ok default_scenario else err room_not_found

abbrev pub scenario_repository : ScenarioRepository
scenario_repository = record { get_default = ok default_scenario; get_by_id = scenario_by_id }
