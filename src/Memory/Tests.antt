-- ===== src/Memory/Tests.antt =====
-- The services over the stores in memory, at a game of two weeks.
use supply_chain_game.Prelude.{
  take, ℕ, ◌≡◌, ◌↔◌, All, refl, [], ◌∷◌, some, String, if◌then◌else◌, true, false, List,
}
use supply_chain_game.Word.{GoInt, add_int, lt_int}
use supply_chain_game.Result.{Result, store_failed, ok, err}
use supply_chain_game.Domain.Role.{
  Role, factory, distributor, wholesaler, retailer, role_eq, all_roles,
}
use supply_chain_game.Domain.RoleMap.{lookup}
use supply_chain_game.Domain.Room.{Player, Room, active, role_of_player}
use supply_chain_game.Domain.Session.{GameSession, WeekState, advance_week}
use supply_chain_game.Domain.Session.Invariant.{IsValid, IsWithin}
use supply_chain_game.Domain.Session.Tests.{orders, session, limits, session-IsReady}
use supply_chain_game.Usecase.Decisions.{WeeklyDecisions, snapshot}
use supply_chain_game.Usecase.Decisions.Ready.{HasOrder, snapshot_iff}
use supply_chain_game.Domain.Analytics.{SessionAnalytics}
use supply_chain_game.Domain.Analytics.Tests.{whole}
use supply_chain_game.Usecase.Ports.{Ports, World, Surroundings, ExportedFile}
use supply_chain_game.Usecase.Games.{
  submit_order, advance_game_week, current_playable_week, or_no_decisions, no_decisions,
}
use supply_chain_game.Usecase.Games.Orders.{CanOrder, submit_order_lem}
use supply_chain_game.Usecase.Games.Weeks.{AtWeek, Leaves, advance_game_week_lem}
use supply_chain_game.Memory.Stores.{
  Rooms, Sessions, Decisions, no_rooms, no_sessions, no_stored_decisions, save_room, save_session,
  save_decisions, room_by_id, session_by_room_id, decisions_by_room_and_week,
}
use supply_chain_game.Memory.Stores.Laws.{in_memory, in_memory-AreReliable}
use supply_chain_game.Memory.Bus.{RoomEventBus, new_bus, subscribe, find_subscriber}
use supply_chain_game.Memory.Bus.Delivery.{publish_all, of_room, subscribe_lem}

abbrev pub surroundings : Surroundings
surroundings = record { id_at = λ n. ok "id"; time_at = λ n. n }

-- An exporter that never succeeds.
abbrev pub no_file : GameSession → SessionAnalytics ℕ → Result ExportedFile
no_file played found = err store_failed

abbrev pub ports : Ports Rooms Sessions Decisions ℕ
ports = in_memory surroundings no_file whole

abbrev pub player : String → Role → Player
player name role = record { id = name; name = name; role = role; connected = true; joined_at = 1 }

abbrev pub room : Room
room = record {
  id = "r1";
  status = active;
  current_week = 1;
  max_weeks = 2;
  players =
      player "a" factory
      ∷ player "b" distributor
      ∷ player "c" wholesaler
      ∷ player "d" retailer
      ∷ [];
  scenario_id = "two-weeks";
  created_at = 1;
  updated_at = 3;
}

abbrev pub decided : WeeklyDecisions
decided = record { room_id = "r1"; week = 1; orders = orders; updated_at = 4 }

abbrev pub world : Decisions → World Rooms Sessions Decisions ℕ
world decisions = record {
  rooms = (save_room room no_rooms).1;
  sessions = (save_session session no_sessions).1;
  decisions = decisions;
  published = [];
  ids_read = 0;
  times_read = 5;
}

abbrev pub before_orders : World Rooms Sessions Decisions ℕ
before_orders = world no_stored_decisions

abbrev all_ordered : World Rooms Sessions Decisions ℕ
all_ordered = world (save_decisions decided no_stored_decisions).1

pub b_orders : CanOrder ports "r1" "b" before_orders distributor (no_decisions "r1" 1 0)
unfolding room_by_id session_by_room_id decisions_by_room_and_week role_of_player role_eq
    current_playable_week or_no_decisions save_room save_session add_int
b_orders = record {
  room = room;
  session = session;
  in_store = refl;
  plays = refl;
  of_room = refl;
  running = refl;
  so_far = refl;
  keyed_room = refl;
  keyed_week = refl;
}

six : lt_int 6 0 ≡ false
unfolding lt_int
six = refl

submit_order_lem_example :
    (after : WeeklyDecisions) × (w' : World Rooms Sessions Decisions ℕ) × (submit_order ports "r1"
        "b" 6 before_orders
      ≡ (ok (snapshot after), w'))
    × (decisions_by_room_and_week "r1" (current_playable_week b_orders.session) w'.decisions
        ≡ ok after)
    × ((other : Role)
        → lookup other after.orders
          ≡ (if role_eq distributor other then some 6 else lookup other []))
    × (w'.rooms ≡ before_orders.rooms)
    × (w'.sessions ≡ before_orders.sessions)
submit_order_lem_example =
    submit_order_lem ports (in_memory-AreReliable surroundings no_file whole) "r1" "b" 6
      before_orders distributor (no_decisions "r1" 1 0) six b_orders

pub at_week : (d : Decisions) → AtWeek ports "r1" (world d) room session
unfolding room_by_id session_by_room_id save_room save_session
at_week d = record { in_store = refl; of_room = refl; room_key = refl; session_key = refl }

all_stored :
    decisions_by_room_and_week "r1" (current_playable_week session) all_ordered.decisions
    ≡ ok decided
unfolding decisions_by_room_and_week save_decisions current_playable_week add_int
all_stored = refl

advance_game_week_lem_example :
    (week : WeekState) × (session' : GameSession) × (w' : World Rooms Sessions Decisions ℕ)
    × (advance_week session orders 5 ≡ ok (week, session'))
    × (advance_game_week ports "r1" all_ordered ≡ (ok week, w'))
    × IsValid session'
    × IsWithin limits session'
    × Leaves ports
        (in_memory-AreReliable surroundings no_file whole)
        "r1"
        all_ordered
        room
        session
        (at_week all_ordered.decisions)
        decided
        w'
        session'
advance_game_week_lem_example =
    advance_game_week_lem ports (in_memory-AreReliable surroundings no_file whole) "r1" all_ordered
      room session (at_week all_ordered.decisions) decided limits session-IsReady all_stored refl

abbrev events : List (String × ℕ)
events = ("r1", 7) ∷ ("r2", 8) ∷ ("r1", 9) ∷ []

abbrev watched : GoInt × RoomEventBus ℕ
watched = subscribe "r1" new_bus

subscribe_lem_example :
    find_subscriber watched.0 ((publish_all events watched.1).subscribers "r1")
    ≡ some (record { held = take 16 (of_room "r1" events); closed = false })
subscribe_lem_example = subscribe_lem "r1" events new_bus

snapshot_iff_example : ((snapshot decided).ready ≡ true) ↔ All (HasOrder orders) all_roles
snapshot_iff_example = snapshot_iff decided
