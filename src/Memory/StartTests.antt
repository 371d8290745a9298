-- ===== src/Memory/StartTests.antt =====
-- The start of a game of two weeks over the stores in memory.
use supply_chain_game.Prelude.{ℕ, ◌≡◌, refl, [], ◌∷◌, List, String, arith}
use supply_chain_game.Word.{add_int, le_int, lt_int, sub_int}
use supply_chain_game.Result.{ok, err, id_failed, Result}
use supply_chain_game.Domain.Room.{Player, Room}
use supply_chain_game.Domain.Room.Tests.{gathered, four-valid, four-unshared}
use supply_chain_game.Domain.Room.Ensure.{IsStaffed}
use supply_chain_game.Domain.Scenario.{
  Scenario, materialize_demand, validate, normalized_demand_mode, validate_demand,
  validate_non_negative_slice, generate_random_block_demand,
}
use supply_chain_game.Domain.Scenario.Tests.{zeros}
use supply_chain_game.Domain.Session.{GameSession}
use supply_chain_game.Domain.Session.Begin.{IsStartable}
use supply_chain_game.Domain.Analytics.Tests.{whole}
use supply_chain_game.Usecase.Ports.{Ports, World, Surroundings}
use supply_chain_game.Usecase.Games.{start_game, resolve_scenario}
use supply_chain_game.Usecase.Games.Start.{CanStart, Begins, start_game_lem, start_game-id_failed}
use supply_chain_game.Memory.Stores.{
  Rooms, Sessions, Decisions, no_rooms, no_sessions, no_stored_decisions, save_room, room_by_id,
  share_players, default_scenario,
}
use supply_chain_game.Memory.Tests.{no_file}
use supply_chain_game.Memory.Stores.Laws.{in_memory, in_memory-AreReliable}

abbrev pub surroundings : Result String → Surroundings
surroundings id = record { id_at = λ n. id; time_at = λ n. n }

abbrev pub ports : Result String → Ports Rooms Sessions Decisions ℕ
ports id = in_memory (surroundings id) no_file whole

abbrev pub room : Room
room = record gathered { max_weeks = 2 }

abbrev pub lobby : World Rooms Sessions Decisions ℕ
lobby = record {
  rooms = (save_room room no_rooms).1;
  sessions = no_sessions;
  decisions = no_stored_decisions;
  published = [];
  ids_read = 0;
  times_read = 5;
}

abbrev pub scenario : Scenario
scenario = record default_scenario { consumer_demand = 8 ∷ 8 ∷ [] }

pub scenario-IsStartable : IsStartable scenario 2 8
unfolding normalized_demand_mode
scenario-IsStartable = ground arith

pub can_start : (id : Result String) → CanStart (ports id) zeros "r1" "" lobby room scenario
unfolding room_by_id save_room resolve_scenario materialize_demand validate normalized_demand_mode
    validate_demand validate_non_negative_slice generate_random_block_demand le_int lt_int add_int
    sub_int
can_start id = record {
  given = default_scenario;
  in_store = refl;
  room_key = refl;
  resolved = refl;
  demand = refl;
  status = refl;
  four = refl;
  roles = four-valid;
  unshared = four-unshared;
}

start_game_lem_example :
    (session : GameSession) × (w' : World Rooms Sessions Decisions ℕ) × (start_game
        (ports (ok "s1"))
        zeros
        "r1"
        ""
        lobby
      ≡ (ok session, w'))
    × Begins
        (ports (ok "s1"))
        zeros
        "r1"
        ""
        lobby
        room
        scenario
        (can_start (ok "s1"))
        (in_memory-AreReliable (surroundings (ok "s1")) no_file whole)
        8
        "s1"
        w'
        session
start_game_lem_example =
    start_game_lem (ports (ok "s1")) zeros "r1" "" lobby room scenario (can_start (ok "s1"))
      (in_memory-AreReliable (surroundings (ok "s1")) no_file whole) 8 "s1" scenario-IsStartable
      refl

start_game-id_failed_example :
    (after : List Player) × (w' : World Rooms Sessions Decisions ℕ) × (start_game
        (ports (err id_failed))
        zeros
        "r1"
        ""
        lobby
      ≡ (err id_failed, w'))
    × IsStaffed room.players after
    × (w'.rooms ≡ share_players "r1" after lobby.rooms)
    × (w'.sessions ≡ lobby.sessions)
    × (w'.published ≡ lobby.published)
start_game-id_failed_example =
    start_game-id_failed (ports (err id_failed)) zeros "r1" "" lobby room scenario
      (can_start (err id_failed)) id_failed refl
