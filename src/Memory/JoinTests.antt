-- ===== src/Memory/JoinTests.antt =====
-- A player joins an empty room over the stores in memory.
use text.Mathlib.Text.{◌==◌ as str_eq}
use text.Mathlib.TextEquality.{eq_iff}
use supply_chain_game.Prelude.{ℕ, ◌≡◌, ◌≢◌, refl, [], ◌∷◌, ◌++◌, String, arith, false}
use supply_chain_game.Result.{ok}
use supply_chain_game.Domain.Room.{Room}
use supply_chain_game.Domain.Room.Invariant.{empty_room}
use supply_chain_game.Domain.Room.Join.{CanJoin, with_player}
use supply_chain_game.Domain.Analytics.Tests.{whole}
use supply_chain_game.Usecase.Ports.{Ports, World, Surroundings}
use supply_chain_game.Usecase.Rooms.{join_room, room_event}
use supply_chain_game.Usecase.Rooms.Joining.{newcomer, join_room_lem}
use supply_chain_game.Memory.Stores.{
  Rooms, Sessions, Decisions, no_rooms, no_sessions, no_stored_decisions, save_room, room_by_id,
}
use supply_chain_game.Memory.Tests.{no_file}
use supply_chain_game.Memory.Stores.Laws.{in_memory, in_memory-AreReliable}

abbrev surroundings : Surroundings
surroundings = record { id_at = λ n. ok "p1"; time_at = λ n. n }

abbrev ports : Ports Rooms Sessions Decisions ℕ
ports = in_memory surroundings no_file whole

abbrev room : Room
room = empty_room "r1" 30 5

abbrev world : World Rooms Sessions Decisions ℕ
world = record {
  rooms = (save_room room no_rooms).1;
  sessions = no_sessions;
  decisions = no_stored_decisions;
  published = [];
  ids_read = 1;
  times_read = 6;
}

stored : room_by_id "r1" world.rooms ≡ ok room
unfolding room_by_id save_room
stored = refl

differ : (s t : String) → str_eq s t ≡ false → s ≢ t
differ s t h e = cc ((eq_iff s t).1 e)

ann_joins : CanJoin room (newcomer "p1" "Ann")
ann_joins = record {
  named = differ "Ann" "" refl;
  open_room = refl;
  place = omega arith;
  fresh_name = tt;
}

join_room_lem_example :
    (joined : Room) × (w' : World Rooms Sessions Decisions ℕ) × (join_room ports "r1" "Ann" world
      ≡ (ok joined, w'))
    × (joined ≡ with_player room (newcomer "p1" "Ann") 6)
    × (room_by_id "r1" w'.rooms ≡ ok joined)
    × (w'.sessions ≡ world.sessions)
    × (w'.decisions ≡ world.decisions)
    × (w'.published ≡ world.published ++ room_event "room.player_joined" joined ∷ [])
join_room_lem_example =
    join_room_lem ports (in_memory-AreReliable surroundings no_file whole) "r1" "Ann" "p1" world
      room stored refl refl ann_joins
