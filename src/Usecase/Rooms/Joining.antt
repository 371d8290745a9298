-- ===== src/Usecase/Rooms/Joining.antt =====
-- `JoinRoom` of internal/usecase/room_service.go, over reliable stores.
use supply_chain_game.Prelude.{◌≡◌, refl, [], ◌∷◌, ◌++◌, String, false, suc, arith}
use supply_chain_game.Result.{ok}
use supply_chain_game.Domain.Role.{unassigned}
use supply_chain_game.Domain.Room.{Player, Room, add_player}
use supply_chain_game.Domain.Room.Join.{CanJoin, with_player, add_player_iff}
use supply_chain_game.Usecase.Ports.{Ports, World}
use supply_chain_game.Usecase.Contracts.{AreReliable}
use supply_chain_game.Usecase.Rooms.{join_room, room_event}

-- A player as `JoinRoom` makes it.
abbrev pub newcomer : String → String → Player
newcomer id name = record {
  id = id;
  name = name;
  role = unassigned;
  connected = false;
  joined_at = 0;
}

module _ {R S D F : Type 0} (ports : Ports R S D F) (reliable : AreReliable ports) where
  -- A player who may join a stored room, and for whom an identifier can be made, is in the room that
  -- the store then holds and that the call answers; sessions and decisions stay, and the room is
  -- published.
  pub join_room_lem :
      (room_id player_name player_id : String) (w : World R S D F) (room : Room)
      → ports.room_store.get_by_id room_id w.rooms ≡ ok room
      → room.id ≡ room_id
      → ports.surroundings.id_at w.ids_read ≡ ok player_id
      → CanJoin room (newcomer player_id player_name)
      → (joined : Room) × (w' : World R S D F) × (join_room ports room_id player_name w
          ≡ (ok joined, w'))
        × (joined
            ≡ with_player room
                (newcomer player_id player_name)
                (ports.surroundings.time_at w.times_read))
        × (ports.room_store.get_by_id room_id w'.rooms ≡ ok joined)
        × (w'.sessions ≡ w.sessions)
        × (w'.decisions ≡ w.decisions)
        × (w'.published ≡ w.published ++ room_event "room.player_joined" joined ∷ [])
  unfolding join_room
  join_room_lem room_id player_name player_id w room in_store key named can =
      (after, left, answered, refl, kept after w.rooms key, refl, refl, refl)
    where
      after : Room
      after =
          with_player room (newcomer player_id player_name)
            (ports.surroundings.time_at w.times_read)

      left : World R S D F
      left = record w {
        rooms = (ports.room_store.save after w.rooms).1;
        published = w.published ++ room_event "room.player_joined" after ∷ [];
        ids_read = suc w.ids_read;
        times_read = suc w.times_read;
      }

      added :
          add_player room (newcomer player_id player_name) (ports.surroundings.time_at w.times_read)
          ≡ ok after
      added =
          (add_player_iff room after (newcomer player_id player_name)
              (ports.surroundings.time_at w.times_read) (omega (arith, can.place))).1
            (can, refl)

      answered : join_room ports room_id player_name w ≡ (ok after, left)
      answered = rw (in_store, named, added, reliable.rooms.saves after w.rooms) refl

      kept :
          (r : Room) (state : R)
          → r.id ≡ room_id
          → ports.room_store.get_by_id room_id (ports.room_store.save r state).1 ≡ ok r
      kept r state e = rw (← e) (reliable.rooms.saved r state)
