-- ===== src/Usecase/Rooms.antt =====
-- internal/usecase/room_service.go: making a room, joining it and choosing a role.
pub mod Joining
use supply_chain_game.Prelude.{none, some, String, false}
use supply_chain_game.Word.{GoInt}
use supply_chain_game.Result.{ok}
use supply_chain_game.Domain.Role.{Role, unassigned}
use supply_chain_game.Domain.Room.{Room, new_room, add_player, assign_role}
use supply_chain_game.Usecase.Ports.{
  Ports, World, Action, RoomEvent, ◌>>=◌, ◌>>◌, lift, save_room, room_by_id, new_id, now, publish,
  write_players,
}

abbrev pub room_event : {F : Type 0} → String → Room → RoomEvent F
room_event kind room = record {
  kind = kind;
  room_id = room.id;
  occurred_at = room.updated_at;
  room = some room;
  session = none;
  decisions = none;
  analytics = none;
}

module _ {R S D F : Type 0} (ports : Ports R S D F) where
  unfoldable pub create_room : GoInt → Action (World R S D F) Room
  create_room max_weeks = do
    room_id ← new_id ports
    time ← now ports
    room ← lift (new_room room_id max_weeks time)
    save_room ports room
    publish ports (room_event "room.created" room)
    lift (ok room)

  unfoldable pub get_room : String → Action (World R S D F) Room
  get_room room_id = room_by_id ports room_id

  unfoldable pub join_room : String → String → Action (World R S D F) Room
  join_room room_id player_name = do
    room ← room_by_id ports room_id
    player_id ← new_id ports
    time ← now ports
    joined ← lift (
        add_player room
          (record {
            id = player_id;
            name = player_name;
            role = unassigned;
            connected = false;
            joined_at = 0;
          })
          time)
    save_room ports joined
    publish ports (room_event "room.player_joined" joined)
    lift (ok joined)

  unfoldable pub assign_player_role : String → String → Role → Action (World R S D F) Room
  assign_player_role room_id player_id role = do
    room ← room_by_id ports room_id
    time ← now ports
    assigned ← lift (assign_role room player_id role time)
    write_players ports room_id assigned.players
    save_room ports assigned
    publish ports (room_event "room.role_assigned" assigned)
    lift (ok assigned)
