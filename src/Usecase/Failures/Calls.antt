-- ===== src/Usecase/Failures/Calls.antt =====
-- The calls of internal/usecase/room_service.go and game_service.go that save only what they have
-- checked before: CreateRoom, JoinRoom, AssignRole, SubmitOrder and AdvanceWeek.
use supply_chain_game.Prelude.{refl, String, List, false, Option, some, none, not, length, ◌==◌}
use supply_chain_game.Word.{GoInt, Time, lt_int}
use supply_chain_game.Result.{
  ok, Fails, reject_if, negative_order, session_not_active, week_not_ready,
}
use supply_chain_game.Domain.Room.{Player, Room, new_room, add_player, assign_role, role_of_player}
use supply_chain_game.Domain.Role.{Role, unassigned, all_roles}
use supply_chain_game.Domain.RoleMap.{insert}
use supply_chain_game.Domain.Session.{GameSession, WeekState, is_active, advance_week}
use supply_chain_game.Usecase.Decisions.{WeeklyDecisions, WeeklyDecisionsSnapshot, snapshot}
use supply_chain_game.Usecase.Ports.{
  Ports, World, RoomEvent, ◌>>=◌, lift, save_room, save_session, save_decisions, delete_decisions,
  room_by_id, session_by_room, decisions_of, write_players, new_id, now, publish,
}
use supply_chain_game.Usecase.Contracts.{AreReliable}
use supply_chain_game.Usecase.Rooms.{room_event, create_room, join_room, assign_player_role}
use supply_chain_game.Usecase.Games.{
  submit_order, finish_week, advance_game_week, publish_room_event, current_playable_week,
  or_no_decisions, or_not_ready,
}
use supply_chain_game.Usecase.Failures.{
  Untouched, untouched, Quiet, Succeeds, Settles, >>=-Settles, >>=-Succeeds, Settles-failed,
  succeeded, quietly, answers,
}

module _ {R S D F : Type 0} (ports : Ports R S D F) (reliable : AreReliable ports) where
  room_by_id-Quiet : (room_id : String) → Quiet (room_by_id ports room_id)
  room_by_id-Quiet room_id = record { same = untouched }

  new_id-Quiet : Quiet (new_id ports)
  new_id-Quiet = record {
    same = λ w. record { rooms = refl; sessions = refl; decisions = refl; published = refl };
  }

  now-Quiet : Quiet (now ports)
  now-Quiet = record {
    same = λ w. record { rooms = refl; sessions = refl; decisions = refl; published = refl };
  }

  save_room-Succeeds : (room : Room) → Succeeds (save_room ports room)
  save_room-Succeeds room = record { value = λ w. (tt, reliable.rooms.saves room w.rooms) }

  publish-Succeeds : (event : RoomEvent F) → Succeeds (publish ports event)
  publish-Succeeds event = record { value = λ w. (tt, refl) }

  -- The end of each call on a room.
  saved_and_told :
      (kind : String) (room : Room)
      → Succeeds (
          save_room ports room >>= λ t.
          publish ports (room_event kind room) >>= λ t. lift (ok room))
  saved_and_told kind room =
      >>=-Succeeds (save_room-Succeeds room)
        λ t. >>=-Succeeds (publish-Succeeds (room_event kind room)) λ t. answers room

  -- The player that JoinRoom makes.
  abbrev joining : String → String → Player
  joining id name = record {
    id = id;
    name = name;
    role = unassigned;
    connected = false;
    joined_at = 0;
  }

  create_room-Settles : (max_weeks : GoInt) → Settles (create_room ports max_weeks)
  unfolding create_room
  create_room-Settles max_weeks = >>=-Settles new_id-Quiet λ room_id. >>=-Settles now-Quiet λ time.
      >>=-Settles (quietly (new_room room_id max_weeks time))
        λ room. succeeded (saved_and_told "room.created" room)

  join_room-Settles : (room_id player_name : String) → Settles (join_room ports room_id player_name)
  unfolding join_room
  join_room-Settles room_id player_name = >>=-Settles (room_by_id-Quiet room_id) λ room.
      >>=-Settles new_id-Quiet λ player_id. >>=-Settles now-Quiet λ time.
        >>=-Settles (quietly (add_player room (joining player_id player_name) time))
          λ joined. succeeded (saved_and_told "room.player_joined" joined)

  write_players-Succeeds :
      (room_id : String) (players : List Player) → Succeeds (write_players ports room_id players)
  write_players-Succeeds room_id players = record { value = λ w. (tt, refl) }

  assign_player_role-Settles :
      (room_id player_id : String) (role : Role)
      → Settles (assign_player_role ports room_id player_id role)
  unfolding assign_player_role
  assign_player_role-Settles room_id player_id role = >>=-Settles (room_by_id-Quiet room_id) λ room.
      >>=-Settles now-Quiet λ time.
        >>=-Settles (quietly (assign_role room player_id role time)) λ assigned. succeeded (
          >>=-Succeeds (write_players-Succeeds room_id assigned.players)
            λ t. saved_and_told "room.role_assigned" assigned)

  session_by_room-Quiet : (room_id : String) → Quiet (session_by_room ports room_id)
  session_by_room-Quiet room_id = record { same = untouched }

  decisions_of-Quiet : (room_id : String) (week : GoInt) → Quiet (decisions_of ports room_id week)
  decisions_of-Quiet room_id week = record { same = untouched }

  save_session-Succeeds : (session : GameSession) → Succeeds (save_session ports session)
  save_session-Succeeds session = record {
    value = λ w. (tt, reliable.sessions.saves session w.sessions);
  }

  save_decisions-Succeeds : (d : WeeklyDecisions) → Succeeds (save_decisions ports d)
  save_decisions-Succeeds d = record { value = λ w. (tt, reliable.decisions.saves d w.decisions) }

  delete_decisions-Succeeds :
      (room_id : String) (week : GoInt) → Succeeds (delete_decisions ports room_id week)
  delete_decisions-Succeeds room_id week = record {
    value = λ w. (tt, reliable.decisions.deletes room_id week w.decisions);
  }

  now-Succeeds : Succeeds (now ports)
  now-Succeeds = record { value = λ w. (ports.surroundings.time_at w.times_read, refl) }

  publish_room_event-Succeeds :
      (kind : String) (room : Room) (session : GameSession)
      (decisions : Option WeeklyDecisionsSnapshot)
      → Succeeds (publish_room_event ports kind room session decisions)
  unfolding publish_room_event
  publish_room_event-Succeeds kind room session decisions = record { value = λ w. (tt, refl) }

  -- The orders with the new one.
  abbrev updated_by : Role → GoInt → WeeklyDecisions → Time → WeeklyDecisions
  updated_by role order before time = record before {
    orders = insert role order before.orders;
    updated_at = time;
  }

  order_stored :
      (room : Room) (session : GameSession) (d : WeeklyDecisions)
      → Succeeds (
          save_decisions ports d >>= λ t.
          publish_room_event ports "game.order_submitted" room session (some (snapshot d)) >>= λ t.
          lift (ok (snapshot d)))
  order_stored room session d = >>=-Succeeds (save_decisions-Succeeds d) λ t.
      >>=-Succeeds
        (publish_room_event-Succeeds "game.order_submitted" room session (some (snapshot d)))
        λ t. answers (snapshot d)

  submit_order-Settles :
      (room_id player_id : String) (order : GoInt)
      → Settles (submit_order ports room_id player_id order)
  unfolding submit_order
  submit_order-Settles room_id player_id order =
      >>=-Settles (quietly (reject_if (lt_int order 0) negative_order)) λ t.
        >>=-Settles (room_by_id-Quiet room_id) λ room.
          >>=-Settles (quietly (role_of_player room player_id)) λ role.
            >>=-Settles (session_by_room-Quiet room_id) λ session.
              >>=-Settles (quietly (reject_if (not (is_active session.status)) session_not_active))
                λ t.
                  let week = current_playable_week session in
                  >>=-Settles (decisions_of-Quiet room_id week) λ answer.
                    >>=-Settles (quietly (or_no_decisions room_id week answer)) λ before.
                      >>=-Settles now-Quiet λ time.
                        succeeded (order_stored room session (updated_by role order before time))

  abbrev moved_on : Room → GameSession → Time → Room
  moved_on room session time = record room {
    current_week = current_playable_week session;
    status = session.status;
    updated_at = time;
  }

  finish_week-Succeeds :
      (room_id : String) (week : GoInt) (room : Room) (played : WeekState × GameSession)
      → Succeeds (finish_week ports room_id week room played)
  unfolding finish_week
  finish_week-Succeeds room_id week room (week_state, session) = >>=-Succeeds now-Succeeds λ time.
      let updated = moved_on room session time in
      >>=-Succeeds (save_session-Succeeds session) λ t.
        >>=-Succeeds (save_room-Succeeds updated) λ t.
          >>=-Succeeds (delete_decisions-Succeeds room_id week) λ t.
            >>=-Succeeds (publish_room_event-Succeeds "game.week_advanced" updated session none)
              λ t. answers week_state

  advance_game_week-Settles : (room_id : String) → Settles (advance_game_week ports room_id)
  unfolding advance_game_week
  advance_game_week-Settles room_id = >>=-Settles (room_by_id-Quiet room_id) λ room.
      >>=-Settles (session_by_room-Quiet room_id) λ session.
        let week = current_playable_week session in
        >>=-Settles (decisions_of-Quiet room_id week) λ answer.
          >>=-Settles (quietly (or_not_ready answer)) λ d.
            >>=-Settles
              (quietly (reject_if (not (length d.orders == length all_roles)) week_not_ready))
              λ t. >>=-Settles now-Quiet λ time.
                >>=-Settles (quietly (advance_week session d.orders time))
                  λ played. succeeded (finish_week-Succeeds room_id week room played)

  -- Over stores that answer, a call of CreateRoom, JoinRoom, AssignRole, SubmitOrder or AdvanceWeek
  -- that does not succeed, for whatever reason, leaves the rooms, the sessions, the orders and the
  -- published events as they were.
  pub failed-Untouched :
      (w : World R S D F)
      → ((max_weeks : GoInt)
          → Fails (create_room ports max_weeks w).0
          → Untouched w (create_room ports max_weeks w).1)
        × ((room_id player_name : String)
            → Fails (join_room ports room_id player_name w).0
            → Untouched w (join_room ports room_id player_name w).1)
        × ((room_id player_id : String) (role : Role)
            → Fails (assign_player_role ports room_id player_id role w).0
            → Untouched w (assign_player_role ports room_id player_id role w).1)
        × ((room_id player_id : String) (order : GoInt)
            → Fails (submit_order ports room_id player_id order w).0
            → Untouched w (submit_order ports room_id player_id order w).1)
        × ((room_id : String)
            → Fails (advance_game_week ports room_id w).0
            → Untouched w (advance_game_week ports room_id w).1)
  failed-Untouched w = (
    λ max_weeks. Settles-failed _ w (create_room-Settles max_weeks),
    λ room_id player_name. Settles-failed _ w (join_room-Settles room_id player_name),
    λ room_id player_id role.
        Settles-failed _ w (assign_player_role-Settles room_id player_id role),
    λ room_id player_id order. Settles-failed _ w (submit_order-Settles room_id player_id order),
    λ room_id. Settles-failed _ w (advance_game_week-Settles room_id),
  )
