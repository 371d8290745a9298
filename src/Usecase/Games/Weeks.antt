-- ===== src/Usecase/Games/Weeks.antt =====
-- `AdvanceWeek` of the game service: the week is played once the four orders are there.
use supply_chain_game.Prelude.{
  ◌≡◌, ◌≢◌, inr, refl, ap, none, some, String, suc, [], ◌∷◌, ◌++◌, ◌∙◌, length, ◌==◌, arith, true,
}
use supply_chain_game.Word.{GoInt, Time, IsWord, add_int}
use supply_chain_game.Result.{ok, err, week_decisions_not_found}
use supply_chain_game.Domain.RoleMap.{RoleMap}
use supply_chain_game.Domain.Room.{Room}
use supply_chain_game.Domain.Session.{GameSession, WeekState, advance_week, play_week}
use supply_chain_game.Domain.Session.Week.{advance_week-play_week}
use supply_chain_game.Domain.Session.Invariant.{IsValid, IsWithin, Limits}
use supply_chain_game.Domain.Session.Game.{IsReady, advance_week_succeeds}
use supply_chain_game.Usecase.Decisions.{WeeklyDecisions}
use supply_chain_game.Domain.Analytics.{calculate_session_analytics}
use supply_chain_game.Usecase.Ports.{Ports, World}
use supply_chain_game.Usecase.Contracts.{AreReliable}
use supply_chain_game.Usecase.Games.{
  advance_game_week, finish_week, current_playable_week, or_not_ready, publish_room_event,
}

play_week-room_id :
    (s : GameSession) (decisions : RoleMap) (now : Time) (next_week demand : GoInt)
    → (play_week s decisions now next_week demand).1.room_id ≡ s.room_id
unfolding play_week
play_week-room_id s decisions now next_week demand = refl

-- A week leaves a session in its room.
advance_week-room_id :
    (s : GameSession) (decisions : RoleMap) (now : Time) (week : WeekState) (s' : GameSession)
    → advance_week s decisions now ≡ ok (week, s')
    → s'.room_id ≡ s.room_id
advance_week-room_id s decisions now week s' e =
    let (demand, played) = advance_week-play_week s decisions now week s' e in
    rw (← ap (λ (p : WeekState × GameSession). p.1.room_id) played)
      (play_week-room_id s decisions now (add_int s.current_week 1) demand)

module _ {R S D F : Type 0} (ports : Ports R S D F) where
  -- A room with its session, and the decisions that the store has for the week.
  pub record AtWeek (room_id : String) (w : World R S D F) (room : Room) (session : GameSession)
      : Type 0 where
    pub in_store : ports.room_store.get_by_id room_id w.rooms ≡ ok room
    pub of_room : ports.session_store.get_by_room_id room_id w.sessions ≡ ok session
    pub room_key : room.id ≡ room_id
    pub session_key : session.room_id ≡ room_id

  module _ (reliable : AreReliable ports) (room_id : String) (w : World R S D F) (room : Room)
      (session : GameSession) (at : AtWeek room_id w room session) (before : WeeklyDecisions) where
    -- What the week leaves in the stores.
    pub record Leaves (w' : World R S D F) (session' : GameSession) : Type 0 where
      pub session_saved : ports.session_store.get_by_room_id room_id w'.sessions ≡ ok session'
      pub room' : Room
      pub room_saved : ports.room_store.get_by_id room_id w'.rooms ≡ ok room'
      pub status : room'.status ≡ session'.status
      pub week : room'.current_week ≡ current_playable_week session'
      pub players : room'.players ≡ room.players
      pub used_up :
          ports.decision_store.get_by_room_and_week room_id
            (current_playable_week session)
            w'.decisions
          ≡ err week_decisions_not_found
      pub room_key : room'.id ≡ room_id
      pub session_key : session'.room_id ≡ room_id
      pub others_left :
          (week : GoInt)
          → IsWord (current_playable_week session)
          → IsWord week
          → current_playable_week session ≢ week
          → ports.decision_store.get_by_room_and_week room_id week w'.decisions
            ≡ ports.decision_store.get_by_room_and_week room_id week w.decisions

    -- With four orders stored for the week of a valid session within its limits, one from each role,
    -- the call plays that week and answers it. The stores then hold the session that follows, valid
    -- and within its limits, a room that agrees with it, and no orders for the week played.
    pub advance_game_week_lem :
        (l : Limits)
        → IsReady l session before.orders
        → ports.decision_store.get_by_room_and_week room_id
            (current_playable_week session)
            w.decisions
          ≡ ok before
        → length before.orders ≡ 4
        → (week : WeekState) × (session' : GameSession) × (w' : World R S D F) × (advance_week
              session before.orders
              (ports.surroundings.time_at w.times_read)
            ≡ ok (week, session'))
          × (advance_game_week ports room_id w ≡ (ok week, w'))
          × IsValid session'
          × IsWithin l session'
          × Leaves w' session'
    unfolding advance_game_week or_not_ready finish_week publish_room_event
    advance_game_week_lem l ready stored four =
        let (week, session', played, valid, within, next, weeks, history) =
          advance_week_succeeds l session before.orders (ports.surroundings.time_at w.times_read)
            ready in
        (
          week,
          session',
          after session',
          played,
          answered week session' played,
          valid,
          within,
          left session' (advance_week-room_id _ _ _ week session' played ∙ at.session_key),
        )
      where
        updated : GameSession → Room
        updated session' = record room {
          current_week = current_playable_week session';
          status = session'.status;
          updated_at = ports.surroundings.time_at (suc w.times_read);
        }

        after : GameSession → World R S D F
        after session' = record {
          rooms = (ports.room_store.save (updated session') w.rooms).1;
          sessions = (ports.session_store.save session' w.sessions).1;
          decisions =
              (ports.decision_store.delete_by_room_and_week room_id (current_playable_week session)
                w.decisions).1;
          published =
              w.published
              ++ record {
                kind = "game.week_advanced";
                room_id = room.id;
                occurred_at = ports.surroundings.time_at (suc (suc w.times_read));
                room = some (updated session');
                session = some session';
                decisions = none;
                analytics = some (calculate_session_analytics ports.floats session');
              }
                ∷ [];
          ids_read = w.ids_read;
          times_read = suc (suc (suc w.times_read));
        }

        answered :
            (week : WeekState) (session' : GameSession)
            → advance_week session before.orders (ports.surroundings.time_at w.times_read)
              ≡ ok (week, session')
            → advance_game_week ports room_id w ≡ (ok week, after session')
        answered week session' played =
            let all_in : (length before.orders == 4) ≡ true = ground (arith, four) in
            rw
              (
                at.in_store,
                at.of_room,
                stored,
                all_in,
                played,
                reliable.sessions.saves session' w.sessions,
                reliable.rooms.saves (updated session') w.rooms,
                reliable.decisions.deletes room_id (current_playable_week session) w.decisions,
              )
              refl

        left :
            (session' : GameSession) → session'.room_id ≡ room_id → Leaves (after session') session'
        left session' key = record {
          session_saved = rw (← key) (reliable.sessions.saved_for_room session' w.sessions);
          room' = updated session';
          room_saved = rw (← at.room_key) (reliable.rooms.saved (updated session') w.rooms);
          status = refl;
          week = refl;
          players = refl;
          used_up = reliable.decisions.deleted room_id (current_playable_week session) w.decisions;
          room_key = at.room_key;
          session_key = key;
          others_left = λ week word other different.
              reliable.decisions.others_left room_id (current_playable_week session) w.decisions
                room_id week word other (inr different);
        }
