-- ===== src/Usecase/Games/Start.antt =====
-- `StartGame`: what it saves, and what a failure leaves behind.
use supply_chain_game.Prelude.{
  ℕ, suc, ◌≤◌, ◌≡◌, refl, List, [], ◌∷◌, ◌++◌, none, some, String, length, All,
}
use supply_chain_game.Word.{Time, add_int}
use supply_chain_game.Result.{ok, err, Error}
use supply_chain_game.Domain.Role.{Role, IsKnown}
use supply_chain_game.Domain.Scenario.{Rand, Scenario, materialize_demand}
use supply_chain_game.Domain.Room.{Player, Room, waiting, active, start}
use supply_chain_game.Domain.Room.Holders.{holders, RoleIsValid}
use supply_chain_game.Domain.Room.Ensure.{IsStaffed, start_succeeds}
use supply_chain_game.Domain.Session.{GameSession}
use supply_chain_game.Domain.Session.Invariant.{IsValid, IsWithin}
use supply_chain_game.Domain.Session.Begin.{
  IsStartable, initial_limits, fresh, made, fresh-IsValid, fresh-IsWithin,
}
use supply_chain_game.Domain.Analytics.{calculate_session_analytics}
use supply_chain_game.Usecase.Ports.{Ports, World}
use supply_chain_game.Usecase.Contracts.{AreReliable}
use supply_chain_game.Usecase.Games.{
  start_game, resolve_scenario, publish_room_event, current_playable_week,
}

module _ {R S D F : Type 0} (ports : Ports R S D F) (rng : Rand) where
  -- A waiting room of four in which no role is taken twice, and a scenario with its demand.
  pub record CanStart (room_id scenario_id : String) (w : World R S D F) (room : Room)
      (scenario : Scenario) : Type 0 where
    pub given : Scenario
    pub in_store : ports.room_store.get_by_id room_id w.rooms ≡ ok room
    pub room_key : room.id ≡ room_id
    pub resolved : resolve_scenario ports scenario_id ≡ ok given
    pub demand :
        materialize_demand rng given room.max_weeks (ports.surroundings.time_at w.times_read)
        ≡ ok scenario
    pub status : room.status ≡ waiting
    pub four : length room.players ≡ 4
    pub roles : All (λ p. RoleIsValid p.role) room.players
    pub unshared : (role : Role) → IsKnown role → holders role room.players ≤ 1

  module _ (room_id scenario_id : String) (w : World R S D F) (room : Room) (scenario : Scenario)
      (can : CanStart room_id scenario_id w room scenario) where
    abbrev time : Time
    time = ports.surroundings.time_at w.times_read

    -- If no identifier can be made the call fails with no room and no session saved, but the roles
    -- that `Start` has handed out stay written to the players that the room store shares.
    pub start_game-id_failed :
        (e : Error)
        → ports.surroundings.id_at w.ids_read ≡ err e
        → (after : List Player) × (w' : World R S D F) × (start_game ports rng room_id scenario_id w
            ≡ (err e, w'))
          × IsStaffed room.players after
          × (w'.rooms ≡ ports.room_store.write_players room_id after w.rooms)
          × (w'.sessions ≡ w.sessions)
          × (w'.published ≡ w.published)
    unfolding start_game
    start_game-id_failed e failed =
        let (after, started, staffed) =
          start_succeeds room time can.status can.four can.roles can.unshared in
        (after, left after, answered after started, staffed, refl, refl, refl)
      where
        left : List Player → World R S D F
        left after = record w {
          rooms = ports.room_store.write_players room_id after w.rooms;
          ids_read = suc w.ids_read;
          times_read = suc w.times_read;
        }

        answered :
            (after : List Player)
            → start room time
              ≡ ok (record room {
                players = after;
                status = active;
                current_week = 1;
                updated_at = time;
              })
            → start_game ports rng room_id scenario_id w ≡ (err e, left after)
        answered after started = rw (can.in_store, can.resolved, can.demand, started, failed) refl

    module _ (reliable : AreReliable ports) (cap : ℕ) (session_id : String) where
      -- What the start leaves in the stores.
      pub record Begins (w' : World R S D F) (session : GameSession) : Type 0 where
        pub session_saved : ports.session_store.get_by_room_id room_id w'.sessions ≡ ok session
        pub valid : IsValid session
        pub within : IsWithin (initial_limits scenario cap) session
        pub room' : Room
        pub room_saved : ports.room_store.get_by_id room_id w'.rooms ≡ ok room'
        pub status : room'.status ≡ active
        pub week : room'.current_week ≡ 1
        pub playable : current_playable_week session ≡ 1
        pub staffed : IsStaffed room.players room'.players
        pub scenario_kept : room'.scenario_id ≡ scenario.id
        pub room_key : room'.id ≡ room_id
        pub session_key : session.room_id ≡ room_id
        pub weeks_played : session.current_week ≡ 0
        pub weeks_to_play : session.max_weeks ≡ room.max_weeks
        pub running : session.status ≡ active
        pub orders_kept : w'.decisions ≡ w.decisions

      -- A waiting room of four, each with a role of the game or none and no role taken twice, starts
      -- with a startable scenario when an identifier can be made. The stores then hold a valid session of the room, within its
      -- limits, and the room as active in week 1, each role given to one player.
      pub start_game_lem :
          IsStartable scenario room.max_weeks cap
          → ports.surroundings.id_at w.ids_read ≡ ok session_id
          → (session : GameSession) × (w' : World R S D F) × (start_game ports rng room_id
                scenario_id w
              ≡ (ok session, w'))
            × Begins w' session
      unfolding start_game publish_room_event current_playable_week add_int
      start_game_lem startable named =
          let (after, started, staffed) =
            start_succeeds room time can.status can.four can.roles can.unshared in
          (session, left after, answered after started, begins after staffed)
        where
          session : GameSession
          session = fresh session_id room.id scenario room.max_weeks time

          saved : List Player → Room
          saved after = record room {
            players = after;
            status = active;
            current_week = 1;
            scenario_id = scenario.id;
            updated_at = time;
          }

          shared : List Player → R
          shared after = ports.room_store.write_players room_id after w.rooms

          left : List Player → World R S D F
          left after = record {
            rooms = (ports.room_store.save (saved after) (shared after)).1;
            sessions = (ports.session_store.save session w.sessions).1;
            decisions = w.decisions;
            published =
                w.published
                ++ record {
                  kind = "game.started";
                  room_id = room.id;
                  occurred_at = ports.surroundings.time_at (suc w.times_read);
                  room = some (saved after);
                  session = some session;
                  decisions = none;
                  analytics = some (calculate_session_analytics ports.floats session);
                }
                  ∷ [];
            ids_read = suc w.ids_read;
            times_read = suc (suc w.times_read);
          }

          answered :
              (after : List Player)
              → start room time
                ≡ ok (record room {
                  players = after;
                  status = active;
                  current_week = 1;
                  updated_at = time;
                })
              → start_game ports rng room_id scenario_id w ≡ (ok session, left after)
          answered after started =
              rw
                (
                  can.in_store,
                  can.resolved,
                  can.demand,
                  started,
                  named,
                  made session_id room.id scenario room.max_weeks time cap startable,
                  reliable.rooms.saves (saved after) (shared after),
                  reliable.sessions.saves session w.sessions,
                )
                refl

          saved_under :
              (r : Room) (state : R)
              → r.id ≡ room_id
              → ports.room_store.get_by_id room_id (ports.room_store.save r state).1 ≡ ok r
          saved_under r state key = rw (← key) (reliable.rooms.saved r state)

          begins :
              (after : List Player) → IsStaffed room.players after → Begins (left after) session
          begins after staffed = record {
            session_saved =
                rw (← can.room_key) (reliable.sessions.saved_for_room session w.sessions);
            valid = fresh-IsValid session_id room.id scenario room.max_weeks time cap startable;
            within = fresh-IsWithin session_id room.id scenario room.max_weeks time cap startable;
            room' = saved after;
            room_saved = saved_under (saved after) (shared after) can.room_key;
            status = refl;
            week = refl;
            playable = refl;
            staffed = staffed;
            scenario_kept = refl;
            room_key = can.room_key;
            session_key = can.room_key;
            weeks_played = refl;
            weeks_to_play = refl;
            running = refl;
            orders_kept = refl;
          }
