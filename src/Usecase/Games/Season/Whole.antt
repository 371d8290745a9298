-- ===== src/Usecase/Games/Season/Whole.antt =====
-- A whole game of internal/usecase/game_service.go, from `StartGame` to the last week.
use supply_chain_game.Prelude.{ℕ, ◌≡◌, List, All, Distinct, String, arith, length, sym, ◌∙◌}
use supply_chain_game.Word.{GoInt, IsWord}
use supply_chain_game.Result.{ok, err, week_decisions_not_found}
use supply_chain_game.Domain.Role.{Role, IsKnown}
use supply_chain_game.Domain.Scenario.{Rand, Scenario}
use supply_chain_game.Domain.Room.{Room, finished, role_of_player}
use supply_chain_game.Domain.Room.Invariant.{ids}
use supply_chain_game.Domain.Room.Life.{AllKeep-ids}
use supply_chain_game.Domain.Room.Seats.{seats, role_of_player-seats}
use supply_chain_game.Domain.Session.{GameSession}
use supply_chain_game.Domain.Session.Begin.{IsStartable, initial_limits}
use supply_chain_game.Domain.Session.Play.{IsOver}
use supply_chain_game.Usecase.Ports.{Ports, World}
use supply_chain_game.Usecase.Contracts.{AreReliable}
use supply_chain_game.Usecase.Games.{start_game}
use supply_chain_game.Usecase.Games.Start.{CanStart, Begins, start_game_lem}
use supply_chain_game.Usecase.Games.Season.{Round, IsRound, InPlay, play_season}
use supply_chain_game.Usecase.Games.Season.Rounds.{play_season-IsOver}

module _ {R S D F : Type 0} (ports : Ports R S D F) (rng : Rand) (reliable : AreReliable ports)
    (room_id scenario_id session_id : String) (w : World R S D F) (room : Room)
    (scenario : Scenario) (can : CanStart ports rng room_id scenario_id w room scenario) (cap : ℕ)
    (distinct : Distinct (ids room.players)) where
  -- Each player of the started room in the seat of the role that is theirs.
  seats_in :
      (w' : World R S D F) (session : GameSession)
      → Begins ports rng room_id scenario_id w room scenario can reliable cap session_id w' session
      → Role
      → String
  seats_in w' session begins =
      seats begins.room'
        (rw (AllKeep-ids room.players begins.room'.players begins.staffed.keeps) distinct)
        begins.staffed.one_each

  Begins-InPlay :
      (w' : World R S D F) (session : GameSession)
      → (begins : Begins ports rng room_id scenario_id w room scenario can reliable cap session_id
          w' session)
      → ((week : GoInt)
          → IsWord week
          → ports.decision_store.get_by_room_and_week room_id week w.decisions
            ≡ err week_decisions_not_found)
      → InPlay ports room_id (seats_in w' session begins) (initial_limits scenario cap) w' session
  unfolding seats_in
  Begins-InPlay w' session begins quiet = record {
    room = begins.room';
    at = record {
      in_store = begins.room_saved;
      of_room = begins.session_saved;
      room_key = begins.room_key;
      session_key = begins.session_key;
    };
    seated = role_of_player-seats begins.room' _ begins.staffed.one_each;
    agrees = begins.status ∙ sym begins.running;
    valid = begins.valid;
    within = begins.within;
    quiet = λ week word later. rw begins.orders_kept (quiet week word);
  }

  -- What a room and its session look like after the last week, with the players who have ordered.
  pub record Ends (w' : World R S D F) (players : Role → String) : Type 0 where
    pub end : GameSession
    pub session_stored : ports.session_store.get_by_room_id room_id w'.sessions ≡ ok end
    pub over : IsOver (initial_limits scenario cap) end
    pub all_weeks : length end.history ≡ room.max_weeks
    pub room' : Room
    pub room_stored : ports.room_store.get_by_id room_id w'.rooms ≡ ok room'
    pub room_over : room'.status ≡ finished
    pub seated : (role : Role) → IsKnown role → role_of_player room' (players role) ≡ ok role

  -- A room that can start, with a startable scenario and with no orders stored for it, can be played
  -- to its end: it starts, each role has a player, and whatever orders within the cap come in, in
  -- whatever sequence, with one of each role in each week, no call fails, and after the last week the
  -- stores hold a finished session with its full history and a finished room.
  pub start_game-Ends :
      (rounds : List Round)
      → IsStartable scenario room.max_weeks cap
      → ports.surroundings.id_at w.ids_read ≡ ok session_id
      → ((week : GoInt)
          → IsWord week
          → ports.decision_store.get_by_room_and_week room_id week w.decisions
            ≡ err week_decisions_not_found)
      → All (IsRound (initial_limits scenario cap)) rounds
      → length rounds ≡ room.max_weeks
      → (session : GameSession) × (started : World R S D F) × (players : Role → String)
        × (w' : World R S D F) × (start_game ports rng room_id scenario_id w
            ≡ (ok session, started))
        × (play_season ports room_id players rounds started ≡ (ok tt, w'))
        × Ends w' players
  start_game-Ends rounds startable named quiet each long =
      let (session, started, answers, begins) =
        start_game_lem ports rng room_id scenario_id w room scenario can reliable cap session_id
          startable named in
      let (w', end, moves, played, in_play, over, weeks, same, led) =
        play_season-IsOver ports reliable room_id (seats_in started session begins)
          (initial_limits scenario cap) rounds started session
          (Begins-InPlay started session begins quiet) each
          (omega (arith, begins.weeks_played, begins.weeks_to_play, long)) in
      (
        session,
        started,
        seats_in started session begins,
        w',
        answers,
        played,
        record {
          end = end;
          session_stored = in_play.at.of_room;
          over = over;
          all_weeks = over.all_weeks ∙ weeks ∙ begins.weeks_to_play;
          room' = in_play.room;
          room_stored = in_play.at.in_store;
          room_over = in_play.agrees ∙ over.finished_status;
          seated = in_play.seated;
        },
      )
