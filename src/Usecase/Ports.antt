-- ===== src/Usecase/Ports.antt =====
-- The interfaces of internal/usecase: the stores, the scenarios, the identifiers, the clock and the
-- publisher, and the computations over them.
use supply_chain_game.Prelude.{ℕ, suc, List, [], ◌∷◌, ◌++◌, Option, String}
use supply_chain_game.Word.{GoInt, Time}
use supply_chain_game.Result.{Result, ok, err, panic}
use supply_chain_game.Domain.Scenario.{Scenario}
use supply_chain_game.Domain.Room.{Room, Player}
use supply_chain_game.Domain.Session.{GameSession}
use supply_chain_game.Domain.Analytics.{Floats, SessionAnalytics}
use supply_chain_game.Usecase.Decisions.{WeeklyDecisions, WeeklyDecisionsSnapshot}

-- A store over its state. `write_players` is what the store shows of a write through the slice of
-- players of a room that it has handed out: memory that both share, or nothing.
pub record RoomStore (R : Type 0) : Type 0 where
  pub save : Room → R → Result (Unit {0}) × R
  pub get_by_id : String → R → Result Room
  pub write_players : String → List Player → R → R

pub record SessionStore (S : Type 0) : Type 0 where
  pub save : GameSession → S → Result (Unit {0}) × S
  pub get_by_id : String → S → Result GameSession
  pub get_by_room_id : String → S → Result GameSession

pub record DecisionStore (D : Type 0) : Type 0 where
  pub save : WeeklyDecisions → D → Result (Unit {0}) × D
  pub get_by_room_and_week : String → GoInt → D → Result WeeklyDecisions
  pub delete_by_room_and_week : String → GoInt → D → Result (Unit {0}) × D

pub record ScenarioRepository : Type 0 where
  pub get_default : Result Scenario
  pub get_by_id : String → Result Scenario

-- An event; `F` is the type of the floating-point numbers of its analytics.
pub record RoomEvent (F : Type 0) : Type 0 where
  pub kind : String
  pub room_id : String
  pub occurred_at : Time
  pub room : Option Room
  pub session : Option GameSession
  pub decisions : Option WeeklyDecisionsSnapshot
  pub analytics : Option (SessionAnalytics F)

-- What the services change: the stores, the events published so far, and how many identifiers and
-- times have been read.
pub record World (R S D F : Type 0) : Type 0 where
  pub rooms : R
  pub sessions : S
  pub decisions : D
  pub published : List (RoomEvent F)
  pub ids_read : ℕ
  pub times_read : ℕ

-- The n-th answer of the identifier generator and of the clock.
pub record Surroundings : Type 0 where
  pub id_at : ℕ → Result String
  pub time_at : ℕ → Time

abbrev pub Action {ℓ} : Type 0 → Type ℓ → Type ℓ
Action W A = W → Result A × W

abbrev pub continue {ℓ κ} :
    {W : Type 0} {A : Type ℓ} {B : Type κ} → Result A × W → (A → Action W B) → Result B × W
continue (ok a, w) f = f a w
continue (err e, w) f = (err e, w)
continue (panic, w) f = (panic, w)

infixl 5 ◌>>=◌ ◌>>◌
abbrev pub ◌>>=◌ {ℓ κ} :
    {W : Type 0} {A : Type ℓ} {B : Type κ} → Action W A → (A → Action W B) → Action W B
(m >>= f) w = continue (m w) f

abbrev pub ◌>>◌ {κ} : {W : Type 0} {B : Type κ} → Action W (Unit {0}) → Action W B → Action W B
m >> k = m >>= λ _. k

-- A result that reads and writes nothing.
abbrev pub lift {ℓ} : {W : Type 0} {A : Type ℓ} → Result A → Action W A
lift r w = (r, w)

-- What the exporter makes of a session.
pub record ExportedFile : Type 0 where
  pub file_name : String
  pub content_type : String
  pub content : List ℕ

pub record Ports (R S D F : Type 0) : Type 0 where
  pub room_store : RoomStore R
  pub session_store : SessionStore S
  pub decision_store : DecisionStore D
  pub scenarios : ScenarioRepository
  pub surroundings : Surroundings
  pub export_session : GameSession → SessionAnalytics F → Result ExportedFile
  pub floats : Floats F

module _ {R S D F : Type 0} (ports : Ports R S D F) where
  abbrev pub save_room : Room → Action (World R S D F) (Unit {0})
  save_room room w =
      let (answer, rooms) = ports.room_store.save room w.rooms in
      (answer, record w { rooms = rooms })

  abbrev pub room_by_id : String → Action (World R S D F) Room
  room_by_id id w = (ports.room_store.get_by_id id w.rooms, w)

  abbrev pub write_players : String → List Player → Action (World R S D F) (Unit {0})
  write_players id players w =
      (ok tt, record w { rooms = ports.room_store.write_players id players w.rooms })

  abbrev pub save_session : GameSession → Action (World R S D F) (Unit {0})
  save_session session w =
      let (answer, sessions) = ports.session_store.save session w.sessions in
      (answer, record w { sessions = sessions })

  abbrev pub session_by_id : String → Action (World R S D F) GameSession
  session_by_id id w = (ports.session_store.get_by_id id w.sessions, w)

  abbrev pub session_by_room : String → Action (World R S D F) GameSession
  session_by_room id w = (ports.session_store.get_by_room_id id w.sessions, w)

  abbrev pub save_decisions : WeeklyDecisions → Action (World R S D F) (Unit {0})
  save_decisions decisions w =
      let (answer, stored) = ports.decision_store.save decisions w.decisions in
      (answer, record w { decisions = stored })

  -- A read of the decisions whose error the caller looks at.
  abbrev pub decisions_of : String → GoInt → Action (World R S D F) (Result WeeklyDecisions)
  decisions_of room_id week w =
      (ok (ports.decision_store.get_by_room_and_week room_id week w.decisions), w)

  abbrev pub delete_decisions : String → GoInt → Action (World R S D F) (Unit {0})
  delete_decisions room_id week w =
      let (answer, stored) =
        ports.decision_store.delete_by_room_and_week room_id week w.decisions in
      (answer, record w { decisions = stored })

  abbrev pub new_id : Action (World R S D F) String
  new_id w = (ports.surroundings.id_at w.ids_read, record w { ids_read = suc w.ids_read })

  abbrev pub now : Action (World R S D F) Time
  now w = (ok (ports.surroundings.time_at w.times_read), record w { times_read = suc w.times_read })

  -- The answer of the publisher is dropped.
  abbrev pub publish : RoomEvent F → Action (World R S D F) (Unit {0})
  publish event w = (ok tt, record w { published = w.published ++ event ∷ [] })
