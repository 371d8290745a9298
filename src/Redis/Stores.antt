-- ===== src/Redis/Stores.antt =====
-- room_store.go, session_store.go, decision_store.go and room_event_bus.go of
-- internal/infrastructure/redis. The client is a parameter, and so is encoding/json.
pub mod Server
pub mod Sessions
pub mod Laws
pub mod Shared
use supply_chain_game.Prelude.{List, [], ◌∷◌, Option, none, some, String}
use supply_chain_game.Word.{GoInt}
use supply_chain_game.Result.{
  Result, ok, err, panic, Error, room_not_found, session_not_found, week_decisions_not_found,
  store_failed,
}
use supply_chain_game.Domain.Room.{Player, Room}
use supply_chain_game.Domain.Session.{GameSession}
use supply_chain_game.Usecase.Decisions.{WeeklyDecisions}
use supply_chain_game.Usecase.Ports.{RoomStore, SessionStore, DecisionStore, RoomEvent}
use supply_chain_game.Memory.Bus.{Channel, offer}
use supply_chain_game.Redis.Keys.{
  room_key, session_key, room_session_key, decisions_key, room_events_channel,
}

-- The answer to GET: a value, `goredis.Nil`, or any other error.
pub data Reply (P : Type 0) : Type 0 where
  missing failed : Reply P
  found : P → Reply P

-- The client, over the state `C` of the server; `P` is what is stored under a key. `exec` sets each
-- key of a transaction in turn.
pub record Client (C P : Type 0) : Type 0 where
  pub get : String → C → Reply P
  pub set : String → P → C → Result (Unit {0}) × C
  pub exec : List (String × P) → C → Result (Unit {0}) × C
  pub del : String → C → Result (Unit {0}) × C
  pub publish : String → P → C → Result (Unit {0}) × C

-- `json.Marshal` and `json.Unmarshal`, and a text as it is stored.
pub record Codec (P F : Type 0) : Type 0 where
  pub write_room : Room → Result P
  pub read_room : P → Result Room
  pub write_session : GameSession → Result P
  pub read_session : P → Result GameSession
  pub write_decisions : WeeklyDecisions → Result P
  pub read_decisions : P → Result WeeklyDecisions
  pub write_event : RoomEvent F → Result P
  pub read_event : P → Option (RoomEvent F)
  pub of_text : String → P
  pub text_of : P → String

-- `payload, err := json.Marshal(v); if err != nil { return err }`
abbrev pub marshalled :
    {C P : Type 0} → Result P → (P → C → Result (Unit {0}) × C) → C → Result (Unit {0}) × C
marshalled (ok payload) send c = send payload c
marshalled (err e) send c = (err e, c)
marshalled panic send c = (panic, c)

-- What is read from the answer to GET; `e` if there is nothing.
abbrev pub fetched : {P A : Type 0} → Reply P → Error → (P → Result A) → Result A
fetched (found payload) e read = read payload
fetched missing e read = err e
fetched failed e read = err store_failed

module _ {C P F : Type 0} (client : Client C P) (codec : Codec P F) where
  unfoldable pub save_room : Room → C → Result (Unit {0}) × C
  save_room room = marshalled (codec.write_room room) (client.set (room_key room.id))

  unfoldable pub room_by_id : String → C → Result Room
  room_by_id room_id c = fetched (client.get (room_key room_id) c) room_not_found codec.read_room

  -- A room that is read shares nothing with the server.
  abbrev pub room_store : RoomStore C
  room_store = record {
    save = save_room;
    get_by_id = room_by_id;
    write_players = λ room_id players c. c;
  }

  unfoldable pub save_session : GameSession → C → Result (Unit {0}) × C
  save_session session = marshalled (codec.write_session session) (λ payload. client.exec (
      (session_key session.id, payload)
      ∷ (room_session_key session.room_id, codec.of_text session.id)
      ∷ []))

  unfoldable pub session_by_id : String → C → Result GameSession
  session_by_id session_id c =
      fetched (client.get (session_key session_id) c) session_not_found codec.read_session

  unfoldable pub session_by_room_id : String → C → Result GameSession
  unfolding session_by_id
  session_by_room_id room_id c =
      fetched (client.get (room_session_key room_id) c) session_not_found
        (λ payload. session_by_id (codec.text_of payload) c)

  abbrev pub session_store : SessionStore C
  session_store = record {
    save = save_session;
    get_by_id = session_by_id;
    get_by_room_id = session_by_room_id;
  }

  unfoldable pub save_decisions : WeeklyDecisions → C → Result (Unit {0}) × C
  save_decisions d =
      marshalled (codec.write_decisions d) (client.set (decisions_key d.room_id d.week))

  unfoldable pub decisions_by_room_and_week : String → GoInt → C → Result WeeklyDecisions
  decisions_by_room_and_week room_id week c =
      fetched (client.get (decisions_key room_id week) c) week_decisions_not_found
        codec.read_decisions

  unfoldable pub delete_decisions : String → GoInt → C → Result (Unit {0}) × C
  delete_decisions room_id week = client.del (decisions_key room_id week)

  abbrev pub decision_store : DecisionStore C
  decision_store = record {
    save = save_decisions;
    get_by_room_and_week = decisions_by_room_and_week;
    delete_by_room_and_week = delete_decisions;
  }

  unfoldable pub publish_room_event : RoomEvent F → C → Result (Unit {0}) × C
  publish_room_event event =
      marshalled (codec.write_event event) (client.publish (room_events_channel event.room_id))
