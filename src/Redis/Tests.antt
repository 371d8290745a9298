-- ===== src/Redis/Tests.antt =====
-- The stores over a server that keeps its values in a map.
use text.Mathlib.Text.{◌==◌ as str_eq}
use text.Mathlib.TextPositions.{eq_refl}
use supply_chain_game.Prelude.{
  ℕ, ◌≡◌, refl, List, [], ◌∷◌, Option, none, some, String, if◌then◌else◌, take, false,
}
use supply_chain_game.Prelude.Texts.{not_equal}
use supply_chain_game.Result.{Result, ok, err, store_failed}
use supply_chain_game.Domain.Room.{Room}
use supply_chain_game.Domain.Session.{GameSession}
use supply_chain_game.Domain.Session.Tests.{session}
use supply_chain_game.Usecase.Decisions.{WeeklyDecisions}
use supply_chain_game.Usecase.Ports.{RoomEvent}
use supply_chain_game.Memory.Bus.{new_channel}
use supply_chain_game.Memory.Tests.{room, decided}
use supply_chain_game.Redis.Stores.{
  Client, Codec, Reply, missing, found, save_room, save_session, save_decisions, delete_decisions,
}
use supply_chain_game.Redis.Stores.Server.{ClientLaws, CodecLaws}
use supply_chain_game.Redis.Stores.Shared.{SameRooms, SameSessions, SameDecisions, stores_apart}
use supply_chain_game.Redis.Events.{forward}
use supply_chain_game.Redis.Events.Forwarding.{decoded, forward_lem}

-- A payload that is the value itself.
pub data Stored : Type 0 where
  no_value : Stored
  room_value : Room → Stored
  session_value : GameSession → Stored
  decisions_value : WeeklyDecisions → Stored
  event_value : RoomEvent ℕ → Stored
  text_value : String → Stored

unfoldable pub room_in : Stored → Result Room
room_in (room_value r) = ok r
room_in _ = err store_failed

unfoldable pub session_in : Stored → Result GameSession
session_in (session_value s) = ok s
session_in _ = err store_failed

unfoldable pub decisions_in : Stored → Result WeeklyDecisions
decisions_in (decisions_value d) = ok d
decisions_in _ = err store_failed

unfoldable pub event_in : Stored → Option (RoomEvent ℕ)
event_in (event_value e) = some e
event_in _ = none

unfoldable pub text_in : Stored → String
text_in (text_value s) = s
text_in _ = ""

abbrev pub codec : Codec Stored ℕ
codec = record {
  write_room = λ r. ok (room_value r);
  read_room = room_in;
  write_session = λ s. ok (session_value s);
  read_session = session_in;
  write_decisions = λ d. ok (decisions_value d);
  read_decisions = decisions_in;
  write_event = λ e. ok (event_value e);
  read_event = event_in;
  of_text = text_value;
  text_of = text_in;
}

pub codec-laws : CodecLaws codec
unfolding room_in session_in decisions_in text_in
codec-laws = record {
  room = λ r. (room_value r, refl, refl);
  session = λ s. (session_value s, refl, refl);
  decisions = λ d. (decisions_value d, refl, refl);
  text = λ s. refl;
}

abbrev pub Server : Type 0
Server = String → Reply Stored

unfoldable pub put_key : String → Stored → Server → Server
put_key key p c other = if str_eq key other then found p else c other

unfoldable pub put_keys : List (String × Stored) → Server → Server
put_keys [] c = c
put_keys ((key, p) ∷ rest) c = put_keys rest (put_key key p c)

unfoldable pub remove_key : String → Server → Server
remove_key key c other = if str_eq key other then missing else c other

abbrev pub client : Client Server Stored
client = record {
  get = λ key c. c key;
  set = λ key p c. (ok tt, put_key key p c);
  exec = λ sets c. (ok tt, put_keys sets c);
  del = λ key c. (ok tt, remove_key key c);
  publish = λ channel p c. (ok tt, c);
}

pub client-laws : ClientLaws client
unfolding put_key put_keys remove_key
client-laws = record {
  sets = λ key p c. refl;
  get_set = λ key p c. rw (eq_refl key) refl;
  get_set_other = λ key other p c different. rw (not_equal different) refl;
  exec_none = λ c. refl;
  exec_more = λ key p rest c. refl;
  dels = λ key c. refl;
  get_del = λ key c. rw (eq_refl key) refl;
  get_del_other = λ key other c different. rw (not_equal different) refl;
}

abbrev pub empty : Server
empty key = missing

stores_apart_example :
    (SameSessions client codec empty (save_room client codec room empty).1
      × SameDecisions client codec empty (save_room client codec room empty).1)
    × (SameRooms client codec empty (save_session client codec session empty).1
        × SameDecisions client codec empty (save_session client codec session empty).1)
    × (SameRooms client codec empty (save_decisions client codec decided empty).1
        × SameSessions client codec empty (save_decisions client codec decided empty).1)
    × (SameRooms client codec empty (delete_decisions client codec "r1" 1 empty).1
        × SameSessions client codec empty (delete_decisions client codec "r1" 1 empty).1)
stores_apart_example = stores_apart client codec client-laws empty room session decided "r1" 1

abbrev messages : List Stored
messages =
    event_value (record {
      kind = "game.started";
      room_id = "r1";
      occurred_at = 1;
      room = some room;
      session = none;
      decisions = none;
      analytics = none;
    })
    ∷ no_value
    ∷ []

forward_lem_example :
    forward codec messages new_channel
    ≡ record { held = take 16 (decoded codec messages); closed = false }
forward_lem_example = forward_lem codec messages
