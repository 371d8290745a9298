-- ===== src/Redis/Stores/Server.antt =====
-- What the stores of internal/infrastructure/redis rely on: the server and the JSON.
use supply_chain_game.Prelude.{◌≡◌, ◌≢◌, List, [], ◌∷◌, String}
use supply_chain_game.Result.{ok}
use supply_chain_game.Domain.Room.{Room}
use supply_chain_game.Domain.Session.{GameSession}
use supply_chain_game.Usecase.Decisions.{WeeklyDecisions}
use supply_chain_game.Redis.Stores.{Client, Codec, missing, found}

-- A server that answers, on which no key expires: what SET, DEL, GET and a transaction of SETs do.
pub record ClientLaws {C P : Type 0} (client : Client C P) : Type 0 where
  pub sets : (key : String) (p : P) (c : C) → (client.set key p c).0 ≡ ok tt
  pub get_set : (key : String) (p : P) (c : C) → client.get key (client.set key p c).1 ≡ found p
  pub get_set_other :
      (key other : String) (p : P) (c : C)
      → key ≢ other
      → client.get other (client.set key p c).1 ≡ client.get other c
  pub exec_none : (c : C) → client.exec [] c ≡ (ok tt, c)
  pub exec_more :
      (key : String) (p : P) (rest : List (String × P)) (c : C)
      → client.exec ((key, p) ∷ rest) c ≡ client.exec rest (client.set key p c).1
  pub dels : (key : String) (c : C) → (client.del key c).0 ≡ ok tt
  pub get_del : (key : String) (c : C) → client.get key (client.del key c).1 ≡ missing
  pub get_del_other :
      (key other : String) (c : C)
      → key ≢ other
      → client.get other (client.del key c).1 ≡ client.get other c

-- What is written as JSON is read back. A room, a session and the decisions of a week are finite
-- data; a map is read with its entries in the order in which the model has them.
pub record CodecLaws {P F : Type 0} (codec : Codec P F) : Type 0 where
  pub room : (r : Room) → (p : P) × (codec.write_room r ≡ ok p) × (codec.read_room p ≡ ok r)
  pub session :
      (s : GameSession) → (p : P) × (codec.write_session s ≡ ok p) × (codec.read_session p ≡ ok s)
  pub decisions :
      (d : WeeklyDecisions)
      → (p : P) × (codec.write_decisions d ≡ ok p) × (codec.read_decisions p ≡ ok d)
  pub text : (s : String) → codec.text_of (codec.of_text s) ≡ s
