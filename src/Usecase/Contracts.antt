-- ===== src/Usecase/Contracts.antt =====
-- What the services rely on: a store that answers, and gives back what was saved last.
use text.Mathlib.Text.{◌==◌ as str_eq}
use supply_chain_game.Prelude.{◌≡◌, ◌≢◌, ◌⊎◌, false, String, List}
use supply_chain_game.Word.{GoInt, IsWord}
use supply_chain_game.Result.{Result, ok, err, ◌>>=◌, week_decisions_not_found}
use supply_chain_game.Domain.Room.{Room, Player}
use supply_chain_game.Domain.Session.{GameSession}
use supply_chain_game.Usecase.Decisions.{WeeklyDecisions}
use supply_chain_game.Usecase.Ports.{RoomStore, SessionStore, DecisionStore, Ports}

pub record RoomLaws {R : Type 0} (store : RoomStore R) : Type 0 where
  pub saves : (room : Room) (r : R) → (store.save room r).0 ≡ ok tt
  pub saved : (room : Room) (r : R) → store.get_by_id room.id (store.save room r).1 ≡ ok room
  pub others :
      (room : Room) (r : R) (id : String)
      → str_eq room.id id ≡ false
      → store.get_by_id id (store.save room r).1 ≡ store.get_by_id id r
  -- A write through the slice of players of a room reaches that room at most.
  pub shared :
      (room_id : String) (players : List Player) (r : R) (id : String)
      → (store.get_by_id id (store.write_players room_id players r) ≡ store.get_by_id id r)
        ⊎ ((room : Room) × (store.get_by_id id r ≡ ok room)
            × (store.get_by_id id (store.write_players room_id players r)
                ≡ ok (record room { players = players }))
            × (room_id ≡ id))

pub record SessionLaws {S : Type 0} (store : SessionStore S) : Type 0 where
  pub saves : (session : GameSession) (s : S) → (store.save session s).0 ≡ ok tt
  pub saved :
      (session : GameSession) (s : S)
      → store.get_by_id session.id (store.save session s).1 ≡ ok session
  pub saved_for_room :
      (session : GameSession) (s : S)
      → store.get_by_room_id session.room_id (store.save session s).1 ≡ ok session
  pub others :
      (session : GameSession) (s : S) (id : String)
      → str_eq session.id id ≡ false
      → store.get_by_id id (store.save session s).1 ≡ store.get_by_id id s
  -- The session of a room is the one whose identifier is stored for the room.
  pub id_of_room : String → S → Result String
  pub through :
      (room_id : String) (s : S)
      → store.get_by_room_id room_id s ≡ (id_of_room room_id s >>= λ id. store.get_by_id id s)
  pub indexed :
      (session : GameSession) (s : S)
      → id_of_room session.room_id (store.save session s).1 ≡ ok session.id
  pub indexed_others :
      (session : GameSession) (s : S) (room_id : String)
      → str_eq session.room_id room_id ≡ false
      → id_of_room room_id (store.save session s).1 ≡ id_of_room room_id s

pub record DecisionLaws {D : Type 0} (store : DecisionStore D) : Type 0 where
  pub saves : (d : WeeklyDecisions) (stored : D) → (store.save d stored).0 ≡ ok tt
  pub saved :
      (d : WeeklyDecisions) (stored : D)
      → store.get_by_room_and_week d.room_id d.week (store.save d stored).1 ≡ ok d
  pub others :
      (d : WeeklyDecisions) (stored : D) (room_id : String) (week : GoInt)
      → IsWord d.week
      → IsWord week
      → (str_eq d.room_id room_id ≡ false) ⊎ (d.week ≢ week)
      → store.get_by_room_and_week room_id week (store.save d stored).1
        ≡ store.get_by_room_and_week room_id week stored
  pub deletes :
      (room_id : String) (week : GoInt) (stored : D)
      → (store.delete_by_room_and_week room_id week stored).0 ≡ ok tt
  pub deleted :
      (room_id : String) (week : GoInt) (stored : D)
      → store.get_by_room_and_week room_id week
          (store.delete_by_room_and_week room_id week stored).1
        ≡ err week_decisions_not_found
  pub others_left :
      (room_id : String) (week : GoInt) (stored : D) (other_room : String) (other_week : GoInt)
      → IsWord week
      → IsWord other_week
      → (str_eq room_id other_room ≡ false) ⊎ (week ≢ other_week)
      → store.get_by_room_and_week other_room other_week
          (store.delete_by_room_and_week room_id week stored).1
        ≡ store.get_by_room_and_week other_room other_week stored

pub record AreReliable {R S D F : Type 0} (ports : Ports R S D F) : Type 0 where
  pub rooms : RoomLaws ports.room_store
  pub sessions : SessionLaws ports.session_store
  pub decisions : DecisionLaws ports.decision_store
