-- ===== src/Memory/Stores/Laws.antt =====
-- The stores in memory are stores that answer and give back what was saved last.
use text.Mathlib.Text.{◌==◌ as str_eq}
use text.Mathlib.TextEquality.{eq_iff}
use supply_chain_game.Prelude.{
  ◌≡◌, ◌≢◌, ◌⊎◌, inl, inr, refl, true, false, String, ◌==◌, arith, Bool-cases, Option-cases, some,
  none, List,
}
use supply_chain_game.Prelude.Texts.{equal_of}
use supply_chain_game.Word.{GoInt}
use supply_chain_game.Result.{Result, ok, err, ◌>>=◌, session_not_found}
use supply_chain_game.Domain.Room.{Room, Player}
use supply_chain_game.Domain.Session.{GameSession}
use supply_chain_game.Domain.Analytics.{Floats, SessionAnalytics}
use supply_chain_game.Usecase.Ports.{Ports, Surroundings, ExportedFile}
use supply_chain_game.Usecase.Contracts.{RoomLaws, SessionLaws, DecisionLaws, AreReliable}
use supply_chain_game.Memory.Stores.{
  Rooms, Sessions, Decisions, room_store, session_store, decision_store, scenario_repository,
  save_room, room_by_id, save_session, session_by_id, session_by_room_id, save_decisions,
  decisions_by_room_and_week, delete_decisions, at_key, share_players, found_or,
}

pub same : (id : String) → str_eq id id ≡ true
same id = (eq_iff id id).1 refl

same_number : (n : GoInt) → (n == n) ≡ true
same_number n = ground arith

share_players-others :
    (room_id : String) (players : List Player) (rooms : Rooms) (id : String)
    → str_eq room_id id ≡ false
    → share_players room_id players rooms id ≡ rooms id
unfolding share_players
share_players-others room_id players rooms id different = rw different refl

share_players-none :
    (room_id : String) (players : List Player) (rooms : Rooms) (id : String)
    → rooms id ≡ none
    → share_players room_id players rooms id ≡ none
unfolding share_players
share_players-none room_id players rooms id missing = rw missing (ground arith)

share_players-some :
    (room_id : String) (players : List Player) (rooms : Rooms) (id : String) (room : Room)
    → str_eq room_id id ≡ true
    → rooms id ≡ some room
    → share_players room_id players rooms id ≡ some (record room { players = players })
unfolding share_players
share_players-some room_id players rooms id room same there = rw (same, there) refl

room-shared :
    (room_id : String) (players : List Player) (rooms : Rooms) (id : String)
    → (room_by_id id (share_players room_id players rooms) ≡ room_by_id id rooms)
      ⊎ ((room : Room) × (room_by_id id rooms ≡ ok room)
          × (room_by_id id (share_players room_id players rooms)
              ≡ ok (record room { players = players }))
          × (room_id ≡ id))
unfolding room_by_id
room-shared room_id players rooms id = elim (Bool-cases (str_eq room_id id)) [
  | inr different ↦ inl (rw (share_players-others room_id players rooms id different) refl)
  | inl here ↦ elim (Option-cases (rooms id)) [
    | inl missing ↦ inl (rw (share_players-none room_id players rooms id missing, missing) refl)
    | inr (room, there) ↦ inr (
      room,
      rw there refl,
      rw (share_players-some room_id players rooms id room here there) refl,
      equal_of here,
    )
  ]
]

pub room_store_lem : RoomLaws room_store
unfolding save_room room_by_id
room_store_lem = record {
  saves = λ room r. refl;
  saved = λ room r. rw (same room.id) refl;
  others = λ room r id different. rw different refl;
  shared = room-shared;
}

abbrev pub id_of_room : String → Sessions → Result String
id_of_room room_id s = found_or (s.by_room_id room_id) (err session_not_found)

pub session-through :
    (room_id : String) (s : Sessions)
    → session_by_room_id room_id s ≡ (id_of_room room_id s >>= λ id. session_by_id id s)
unfolding session_by_room_id
session-through room_id s = elim (Option-cases (s.by_room_id room_id)) [
  | inl missing ↦ rw missing refl
  | inr (id, there) ↦ rw there refl
]

unfoldable pub session_store_lem : SessionLaws session_store
unfolding save_session session_by_id session_by_room_id
session_store_lem = record {
  saves = λ session s. refl;
  saved = λ session s. rw (same session.id) refl;
  saved_for_room = λ session s. rw (same session.room_id, same session.id) refl;
  others = λ session s id different. rw different refl;
  id_of_room = id_of_room;
  through = session-through;
  indexed = λ session s. rw (same session.room_id) refl;
  indexed_others = λ session s room_id different. rw different refl;
}

at_key-other :
    (room_id other : String) (week other_week : GoInt)
    → (str_eq room_id other ≡ false) ⊎ (week ≢ other_week)
    → at_key room_id week other other_week ≡ false
unfolding at_key
at_key-other room_id other week other_week (inl different) = rw different refl
at_key-other room_id other week other_week (inr different) =
    let miss : (week == other_week) ≡ false = ground (arith, different) in
    elim (Bool-cases (str_eq room_id other)) [ inl e ↦ rw (e, miss) refl | inr e ↦ rw e refl ]

at_key_refl : (room_id : String) (week : GoInt) → at_key room_id week room_id week ≡ true
unfolding at_key
at_key_refl room_id week = rw (same room_id, same_number week) refl

pub decision_store_lem : DecisionLaws decision_store
unfolding save_decisions decisions_by_room_and_week delete_decisions
decision_store_lem = record {
  saves = λ d stored. refl;
  saved = λ d stored. rw (at_key_refl d.room_id d.week) refl;
  others = λ d stored room_id week word other_word different.
      rw (at_key-other d.room_id room_id d.week week different) refl;
  deletes = λ room_id week stored. refl;
  deleted = λ room_id week stored. rw (at_key_refl room_id week) refl;
  others_left = λ room_id week stored other_room other_week word other_word different.
      rw (at_key-other room_id other_room week other_week different) refl;
}

-- The services over the stores in memory.
abbrev pub in_memory :
    {F : Type 0}
    → Surroundings
    → (GameSession → SessionAnalytics F → Result ExportedFile)
    → Floats F
    → Ports Rooms Sessions Decisions F
in_memory surroundings export_session floats = record {
  room_store = room_store;
  session_store = session_store;
  decision_store = decision_store;
  scenarios = scenario_repository;
  surroundings = surroundings;
  export_session = export_session;
  floats = floats;
}

-- The stores in memory answer every call, give back what was saved last under a key, keep other
-- rooms and other weeks as they were, and have nothing for a week that was deleted.
pub in_memory-AreReliable :
    {F : Type 0} (surroundings : Surroundings)
    (export_session : GameSession → SessionAnalytics F → Result ExportedFile) (floats : Floats F)
    → AreReliable (in_memory surroundings export_session floats)
in_memory-AreReliable surroundings export_session floats = record {
  rooms = room_store_lem;
  sessions = session_store_lem;
  decisions = decision_store_lem;
}
