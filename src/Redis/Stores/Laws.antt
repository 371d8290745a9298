-- ===== src/Redis/Stores/Laws.antt =====
-- The stores over a Redis server answer and give back what was saved last, as those in memory do.
use text.Mathlib.Text.{◌==◌ as str_eq}
use text.Mathlib.TextLemmas.{append_cancel_left}
use supply_chain_game.Prelude.{◌≡◌, ◌≢◌, ◌⊎◌, inl, inr, refl, String, false}
use supply_chain_game.Prelude.Texts.{different_of}
use supply_chain_game.Word.{GoInt, IsWord}
use supply_chain_game.Result.{Result, ok, err, week_decisions_not_found}
use supply_chain_game.Domain.Room.{Room}
use supply_chain_game.Domain.Session.{GameSession}
use supply_chain_game.Domain.Analytics.{Floats, SessionAnalytics}
use supply_chain_game.Usecase.Decisions.{WeeklyDecisions}
use supply_chain_game.Usecase.Ports.{Ports, Surroundings, ExportedFile}
use supply_chain_game.Usecase.Contracts.{AreReliable}
use supply_chain_game.Redis.Stores.Server.{ClientLaws, CodecLaws}
use supply_chain_game.Redis.Stores.Sessions.{session_store_lem}
use supply_chain_game.Memory.Stores.{scenario_repository}
use supply_chain_game.Redis.Keys.{room_key, decisions_key}
use supply_chain_game.Redis.Keys.Apart.{decisions_key_inj}
use supply_chain_game.Redis.Stores.{
  Client, Codec, room_store, session_store, decision_store, save_room, room_by_id, save_decisions,
  decisions_by_room_and_week, delete_decisions,
}

-- The services over the stores on one server.
abbrev pub in_redis :
    {C P F : Type 0}
    → Client C P
    → Codec P F
    → Surroundings
    → (GameSession → SessionAnalytics F → Result ExportedFile)
    → Floats F
    → Ports C C C F
in_redis client codec surroundings export_session floats = record {
  room_store = room_store client codec;
  session_store = session_store client codec;
  decision_store = decision_store client codec;
  scenarios = scenario_repository;
  surroundings = surroundings;
  export_session = export_session;
  floats = floats;
}

keys_apart :
    (room_id other : String) (week other_week : GoInt)
    → IsWord week
    → IsWord other_week
    → (str_eq room_id other ≡ false) ⊎ (week ≢ other_week)
    → decisions_key room_id week ≢ decisions_key other other_week
keys_apart room_id other week other_week h k different = λ e.
    let (rooms, weeks) = decisions_key_inj room_id other week other_week h k e in
    elim different [ inl apart ↦ different_of apart rooms | inr apart ↦ apart weeks ]

module _ {C P F : Type 0} (client : Client C P) (codec : Codec P F) (laws : ClientLaws client)
    (written : CodecLaws codec) where
  room_saves : (room : Room) (c : C) → (save_room client codec room c).0 ≡ ok tt
  unfolding save_room
  room_saves room c =
      let (p, w, r) = written.room room in rw (save_room, w) (laws.sets (room_key room.id) p c)

  room_saved :
      (room : Room) (c : C)
      → room_by_id client codec room.id (save_room client codec room c).1 ≡ ok room
  unfolding save_room room_by_id
  room_saved room c =
      let (p, w, r) = written.room room in
      rw (save_room, w) (rw (laws.get_set (room_key room.id) p c) r)

  room_others :
      (room : Room) (c : C) (id : String)
      → str_eq room.id id ≡ false
      → room_by_id client codec id (save_room client codec room c).1 ≡ room_by_id client codec id c
  unfolding save_room room_by_id room_key
  room_others room c id different =
      let (p, w, r) = written.room room in
      let apart : room_key room.id ≢ room_key id =
        λ e. different_of different (append_cancel_left "room:" _ _ e) in
      rw (save_room, w) (rw (laws.get_set_other (room_key room.id) (room_key id) p c apart) refl)

  decisions_saves : (d : WeeklyDecisions) (c : C) → (save_decisions client codec d c).0 ≡ ok tt
  unfolding save_decisions
  decisions_saves d c =
      let (p, w, r) = written.decisions d in
      rw (save_decisions, w) (laws.sets (decisions_key d.room_id d.week) p c)

  decisions_saved :
      (d : WeeklyDecisions) (c : C)
      → decisions_by_room_and_week client codec d.room_id d.week (save_decisions client codec d c).1
        ≡ ok d
  unfolding save_decisions decisions_by_room_and_week
  decisions_saved d c =
      let (p, w, r) = written.decisions d in
      rw (save_decisions, w) (rw (laws.get_set (decisions_key d.room_id d.week) p c) r)

  decisions_others :
      (d : WeeklyDecisions) (c : C) (room_id : String) (week : GoInt)
      → IsWord d.week
      → IsWord week
      → (str_eq d.room_id room_id ≡ false) ⊎ (d.week ≢ week)
      → decisions_by_room_and_week client codec room_id week (save_decisions client codec d c).1
        ≡ decisions_by_room_and_week client codec room_id week c
  unfolding save_decisions decisions_by_room_and_week
  decisions_others d c room_id week h k different =
      let (p, w, r) = written.decisions d in
      rw (save_decisions, w)
        (rw
          (laws.get_set_other (decisions_key d.room_id d.week) (decisions_key room_id week) p c
            (keys_apart d.room_id room_id d.week week h k different))
          refl)

  decisions_deleted :
      (room_id : String) (week : GoInt) (c : C)
      → decisions_by_room_and_week client codec room_id week
          (delete_decisions client codec room_id week c).1
        ≡ err week_decisions_not_found
  unfolding delete_decisions decisions_by_room_and_week
  decisions_deleted room_id week c = rw (laws.get_del (decisions_key room_id week) c) refl

  decisions_left :
      (room_id : String) (week : GoInt) (c : C) (other_room : String) (other_week : GoInt)
      → IsWord week
      → IsWord other_week
      → (str_eq room_id other_room ≡ false) ⊎ (week ≢ other_week)
      → decisions_by_room_and_week client codec other_room other_week
          (delete_decisions client codec room_id week c).1
        ≡ decisions_by_room_and_week client codec other_room other_week c
  unfolding delete_decisions decisions_by_room_and_week
  decisions_left room_id week c other_room other_week h k different =
      rw
        (laws.get_del_other (decisions_key room_id week) (decisions_key other_room other_week) c
          (keys_apart room_id other_room week other_week h k different))
        refl

-- Over a server that answers and on which no key expires, and JSON that is read back as written, the
-- stores keep the laws that the services rely on: every call answers, what was saved last under a
-- key is given back, other rooms and other weeks stay, and what was deleted is gone.
pub in_redis-AreReliable :
    {C P F : Type 0} (client : Client C P) (codec : Codec P F) (laws : ClientLaws client)
    (written : CodecLaws codec) (surroundings : Surroundings)
    (export_session : GameSession → SessionAnalytics F → Result ExportedFile) (floats : Floats F)
    → AreReliable (in_redis client codec surroundings export_session floats)
unfolding delete_decisions
in_redis-AreReliable client codec laws written surroundings export_session floats = record {
  rooms = record {
    saves = room_saves client codec laws written;
    saved = room_saved client codec laws written;
    others = room_others client codec laws written;
    shared = λ room_id players c id. inl refl;
  };
  sessions = session_store_lem client codec laws written;
  decisions = record {
    saves = decisions_saves client codec laws written;
    saved = decisions_saved client codec laws written;
    others = decisions_others client codec laws written;
    deletes = λ room_id week c. laws.dels (decisions_key room_id week) c;
    deleted = decisions_deleted client codec laws written;
    others_left = decisions_left client codec laws written;
  };
}
