-- ===== src/Redis/Stores/Shared.antt =====
-- The three stores keep their values on one server, and do not disturb each other.
use Prim.Native.String.{◌++◌ as ◌<>◌}
use supply_chain_game.Prelude.{◌≡◌, refl, ap, fun_ext, ◌∙◌, [], ◌∷◌, inl, inr, String, true}
use supply_chain_game.Word.{GoInt}
use supply_chain_game.Result.{Result, Result-cases, session_not_found}
use supply_chain_game.Domain.Room.{Room}
use supply_chain_game.Domain.Session.{GameSession}
use supply_chain_game.Usecase.Decisions.{WeeklyDecisions}
use supply_chain_game.Redis.Keys.{room_key, session_key, room_session_key, decisions_key}
use supply_chain_game.Redis.Keys.Apart.{differ, differ-append}
use supply_chain_game.Redis.Stores.{
  Client, Codec, save_room, room_by_id, save_session, session_by_id, session_by_room_id,
  save_decisions, decisions_by_room_and_week, delete_decisions, fetched,
}
use supply_chain_game.Redis.Stores.Server.{ClientLaws}

module _ {C P F : Type 0} (client : Client C P) (codec : Codec P F) where
  -- The rooms, the sessions and the decisions of two states of the server.
  abbrev pub SameRooms : C → C → Type 0
  SameRooms c c' = (id : String) → room_by_id client codec id c' ≡ room_by_id client codec id c

  abbrev pub SameSessions : C → C → Type 0
  SameSessions c c' =
      ((id : String) → session_by_id client codec id c' ≡ session_by_id client codec id c)
      × ((room_id : String)
          → session_by_room_id client codec room_id c' ≡ session_by_room_id client codec room_id c)

  abbrev pub SameDecisions : C → C → Type 0
  SameDecisions c c' =
      (room_id : String) (week : GoInt)
      → decisions_by_room_and_week client codec room_id week c'
        ≡ decisions_by_room_and_week client codec room_id week c

  -- The keys with a prefix have the same values.
  abbrev Agree : String → C → C → Type 0
  Agree prefix c c' = (s : String) → client.get (prefix <> s) c' ≡ client.get (prefix <> s) c

  Agree-SameRooms : (c c' : C) → Agree "room:" c c' → SameRooms c c'
  unfolding room_by_id room_key
  Agree-SameRooms c c' agree id = rw (agree id) refl

  Agree-SameSessions :
      (c c' : C) → Agree "session:" c c' → Agree "room_session:" c c' → SameSessions c c'
  unfolding session_by_id session_by_room_id session_key room_session_key
  Agree-SameSessions c c' agree agree_room = (by_id, by_room)
    where
      by_id : (id : String) → session_by_id client codec id c' ≡ session_by_id client codec id c
      by_id id = rw (agree id) refl

      by_room :
          (room_id : String)
          → session_by_room_id client codec room_id c' ≡ session_by_room_id client codec room_id c
      by_room room_id = rw (agree_room room_id) (
          ap
            (λ (read : String → Result GameSession).
              fetched (client.get (room_session_key room_id) c) session_not_found
                (λ payload. read (codec.text_of payload)))
            (fun_ext by_id))

  Agree-SameDecisions : (c c' : C) → Agree "decisions:" c c' → SameDecisions c c'
  unfolding decisions_by_room_and_week decisions_key
  Agree-SameDecisions c c' agree room_id week = rw (agree _) refl

  same_sessions : (c : C) → SameSessions c c
  same_sessions c = (λ id. refl, λ room_id. refl)

  module _ (laws : ClientLaws client) where
    set-Agree :
        (q prefix t : String) (p : P) (c : C)
        → differ q prefix ≡ true
        → Agree prefix c (client.set (q <> t) p c).1
    set-Agree q prefix t p c h s =
        laws.get_set_other (q <> t) (prefix <> s) p c (differ-append q prefix t s h)

    del-Agree :
        (q prefix t : String) (c : C)
        → differ q prefix ≡ true
        → Agree prefix c (client.del (q <> t) c).1
    del-Agree q prefix t c h s =
        laws.get_del_other (q <> t) (prefix <> s) c (differ-append q prefix t s h)

    save_room_apart :
        (room : Room) (c : C)
        → SameSessions c (save_room client codec room c).1
          × SameDecisions c (save_room client codec room c).1
    unfolding save_room room_key
    save_room_apart room c = elim (Result-cases (codec.write_room room)) [
      | inl (inl stops) ↦ rw (save_room, stops) (same_sessions c, λ room_id week. refl)
      | inl (inr (e, stops)) ↦ rw (save_room, stops) (same_sessions c, λ room_id week. refl)
      | inr (p, w) ↦
          rw (save_room, w)
            (
              Agree-SameSessions c _ (set-Agree "room:" "session:" room.id p c refl)
                  (set-Agree "room:" "room_session:" room.id p c refl),
              Agree-SameDecisions c _ (set-Agree "room:" "decisions:" room.id p c refl),
            )
    ]

    exec-Agree :
        (prefix id room_id : String) (p text : P) (c : C)
        → differ "session:" prefix ≡ true
        → differ "room_session:" prefix ≡ true
        → Agree prefix c
            (client.exec ((session_key id, p) ∷ (room_session_key room_id, text) ∷ []) c).1
    unfolding session_key room_session_key
    exec-Agree prefix id room_id p text c h k s =
        let first = (client.set (session_key id) p c).1 in
        rw (laws.exec_more, laws.exec_more, laws.exec_none)
          (set-Agree "room_session:" prefix room_id text first k s
            ∙ set-Agree "session:" prefix id p c h s)

    save_session_apart :
        (session : GameSession) (c : C)
        → SameRooms c (save_session client codec session c).1
          × SameDecisions c (save_session client codec session c).1
    unfolding save_session
    save_session_apart session c = elim (Result-cases (codec.write_session session)) [
      | inl (inl stops) ↦ rw (save_session, stops) (λ id. refl, λ room_id week. refl)
      | inl (inr (e, stops)) ↦ rw (save_session, stops) (λ id. refl, λ room_id week. refl)
      | inr (p, w) ↦
          let text = codec.of_text session.id in
          rw (save_session, w)
            (
              Agree-SameRooms c _
                  (exec-Agree "room:" session.id session.room_id p text c refl refl),
              Agree-SameDecisions c _
                  (exec-Agree "decisions:" session.id session.room_id p text c refl refl),
            )
    ]

    save_decisions_apart :
        (d : WeeklyDecisions) (c : C)
        → SameRooms c (save_decisions client codec d c).1
          × SameSessions c (save_decisions client codec d c).1
    unfolding save_decisions decisions_key
    save_decisions_apart d c = elim (Result-cases (codec.write_decisions d)) [
      | inl (inl stops) ↦ rw (save_decisions, stops) (λ id. refl, same_sessions c)
      | inl (inr (e, stops)) ↦ rw (save_decisions, stops) (λ id. refl, same_sessions c)
      | inr (p, w) ↦
          rw (save_decisions, w)
            (
              Agree-SameRooms c _ (set-Agree "decisions:" "room:" _ p c refl),
              Agree-SameSessions c _ (set-Agree "decisions:" "session:" _ p c refl)
                  (set-Agree "decisions:" "room_session:" _ p c refl),
            )
    ]

    -- On a server that answers and on which no key expires, what one store writes or deletes leaves
    -- what the two others read as it was, for any identifiers, and also where no JSON can be written:
    -- no key of one store is a key of another.
    pub stores_apart :
        (c : C) (room : Room) (session : GameSession) (d : WeeklyDecisions) (room_id : String)
        (week : GoInt)
        → (SameSessions c (save_room client codec room c).1
            × SameDecisions c (save_room client codec room c).1)
          × (SameRooms c (save_session client codec session c).1
              × SameDecisions c (save_session client codec session c).1)
          × (SameRooms c (save_decisions client codec d c).1
              × SameSessions c (save_decisions client codec d c).1)
          × (SameRooms c (delete_decisions client codec room_id week c).1
              × SameSessions c (delete_decisions client codec room_id week c).1)
    unfolding delete_decisions decisions_key
    stores_apart c room session d room_id week = (
      save_room_apart room c,
      save_session_apart session c,
      save_decisions_apart d c,
      (
        Agree-SameRooms c _ (del-Agree "decisions:" "room:" _ c refl),
        Agree-SameSessions c _ (del-Agree "decisions:" "session:" _ c refl)
            (del-Agree "decisions:" "room_session:" _ c refl),
      ),
    )
