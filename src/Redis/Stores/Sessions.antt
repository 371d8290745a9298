-- ===== src/Redis/Stores/Sessions.antt =====
-- internal/infrastructure/redis/session_store.go: two keys for each session, in one transaction.
use text.Mathlib.Text.{◌==◌ as str_eq}
use text.Mathlib.TextLemmas.{append_cancel_left}
use supply_chain_game.Prelude.{◌≡◌, ◌≢◌, refl, sym, ap, ◌∙◌, [], String, false}
use supply_chain_game.Prelude.Texts.{different_of}
use supply_chain_game.Result.{Result, ok, Error, ◌>>=◌, session_not_found}
use supply_chain_game.Domain.Session.{GameSession}
use supply_chain_game.Redis.Keys.{session_key, room_session_key}
use supply_chain_game.Redis.Keys.Apart.{differ-append}
use supply_chain_game.Redis.Stores.{
  Client, Codec, Reply, fetched, failed, missing, found, session_store, save_session, session_by_id,
  session_by_room_id,
}
use supply_chain_game.Redis.Stores.Server.{ClientLaws, CodecLaws}
use supply_chain_game.Usecase.Contracts.{SessionLaws}

session_keys_apart : (room_id id : String) → room_session_key room_id ≢ session_key id
unfolding room_session_key session_key
session_keys_apart room_id id = differ-append "room_session:" "session:" _ _ refl

room_session_keys_apart :
    (room_id other : String)
    → str_eq room_id other ≡ false
    → room_session_key room_id ≢ room_session_key other
unfolding room_session_key
room_session_keys_apart room_id other different =
    λ e. different_of different (append_cancel_left "room_session:" _ _ e)

own_keys_apart : (id other : String) → str_eq id other ≡ false → session_key id ≢ session_key other
unfolding session_key
own_keys_apart id other different =
    λ e. different_of different (append_cancel_left "session:" _ _ e)

-- A lookup through the identifier, whatever the server answers.
fetched-through :
    {P A : Type 0} (reply : Reply P) (e : Error) (text : P → String) (read : String → Result A)
    → fetched reply e (λ payload. read (text payload))
      ≡ (fetched reply e (λ payload. ok (text payload)) >>= read)
fetched-through missing e text read = refl
fetched-through failed e text read = refl
fetched-through (found payload) e text read = refl

module _ {C P F : Type 0} (client : Client C P) (codec : Codec P F) (laws : ClientLaws client)
    (written : CodecLaws codec) where
  -- A session is saved under its own key, and then its identifier under the room's.
  session_kept :
      (session : GameSession) (c : C)
      → (p : P) × (save_session client codec session c ≡ (
        ok tt,
        (client.set
            (room_session_key session.room_id)
            (codec.of_text session.id)
            (client.set (session_key session.id) p c).1).1,
      ))
        × (codec.read_session p ≡ ok session)
  unfolding save_session
  session_kept session c =
      let (p, w, r) = written.session session in
      (
        p,
        rw (save_session, w)
            (laws.exec_more _ p _ c
              ∙ laws.exec_more _ (codec.of_text session.id) [] _
              ∙ laws.exec_none _),
        r,
      )

  session_saves : (session : GameSession) (c : C) → (save_session client codec session c).0 ≡ ok tt
  session_saves session c = let (p, kept, r) = session_kept session c in ap (λ done. done.0) kept

  session_saved :
      (session : GameSession) (c : C)
      → session_by_id client codec session.id (save_session client codec session c).1 ≡ ok session
  unfolding session_by_id room_session_key session_key
  session_saved session c =
      let (p, kept, r) = session_kept session c in
      let apart : room_session_key session.room_id ≢ session_key session.id =
        differ-append "room_session:" "session:" _ _ refl in
      rw kept (
        rw
          (
            laws.get_set_other (room_session_key session.room_id) (session_key session.id)
                (codec.of_text session.id) _ apart,
            laws.get_set (session_key session.id) p c,
          )
          r)

  session_saved_for_room :
      (session : GameSession) (c : C)
      → session_by_room_id client codec session.room_id (save_session client codec session c).1
        ≡ ok session
  unfolding session_by_room_id
  session_saved_for_room session c =
      let (p, kept, r) = session_kept session c in
      let indexed : client.get (room_session_key session.room_id)
            (save_session client codec session c).1
          ≡ found (codec.of_text session.id) =
        rw kept (laws.get_set (room_session_key session.room_id) (codec.of_text session.id) _) in
      rw (session_by_room_id, indexed, written.text session.id) (session_saved session c)

  session_others :
      (session : GameSession) (c : C) (id : String)
      → str_eq session.id id ≡ false
      → session_by_id client codec id (save_session client codec session c).1
        ≡ session_by_id client codec id c
  unfolding session_by_id
  session_others session c id different =
      let (p, kept, r) = session_kept session c in
      rw kept (
        rw
          (
            laws.get_set_other (room_session_key session.room_id) (session_key id)
                (codec.of_text session.id) _ (session_keys_apart session.room_id id),
            laws.get_set_other (session_key session.id) (session_key id) p c
                (own_keys_apart session.id id different),
          )
          refl)

  abbrev id_of_room : String → C → Result String
  id_of_room room_id c =
      fetched (client.get (room_session_key room_id) c) session_not_found
        (λ payload. ok (codec.text_of payload))

  session_indexed :
      (session : GameSession) (c : C)
      → id_of_room session.room_id (save_session client codec session c).1 ≡ ok session.id
  session_indexed session c =
      let (p, kept, r) = session_kept session c in
      rw kept (
        rw (laws.get_set (room_session_key session.room_id) (codec.of_text session.id) _)
          (ap ok (written.text session.id)))

  session_indexed_others :
      (session : GameSession) (c : C) (room_id : String)
      → str_eq session.room_id room_id ≡ false
      → id_of_room room_id (save_session client codec session c).1 ≡ id_of_room room_id c
  session_indexed_others session c room_id different =
      let (p, kept, r) = session_kept session c in
      rw kept (
        rw
          (
            laws.get_set_other (room_session_key session.room_id) (room_session_key room_id)
                (codec.of_text session.id) _
                (room_session_keys_apart session.room_id room_id different),
            laws.get_set_other (session_key session.id) (room_session_key room_id) p c
                (λ e. session_keys_apart room_id session.id (sym e)),
          )
          refl)

  pub session_store_lem : SessionLaws (session_store client codec)
  unfolding session_by_room_id
  session_store_lem = record {
    saves = session_saves;
    saved = session_saved;
    saved_for_room = session_saved_for_room;
    others = session_others;
    id_of_room = id_of_room;
    through = λ room_id c.
        fetched-through (client.get (room_session_key room_id) c) session_not_found codec.text_of
          (λ id. session_by_id client codec id c);
    indexed = session_indexed;
    indexed_others = session_indexed_others;
  }
