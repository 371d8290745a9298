-- ===== src/Usecase/Worlds/Rooms.antt =====
-- The calls of internal/usecase/room_service.go on a sound world.
use supply_chain_game.Prelude.{
  inl, inr, ℕ, suc, ◌<◌, ◌≡◌, ◌≢◌, refl, sym, ap, ◌∙◌, subst, List, [], ◌∷◌, All, All-append,
  String, arith, ◌^◌,
}
use supply_chain_game.Word.{GoInt, Time}
use supply_chain_game.Result.{ok, Result-cases}
use supply_chain_game.Domain.Room.{Room, new_room, add_player}
use supply_chain_game.Domain.Room.Invariant.{ids, new_room-IsValid, new_room-empty}
use supply_chain_game.Domain.Room.Life.{add_player-IsValid}
use supply_chain_game.Domain.Room.Stays.{add_player-Stays}
use supply_chain_game.Usecase.Ports.{Ports, Surroundings, World}
use supply_chain_game.Usecase.Contracts.{AreReliable}
use supply_chain_game.Usecase.Rooms.{create_room, join_room}
use supply_chain_game.Usecase.Rooms.Joining.{newcomer}
use supply_chain_game.Usecase.Worlds.{IsIssued, AreFresh, RoomHolds, Sound, IsSound}
use supply_chain_game.Usecase.Worlds.Saves.{
  IsIssued-fresh, RoomHolds-suc, Sound-suc, waiting-no_session, Sound-save_room, in_world,
}

AllIssued-fresh :
    (u : Surroundings) (n : ℕ) (id : String) (olds : List String)
    → AreFresh u
    → u.id_at n ≡ ok id
    → All (IsIssued u n) olds
    → All (λ old. old ≢ id) olds
AllIssued-fresh u n id [] fresh named h = tt
AllIssued-fresh u n id (old ∷ rest) fresh named h =
    (IsIssued-fresh u n id old fresh named h.0, AllIssued-fresh u n id rest fresh named h.1)

module _ {R S D F : Type 0} (ports : Ports R S D F) (reliable : AreReliable ports) where
  made-RoomHolds :
      (n : ℕ) (id : String) (max_weeks : GoInt) (now : Time) (room : Room)
      → max_weeks < 2 ^ 62
      → ports.surroundings.id_at n ≡ ok id
      → new_room id max_weeks now ≡ ok room
      → RoomHolds ports (suc n) room.id room
  made-RoomHolds n id max_weeks now room small named made =
      let same = new_room-empty id max_weeks now room made in
      let key : room.id ≡ id = ap (λ x. x.id) same in
      let weeks : room.max_weeks ≡ max_weeks = ap (λ x. x.max_weeks) same in
      record {
        valid = new_room-IsValid id max_weeks now room (omega arith) made;
        key = refl;
        weeks = omega arith;
        issued = (n, omega arith, named ∙ ap ok (sym key));
        players =
            subst (λ (x : Room). All (IsIssued ports.surroundings (suc n)) (ids x.players))
              (sym same) tt;
      }

  module _ (fresh : AreFresh ports.surroundings) (w : World R S D F)
      (sound : IsSound ports reliable w) where
    named_stores : Sound ports reliable w.rooms w.sessions (suc w.ids_read)
    named_stores = Sound-suc ports reliable w.rooms w.sessions w.ids_read sound.stores

    -- A key that has just been made is that of no session.
    no_session_yet :
        (id session_id : String)
        → ports.surroundings.id_at w.ids_read ≡ ok id
        → reliable.sessions.id_of_room id w.sessions ≢ ok session_id
    no_session_yet id session_id named e =
        let h = sound.stores.each_session id session_id e in
        IsIssued-fresh ports.surroundings w.ids_read id id fresh named
          (sound.stores.each_room id h.room h.room_stored).issued refl

    created-Sound :
        (max_weeks : GoInt) (id : String) (now : Time) (room : Room)
        → max_weeks < 2 ^ 62
        → ports.surroundings.id_at w.ids_read ≡ ok id
        → new_room id max_weeks now ≡ ok room
        → Sound ports reliable (ports.room_store.save room w.rooms).1 w.sessions (suc w.ids_read)
    created-Sound max_weeks id now room small named made =
        let key : room.id ≡ id = ap (λ x. x.id) (new_room-empty id max_weeks now room made) in
        Sound-save_room ports reliable w.rooms w.sessions (suc w.ids_read) room named_stores
          (made-RoomHolds w.ids_read id max_weeks now room small named made)
          (λ session_id. rw key (λ e. no_session_yet id session_id named e))

    pub create_room-IsSound :
        (max_weeks : GoInt)
        → max_weeks < 2 ^ 62
        → IsSound ports reliable (create_room ports max_weeks w).1
    unfolding create_room
    create_room-IsSound max_weeks small =
        let time = ports.surroundings.time_at w.times_read in
        elim (Result-cases (ports.surroundings.id_at w.ids_read)) [
          | inl (inl stops) ↦ rw stops (in_world ports reliable named_stores)
          | inl (inr (e, stops)) ↦ rw stops (in_world ports reliable named_stores)
          | inr (id, named) ↦ rw named (elim (Result-cases (new_room id max_weeks time)) [
            | inl (inl stops) ↦ rw stops (in_world ports reliable named_stores)
            | inl (inr (e, stops)) ↦ rw stops (in_world ports reliable named_stores)
            | inr (room, made) ↦
                rw (made, reliable.rooms.saves room w.rooms)
                  (in_world ports reliable (created-Sound max_weeks id time room small named made))
          ])
        ]

    joined-RoomHolds :
        (room_id id name : String) (now : Time) (room after : Room)
        → ports.room_store.get_by_id room_id w.rooms ≡ ok room
        → ports.surroundings.id_at w.ids_read ≡ ok id
        → add_player room (newcomer id name) now ≡ ok after
        → RoomHolds ports (suc w.ids_read) after.id after
    joined-RoomHolds room_id id name now room after stored named added =
        let h = sound.stores.each_room room_id room stored in
        let (stays, members) = add_player-Stays room after (newcomer id name) now h.valid added in
        let later = RoomHolds-suc ports reliable w.ids_read room_id room h in
        record {
          valid =
              add_player-IsValid room after (newcomer id name) now h.valid
                (AllIssued-fresh ports.surroundings w.ids_read id (ids room.players) fresh named
                  h.players)
                refl added;
          key = refl;
          weeks = omega (arith, stays.max_weeks, h.weeks);
          issued =
              subst (IsIssued ports.surroundings (suc w.ids_read)) (sym (stays.id ∙ h.key))
                later.issued;
          players = subst (All (IsIssued ports.surroundings (suc w.ids_read))) (sym members) (
              All-append _ (ids room.players) (id ∷ []) later.players
                ((w.ids_read, omega arith, named), tt));
        }

    joined-Sound :
        (room_id id name : String) (now : Time) (room after : Room)
        → ports.room_store.get_by_id room_id w.rooms ≡ ok room
        → ports.surroundings.id_at w.ids_read ≡ ok id
        → add_player room (newcomer id name) now ≡ ok after
        → Sound ports reliable (ports.room_store.save after w.rooms).1 w.sessions (suc w.ids_read)
    joined-Sound room_id id name now room after stored named added =
        let h = sound.stores.each_room room_id room stored in
        let (stays, members) = add_player-Stays room after (newcomer id name) now h.valid added in
        let key : after.id ≡ room_id = stays.id ∙ h.key in
        Sound-save_room ports reliable w.rooms w.sessions (suc w.ids_read) after named_stores
          (joined-RoomHolds room_id id name now room after stored named added)
          (λ session_id. rw key (
            waiting-no_session ports reliable w.rooms w.sessions w.ids_read room_id session_id room
              sound.stores stored stays.waits))

    pub join_room-IsSound :
        (room_id name : String) → IsSound ports reliable (join_room ports room_id name w).1
    unfolding join_room
    join_room-IsSound room_id name =
        let time = ports.surroundings.time_at w.times_read in
        elim (Result-cases (ports.room_store.get_by_id room_id w.rooms)) [
          | inl (inl stops) ↦ rw stops sound
          | inl (inr (e, stops)) ↦ rw stops sound
          | inr (room, stored) ↦
              rw stored (elim (Result-cases (ports.surroundings.id_at w.ids_read)) [
                | inl (inl stops) ↦ rw stops (in_world ports reliable named_stores)
                | inl (inr (e, stops)) ↦ rw stops (in_world ports reliable named_stores)
                | inr (id, named) ↦
                    rw named (elim (Result-cases (add_player room (newcomer id name) time)) [
                      | inl (inl stops) ↦ rw stops (in_world ports reliable named_stores)
                      | inl (inr (e, stops)) ↦ rw stops (in_world ports reliable named_stores)
                      | inr (after, added) ↦
                          rw (added, reliable.rooms.saves after w.rooms)
                            (in_world ports reliable
                              (joined-Sound room_id id name time room after stored named added))
                    ])
              ])
        ]
