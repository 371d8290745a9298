-- ===== src/Usecase/Worlds/Roles.antt =====
-- `AssignRole` of internal/usecase/room_service.go on a sound world.
use supply_chain_game.Prelude.{ℕ, ◌≡◌, refl, inl, inr, sym, ◌∙◌, subst, All, String, arith}
use supply_chain_game.Word.{Time}
use supply_chain_game.Result.{ok, Result-cases}
use supply_chain_game.Domain.Role.{Role}
use supply_chain_game.Domain.Room.{Room, assign_role}
use supply_chain_game.Domain.Room.Invariant.{ids}
use supply_chain_game.Domain.Room.Invariant as RoomInvariant
use supply_chain_game.Domain.Room.Life.{assign_role-IsValid}
use supply_chain_game.Domain.Room.Stays.{Stays, assign_role-Stays, with_players-IsValid}
use supply_chain_game.Usecase.Ports.{Ports, World}
use supply_chain_game.Usecase.Contracts.{AreReliable}
use supply_chain_game.Usecase.Rooms.{assign_player_role}
use supply_chain_game.Usecase.Worlds.{IsIssued, RoomHolds, Sound, IsSound}
use supply_chain_game.Usecase.Worlds.Saves.{
  waiting-no_session, Sound-save_room, Sound-write_players, in_world,
}

-- What a call on the players of a stored room that waits leads to: the same players by key.
pub kept-RoomHolds :
    {R S D F : Type 0} (ports : Ports R S D F) (n : ℕ) (room_id : String) (room after : Room)
    → RoomHolds ports n room_id room
    → RoomInvariant.IsValid after
    → after.id ≡ room.id
    → after.max_weeks ≡ room.max_weeks
    → ids after.players ≡ ids room.players
    → RoomHolds ports n room_id after
kept-RoomHolds ports n room_id room after h valid id weeks members = record {
  valid = valid;
  key = id ∙ h.key;
  weeks = omega (arith, weeks, h.weeks);
  issued = h.issued;
  players = subst (All (IsIssued ports.surroundings n)) (sym members) h.players;
}

module _ {R S D F : Type 0} (ports : Ports R S D F) (reliable : AreReliable ports)
    (w : World R S D F) (sound : IsSound ports reliable w) where
  -- The players of a waiting room are replaced in place by those of the same keys.
  pub rewritten-Sound :
      (room_id : String) (room after : Room)
      → ports.room_store.get_by_id room_id w.rooms ≡ ok room
      → RoomInvariant.IsValid after
      → Stays room after
      → ids after.players ≡ ids room.players
      → Sound ports reliable
          (ports.room_store.write_players room_id after.players w.rooms)
          w.sessions
          w.ids_read
  rewritten-Sound room_id room after stored valid stays members =
      let h = sound.stores.each_room room_id room stored in
      Sound-write_players ports reliable w.rooms w.sessions w.ids_read room_id room after.players
        sound.stores stored
        (kept-RoomHolds ports w.ids_read room_id room (record room { players = after.players }) h
          (with_players-IsValid room after h.valid stays.waits valid) refl refl members)

  assigned-Sound :
      (room_id player_id : String) (role : Role) (now : Time) (room after : Room)
      → ports.room_store.get_by_id room_id w.rooms ≡ ok room
      → assign_role room player_id role now ≡ ok after
      → Sound ports reliable
          (ports.room_store.save after
            (ports.room_store.write_players room_id after.players w.rooms)).1
          w.sessions
          w.ids_read
  assigned-Sound room_id player_id role now room after stored assigned =
      let h = sound.stores.each_room room_id room stored in
      let (stays, members) = assign_role-Stays room after player_id role now h.valid assigned in
      let valid = assign_role-IsValid room after player_id role now h.valid assigned in
      let key : after.id ≡ room_id = stays.id ∙ h.key in
      Sound-save_room ports reliable _ w.sessions w.ids_read after
        (rewritten-Sound room_id room after stored valid stays members)
        (subst (λ x. RoomHolds ports w.ids_read x after) (sym key)
          (kept-RoomHolds ports w.ids_read room_id room after h valid stays.id stays.max_weeks
            members))
        (λ session_id. rw key (
          waiting-no_session ports reliable w.rooms w.sessions w.ids_read room_id session_id room
            sound.stores stored stays.waits))

  pub assign_player_role-IsSound :
      (room_id player_id : String) (role : Role)
      → IsSound ports reliable (assign_player_role ports room_id player_id role w).1
  unfolding assign_player_role
  assign_player_role-IsSound room_id player_id role =
      let time = ports.surroundings.time_at w.times_read in
      elim (Result-cases (ports.room_store.get_by_id room_id w.rooms)) [
        | inl (inl stops) ↦ rw stops sound
        | inl (inr (e, stops)) ↦ rw stops sound
        | inr (room, stored) ↦
            rw stored (elim (Result-cases (assign_role room player_id role time)) [
              | inl (inl stops) ↦ rw stops (in_world ports reliable sound.stores)
              | inl (inr (e, stops)) ↦ rw stops (in_world ports reliable sound.stores)
              | inr (after, assigned) ↦
                  rw (assigned, reliable.rooms.saves after _)
                    (in_world ports reliable
                      (assigned-Sound room_id player_id role time room after stored assigned))
            ])
      ]
