-- ===== src/Usecase/Worlds/Weeks.antt =====
-- `SubmitOrder` and `AdvanceWeek` of internal/usecase/game_service.go on a sound world.
use supply_chain_game.Prelude.{
  ◌≡◌, ◌≢◌, refl, inl, inr, sym, ap, ◌∙◌, subst, String, length, ◌==◌, Bool-cases, false,
}
use supply_chain_game.Word.{GoInt, Time, lt_int}
use supply_chain_game.Result.{ok, Result-cases, >>=-eq-ok}
use supply_chain_game.Domain.Role.{Role}
use supply_chain_game.Domain.Room.{Room, waiting, role_of_player}
use supply_chain_game.Domain.Room.Stays.{later-IsValid}
use supply_chain_game.Domain.RoleMap.{RoleMap, insert}
use supply_chain_game.Domain.Session.{GameSession, WeekState, advance_week, is_active}
use supply_chain_game.Domain.Session.Invariant.{IsValid}
use supply_chain_game.Domain.Session.Kept.{advance_week-Continues}
use supply_chain_game.Usecase.Decisions.{WeeklyDecisions}
use supply_chain_game.Usecase.Ports.{Ports, World}
use supply_chain_game.Usecase.Contracts.{AreReliable}
use supply_chain_game.Usecase.Games.{
  submit_order, advance_game_week, finish_week, current_playable_week, or_no_decisions,
  or_not_ready, publish_room_event,
}
use supply_chain_game.Usecase.Worlds.{IsIssued, Agree, RoomHolds, Sound, IsSound}
use supply_chain_game.Usecase.Worlds.Saves.{
  same_answer, session-not_waiting, Sound-save_both, in_world,
}
use supply_chain_game.Usecase.Worlds.Roles.{kept-RoomHolds}

module _ {R S D F : Type 0} (ports : Ports R S D F) (reliable : AreReliable ports)
    (w : World R S D F) (sound : IsSound ports reliable w) where
  -- A session that is found by its room is one that the world holds.
  record Finds (room_id : String) (room : Room) (session : GameSession) : Type 0 where
    kept : ports.session_store.get_by_id session.id w.sessions ≡ ok session
    room_key : session.room_id ≡ room_id
    issued : IsIssued ports.surroundings w.ids_read session.id
    valid : IsValid session
    agrees : Agree room session

  found :
      (room_id : String) (room : Room) (session : GameSession)
      → ports.room_store.get_by_id room_id w.rooms ≡ ok room
      → ports.session_store.get_by_room_id room_id w.sessions ≡ ok session
      → Finds room_id room session
  found room_id room session stored read =
      let (id, indexed, kept) =
        >>=-eq-ok (reliable.sessions.id_of_room room_id w.sessions) _
          (sym (reliable.sessions.through room_id w.sessions) ∙ read) in
      let h = sound.stores.each_session room_id id indexed in
      let same : h.session ≡ session = same_answer _ h.stored kept in
      let key : id ≡ session.id = sym h.key ∙ ap (λ s. s.id) same in
      let same_room : h.room ≡ room = same_answer _ h.room_stored stored in
      record {
        kept = subst (λ x. ports.session_store.get_by_id x w.sessions ≡ ok session) key kept;
        room_key = ap (λ s. s.room_id) (sym same) ∙ h.room_key;
        issued = subst (IsIssued ports.surroundings w.ids_read) key h.issued;
        valid = subst IsValid same h.valid;
        agrees = subst (λ x. Agree x session) same_room (subst (λ x. Agree h.room x) same h.agrees);
      }

  -- The room that `AdvanceWeek` saves.
  abbrev moved_on : Room → GameSession → Time → Room
  moved_on room session' time = record room {
    current_week = current_playable_week session';
    status = session'.status;
    updated_at = time;
  }

  played-Sound :
      (room_id : String) (room : Room) (session session' : GameSession) (decisions : RoleMap)
      (now time : Time) (week : WeekState)
      → ports.room_store.get_by_id room_id w.rooms ≡ ok room
      → ports.session_store.get_by_room_id room_id w.sessions ≡ ok session
      → advance_week session decisions now ≡ ok (week, session')
      → Sound ports reliable
          (ports.room_store.save (moved_on room session' time) w.rooms).1
          (ports.session_store.save session' w.sessions).1
          w.ids_read
  played-Sound room_id room session session' decisions now time week stored read played =
      let h = sound.stores.each_room room_id room stored in
      let f = found room_id room session stored read in
      let c = advance_week-Continues session decisions now week session' f.valid played in
      let on : room.status ≢ waiting =
        λ waits. session-not_waiting session f.valid (sym f.agrees.status ∙ waits) in
      let holds : RoomHolds ports w.ids_read room_id (moved_on room session' time) =
        kept-RoomHolds ports w.ids_read room_id room (moved_on room session' time) h
          (later-IsValid room session'.status (current_playable_week session') room.scenario_id time
            h.valid on (session-not_waiting session' c.valid))
          refl refl refl in
      Sound-save_both ports reliable w.rooms w.sessions w.ids_read (moved_on room session' time)
        session' sound.stores
        (subst (λ x. RoomHolds ports w.ids_read x (moved_on room session' time)) (sym h.key) holds)
        (c.room_id ∙ f.room_key ∙ sym h.key) c.valid
        (subst (IsIssued ports.surroundings w.ids_read) (sym c.id) f.issued)
        (record { status = refl; week = refl; weeks = f.agrees.weeks ∙ sym c.max_weeks })
        λ other other_id elsewhere e same.
          let g = sound.stores.each_session other other_id e in
          let one : g.session ≡ session = same_answer _ (rw (← (same ∙ c.id)) g.stored) f.kept in
          elsewhere (sym g.room_key ∙ ap (λ s. s.room_id) one ∙ f.room_key ∙ sym h.key)

  accepted-IsSound :
      (room_id player_id : String) (order : GoInt) (room : Room) (role : Role)
      (session : GameSession)
      → lt_int order 0 ≡ false
      → ports.room_store.get_by_id room_id w.rooms ≡ ok room
      → role_of_player room player_id ≡ ok role
      → ports.session_store.get_by_room_id room_id w.sessions ≡ ok session
      → IsSound ports reliable (submit_order ports room_id player_id order w).1
  unfolding submit_order publish_room_event
  accepted-IsSound room_id player_id order room role session enough stored plays read =
      let week = current_playable_week session in
      elim (Bool-cases (is_active session.status)) [
        | inr over ↦ rw (enough, stored, plays, read, over) sound
        | inl running ↦
            elim (Result-cases (
              or_no_decisions room_id week
                (ports.decision_store.get_by_room_and_week room_id week w.decisions))) [
                  | inl (inl stops) ↦ rw (enough, stored, plays, read, running, stops) sound
                  | inl (inr (e, stops)) ↦ rw (enough, stored, plays, read, running, stops) sound
                  | inr (before, so_far) ↦
                      let updated : WeeklyDecisions = record before {
                        orders = insert role order before.orders;
                        updated_at = ports.surroundings.time_at w.times_read;
                      } in
                      rw
                        (
                          enough,
                          stored,
                          plays,
                          read,
                          running,
                          so_far,
                          reliable.decisions.saves updated w.decisions,
                        )
                        (in_world ports reliable sound.stores)
                ]
      ]

  -- Orders are kept apart from rooms and sessions.
  pub submit_order-IsSound :
      (room_id player_id : String) (order : GoInt)
      → IsSound ports reliable (submit_order ports room_id player_id order w).1
  unfolding submit_order
  submit_order-IsSound room_id player_id order = elim (Bool-cases (lt_int order 0)) [
    | inl negative ↦ rw negative sound
    | inr enough ↦ elim (Result-cases (ports.room_store.get_by_id room_id w.rooms)) [
      | inl (inl stops) ↦ rw (enough, stops) sound
      | inl (inr (e, stops)) ↦ rw (enough, stops) sound
      | inr (room, stored) ↦ elim (Result-cases (role_of_player room player_id)) [
        | inl (inl stops) ↦ rw (enough, stored, stops) sound
        | inl (inr (e, stops)) ↦ rw (enough, stored, stops) sound
        | inr (role, plays) ↦
            elim (Result-cases (ports.session_store.get_by_room_id room_id w.sessions)) [
              | inl (inl stops) ↦ rw (enough, stored, plays, stops) sound
              | inl (inr (e, stops)) ↦ rw (enough, stored, plays, stops) sound
              | inr (session, read) ↦
                  accepted-IsSound room_id player_id order room role session enough stored plays
                    read
            ]
      ]
    ]
  ]

  played-IsSound :
      (room_id : String) (room : Room) (session : GameSession) (before : WeeklyDecisions)
      → ports.room_store.get_by_id room_id w.rooms ≡ ok room
      → ports.session_store.get_by_room_id room_id w.sessions ≡ ok session
      → or_not_ready (
          ports.decision_store.get_by_room_and_week room_id
            (current_playable_week session)
            w.decisions)
        ≡ ok before
      → IsSound ports reliable (advance_game_week ports room_id w).1
  unfolding advance_game_week finish_week publish_room_event
  played-IsSound room_id room session before stored read ready =
      let now = ports.surroundings.time_at w.times_read in
      elim (Bool-cases (length before.orders == 4)) [
        | inr few ↦ rw (stored, read, ready, few) (in_world ports reliable sound.stores)
        | inl four ↦ elim (Result-cases (advance_week session before.orders now)) [
          | inl (inl stops) ↦
              rw (stored, read, ready, four, stops) (in_world ports reliable sound.stores)
          | inl (inr (e, stops)) ↦
              rw (stored, read, ready, four, stops) (in_world ports reliable sound.stores)
          | inr ((week, session'), played) ↦
              rw
                (
                  stored,
                  read,
                  ready,
                  four,
                  played,
                  reliable.sessions.saves session' w.sessions,
                  reliable.rooms.saves (moved_on room session' _) w.rooms,
                  reliable.decisions.deletes room_id (current_playable_week session) w.decisions,
                )
                (in_world ports reliable (
                  played-Sound room_id room session session' before.orders now _ week stored read
                    played))
        ]
      ]

  pub advance_game_week-IsSound :
      (room_id : String) → IsSound ports reliable (advance_game_week ports room_id w).1
  unfolding advance_game_week
  advance_game_week-IsSound room_id =
      elim (Result-cases (ports.room_store.get_by_id room_id w.rooms)) [
        | inl (inl stops) ↦ rw stops sound
        | inl (inr (e, stops)) ↦ rw stops sound
        | inr (room, stored) ↦
            elim (Result-cases (ports.session_store.get_by_room_id room_id w.sessions)) [
              | inl (inl stops) ↦ rw (stored, stops) sound
              | inl (inr (e, stops)) ↦ rw (stored, stops) sound
              | inr (session, read) ↦
                  elim (Result-cases (
                    or_not_ready (
                      ports.decision_store.get_by_room_and_week room_id
                        (current_playable_week session) w.decisions))) [
                          | inl (inl stops) ↦ rw (stored, read, stops) sound
                          | inl (inr (e, stops)) ↦ rw (stored, read, stops) sound
                          | inr (before, ready) ↦
                              played-IsSound room_id room session before stored read ready
                        ]
            ]
      ]
