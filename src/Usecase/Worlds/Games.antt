-- ===== src/Usecase/Worlds/Games.antt =====
-- `StartGame` of internal/usecase/game_service.go on a sound world.
use supply_chain_game.Prelude.{suc, ◌≡◌, ◌≢◌, refl, inl, inr, sym, ap, ◌∙◌, subst, String, arith}
use supply_chain_game.Word.{Time}
use supply_chain_game.Result.{ok, Result-cases}
use supply_chain_game.Domain.Scenario.{Scenario, Rand, materialize_demand}
use supply_chain_game.Domain.Scenario.Validity.{IsPositive}
use supply_chain_game.Domain.Scenario.Materialize.{IsSmall, materialize_demand-IsValid}
use supply_chain_game.Domain.Room.{Room, waiting, start}
use supply_chain_game.Domain.Room.Life.{start-IsValid}
use supply_chain_game.Domain.Room.Stays.{start-Stays, later-IsValid}
use supply_chain_game.Domain.Session.{GameSession, new_game_session}
use supply_chain_game.Domain.Session.Invariant.{IsValid}
use supply_chain_game.Domain.Session.Begin.{fresh, new_game_session-fresh, fresh_session-IsValid}
use supply_chain_game.Usecase.Ports.{Ports, World}
use supply_chain_game.Usecase.Contracts.{AreReliable}
use supply_chain_game.Usecase.Games.{start_game, resolve_scenario, current_playable_week}
use supply_chain_game.Usecase.Worlds.{AreFresh, AreScenarios, Agree, RoomHolds, Sound, IsSound}
use supply_chain_game.Usecase.Worlds.Saves.{
  same_answer, IsIssued-fresh, RoomHolds-suc, Sound-suc, Sound-save_both, in_world,
}
use supply_chain_game.Usecase.Worlds.Roles.{kept-RoomHolds, rewritten-Sound}

module _ {R S D F : Type 0} (ports : Ports R S D F) (reliable : AreReliable ports) (rng : Rand)
    (fresh_ids : AreFresh ports.surroundings) (scenarios : AreScenarios ports) (w : World R S D F)
    (sound : IsSound ports reliable w) where
  -- What a call of `StartGame` has read and worked out, when it comes to the new session.
  record Begun (room_id scenario_id session_id : String) (now : Time) (room started : Room)
      (given scenario : Scenario) (session : GameSession) : Type 0 where
    stored : ports.room_store.get_by_id room_id w.rooms ≡ ok room
    resolved : resolve_scenario ports scenario_id ≡ ok given
    demand : materialize_demand rng given room.max_weeks now ≡ ok scenario
    starts : start room now ≡ ok started
    named : ports.surroundings.id_at w.ids_read ≡ ok session_id
    made : new_game_session session_id started.id scenario started.max_weeks now ≡ ok session

  -- The room that is saved then.
  abbrev saved : Room → Scenario → GameSession → Room
  saved started scenario session = record started {
    current_week = current_playable_week session;
    scenario_id = scenario.id;
  }

  started-Sound :
      (room_id : String) (now : Time) (room started : Room)
      → ports.room_store.get_by_id room_id w.rooms ≡ ok room
      → start room now ≡ ok started
      → Sound ports reliable
          (ports.room_store.write_players room_id started.players w.rooms)
          w.sessions
          w.ids_read
  started-Sound room_id now room started stored starts =
      let h = sound.stores.each_room room_id room stored in
      let (stays, members, on) = start-Stays room started now h.valid starts in
      rewritten-Sound ports reliable w sound room_id room started stored
        (start-IsValid room started now h.valid starts) stays members

  module _ (room_id scenario_id session_id : String) (now : Time) (room started : Room)
      (given scenario : Scenario) (session : GameSession)
      (b : Begun room_id scenario_id session_id now room started given scenario session) where
    saved-RoomHolds : RoomHolds ports w.ids_read room_id (saved started scenario session)
    saved-RoomHolds =
        let h = sound.stores.each_room room_id room b.stored in
        let (stays, members, on) = start-Stays room started now h.valid b.starts in
        let still : started.status ≢ waiting = λ e. cc in
        kept-RoomHolds ports w.ids_read room_id room (saved started scenario session) h
          (later-IsValid started started.status (current_playable_week session) scenario.id
            started.updated_at (start-IsValid room started now h.valid b.starts) still still)
          stays.id stays.max_weeks members

    begun-fresh :
        IsValid session × (session ≡ fresh session_id started.id scenario started.max_weeks now)
    begun-fresh =
        let h = sound.stores.each_room room_id room b.stored in
        let (stays, members, on) = start-Stays room started now h.valid b.starts in
        let small : IsSmall given room.max_weeks = record {
          weeks = h.weeks;
          demand = scenarios.demand scenario_id given b.resolved;
          highest = scenarios.highest scenario_id given b.resolved;
        } in
        let (valid, playable) =
          materialize_demand-IsValid rng given scenario room.max_weeks now
            (scenarios.valid scenario_id given b.resolved) small (omega (arith, h.valid.weeks))
            b.demand in
        let weeks = subst IsPositive (sym stays.max_weeks) h.valid.weeks in
        let same : session ≡ fresh session_id started.id scenario started.max_weeks now =
          same_answer _ b.made (
            new_game_session-fresh session_id started.id scenario started.max_weeks now valid
              weeks) in
        (
          rw same (
              fresh_session-IsValid session_id started.id scenario started.max_weeks now valid weeks
                (rw stays.max_weeks playable)),
          same,
        )

    begun-Agree : Agree (saved started scenario session) session
    begun-Agree =
        let h = sound.stores.each_room room_id room b.stored in
        let (stays, members, on) = start-Stays room started now h.valid b.starts in
        let same = begun-fresh.1 in
        record {
          status = on ∙ ap (λ s. s.status) (sym same);
          week = refl;
          weeks = ap (λ s. s.max_weeks) (sym same);
        }

    begun-Sound :
        Sound ports reliable
          (ports.room_store.save
            (saved started scenario session)
            (ports.room_store.write_players room_id started.players w.rooms)).1
          (ports.session_store.save session w.sessions).1
          (suc w.ids_read)
    begun-Sound =
        let (valid, same) = begun-fresh in
        let holds = saved-RoomHolds in
        let id_key : session.id ≡ session_id = ap (λ s. s.id) same in
        Sound-save_both ports reliable _ w.sessions (suc w.ids_read)
          (saved started scenario session) session
          (Sound-suc ports reliable _ w.sessions w.ids_read
            (started-Sound room_id now room started b.stored b.starts))
          (subst (λ x. RoomHolds ports (suc w.ids_read) x (saved started scenario session))
            (sym holds.key)
            (RoomHolds-suc ports reliable w.ids_read room_id (saved started scenario session)
              holds))
          (ap (λ s. s.room_id) same) valid (w.ids_read, omega arith, b.named ∙ ap ok (sym id_key))
          begun-Agree
          λ other other_id elsewhere e.
            let h = sound.stores.each_session other other_id e in
            rw id_key (
              IsIssued-fresh ports.surroundings w.ids_read session_id other_id fresh_ids b.named
                h.issued)

  -- From the roles that are written in place to the end of the call.
  written-IsSound :
      (room_id scenario_id : String) (room started : Room) (given scenario : Scenario)
      → ports.room_store.get_by_id room_id w.rooms ≡ ok room
      → resolve_scenario ports scenario_id ≡ ok given
      → materialize_demand rng given room.max_weeks (ports.surroundings.time_at w.times_read)
        ≡ ok scenario
      → start room (ports.surroundings.time_at w.times_read) ≡ ok started
      → IsSound ports reliable (start_game ports rng room_id scenario_id w).1
  unfolding start_game
  written-IsSound room_id scenario_id room started given scenario stored resolved demand starts =
      let now = ports.surroundings.time_at w.times_read in
      let shared = started-Sound room_id now room started stored starts in
      let named_too = Sound-suc ports reliable _ w.sessions w.ids_read shared in
      rw (stored, resolved, demand, starts)
        (elim (Result-cases (ports.surroundings.id_at w.ids_read)) [
          | inl (inl stops) ↦ rw stops (in_world ports reliable named_too)
          | inl (inr (e, stops)) ↦ rw stops (in_world ports reliable named_too)
          | inr (session_id, named) ↦
              rw named
                (elim (Result-cases
                  (new_game_session session_id started.id scenario started.max_weeks now)) [
                    | inl (inl stops) ↦ rw stops (in_world ports reliable named_too)
                    | inl (inr (e, stops)) ↦ rw stops (in_world ports reliable named_too)
                    | inr (session, made) ↦
                        rw
                          (
                            made,
                            reliable.rooms.saves (saved started scenario session) _,
                            reliable.sessions.saves session w.sessions,
                          )
                          (in_world ports reliable (
                            begun-Sound room_id scenario_id session_id now room started given
                              scenario session
                              (record {
                                stored = stored;
                                resolved = resolved;
                                demand = demand;
                                starts = starts;
                                named = named;
                                made = made;
                              })))
                  ])
        ])

  pub start_game-IsSound :
      (room_id scenario_id : String)
      → IsSound ports reliable (start_game ports rng room_id scenario_id w).1
  unfolding start_game
  start_game-IsSound room_id scenario_id =
      let now = ports.surroundings.time_at w.times_read in
      elim (Result-cases (ports.room_store.get_by_id room_id w.rooms)) [
        | inl (inl stops) ↦ rw stops sound
        | inl (inr (e, stops)) ↦ rw stops sound
        | inr (room, stored) ↦ elim (Result-cases (resolve_scenario ports scenario_id)) [
          | inl (inl stops) ↦ rw (stored, stops) sound
          | inl (inr (e, stops)) ↦ rw (stored, stops) sound
          | inr (given, resolved) ↦
              elim (Result-cases (materialize_demand rng given room.max_weeks now)) [
                | inl (inl stops) ↦
                    rw (stored, resolved, stops) (in_world ports reliable sound.stores)
                | inl (inr (e, stops)) ↦
                    rw (stored, resolved, stops) (in_world ports reliable sound.stores)
                | inr (scenario, demand) ↦ elim (Result-cases (start room now)) [
                  | inl (inl stops) ↦
                      rw (stored, resolved, demand, stops) (in_world ports reliable sound.stores)
                  | inl (inr (e, stops)) ↦
                      rw (stored, resolved, demand, stops) (in_world ports reliable sound.stores)
                  | inr (started, starts) ↦
                      written-IsSound room_id scenario_id room started given scenario stored
                        resolved demand starts
                ]
              ]
        ]
      ]
