-- ===== src/Usecase/Failures.antt =====
-- Calls of the services of internal/usecase that fail: what they have written by then.
pub mod Calls
use supply_chain_game.Prelude.{
  ℕ, ◌≡◌, ◌⊎◌, inl, inr, refl, ◌∙◌, String, List, false, Option, some, none, not, length, ◌==◌,
}
use supply_chain_game.Word.{GoInt, Time, lt_int}
use supply_chain_game.Result.{
  Result, ok, err, panic, Error, Fails, reject_if, negative_order, session_not_active,
  week_not_ready,
}
use supply_chain_game.Domain.Room.{Player, Room, new_room, add_player, assign_role, role_of_player}
use supply_chain_game.Domain.Role.{Role, unassigned, all_roles}
use supply_chain_game.Domain.RoleMap.{insert}
use supply_chain_game.Domain.Session.{GameSession, WeekState, is_active, advance_week}
use supply_chain_game.Usecase.Decisions.{WeeklyDecisions, WeeklyDecisionsSnapshot, snapshot}
use supply_chain_game.Usecase.Ports.{
  Ports, World, Action, RoomEvent, continue, ◌>>=◌, lift, save_room, save_session, save_decisions,
  delete_decisions, room_by_id, session_by_room, decisions_of, write_players, new_id, now, publish,
}
use supply_chain_game.Usecase.Contracts.{AreReliable}
use supply_chain_game.Usecase.Rooms.{room_event, create_room, join_room, assign_player_role}
use supply_chain_game.Usecase.Games.{
  submit_order, finish_week, advance_game_week, publish_room_event, current_playable_week,
  or_no_decisions, or_not_ready,
}

module _ {R S D F : Type 0} where
  -- The stores and the events, which clients see, are the same.
  pub record Untouched (w w' : World R S D F) : Type 0 where
    pub rooms : w'.rooms ≡ w.rooms
    pub sessions : w'.sessions ≡ w.sessions
    pub decisions : w'.decisions ≡ w.decisions
    pub published : w'.published ≡ w.published

  pub untouched : (w : World R S D F) → Untouched w w
  untouched w = record { rooms = refl; sessions = refl; decisions = refl; published = refl }

  Untouched-trans : (w v u : World R S D F) → Untouched w v → Untouched v u → Untouched w u
  Untouched-trans w v u h k = record {
    rooms = k.rooms ∙ h.rooms;
    sessions = k.sessions ∙ h.sessions;
    decisions = k.decisions ∙ h.decisions;
    published = k.published ∙ h.published;
  }

  -- Whatever the action answers, it changes nothing; it ends in a value; it does one or the other.
  pub record Quiet {A : Type 0} (m : Action (World R S D F) A) : Type 0 where
    pub same : (w : World R S D F) → Untouched w (m w).1

  pub record Succeeds {A : Type 0} (m : Action (World R S D F) A) : Type 0 where
    pub value : (w : World R S D F) → (a : A) × ((m w).0 ≡ ok a)

  pub record Settles {A : Type 0} (m : Action (World R S D F) A) : Type 0 where
    pub either : (w : World R S D F) → Untouched w (m w).1 ⊎ ((a : A) × ((m w).0 ≡ ok a))

  continue-Settles :
      {A B : Type 0} (p : Result A × World R S D F) (f : A → Action (World R S D F) B)
      (w : World R S D F)
      → Untouched w p.1
      → ((a : A) → Settles (f a))
      → Untouched w (continue p f).1 ⊎ ((b : B) × ((continue p f).0 ≡ ok b))
  continue-Settles (ok a, v) f w h settles = elim ((settles a).either v) [
    | inl same ↦ inl (Untouched-trans w v (f a v).1 h same)
    | inr done ↦ inr done
  ]
  continue-Settles (err e, v) f w h settles = inl h
  continue-Settles (panic, v) f w h settles = inl h

  pub >>=-Settles :
      {A B : Type 0} {m : Action (World R S D F) A} {f : A → Action (World R S D F) B}
      → Quiet m
      → ((a : A) → Settles (f a))
      → Settles (m >>= f)
  >>=-Settles {m = m} {f = f} quiet settles = record {
    either = λ w. continue-Settles (m w) f w (quiet.same w) settles;
  }

  continue-Succeeds :
      {A B : Type 0} (p : Result A × World R S D F) (f : A → Action (World R S D F) B)
      → ((a : A) × (p.0 ≡ ok a))
      → ((a : A) → Succeeds (f a))
      → (b : B) × ((continue p f).0 ≡ ok b)
  continue-Succeeds (ok a, v) f done succeeds = (succeeds a).value v
  continue-Succeeds (err e, v) f done succeeds = cc (done.1)
  continue-Succeeds (panic, v) f done succeeds = cc (done.1)

  pub >>=-Succeeds :
      {A B : Type 0} {m : Action (World R S D F) A} {f : A → Action (World R S D F) B}
      → Succeeds m
      → ((a : A) → Succeeds (f a))
      → Succeeds (m >>= f)
  >>=-Succeeds {m = m} {f = f} first later = record {
    value = λ w. continue-Succeeds (m w) f (first.value w) later;
  }

  pub Settles-failed :
      {A : Type 0} (m : Action (World R S D F) A) (w : World R S D F)
      → Settles m
      → Fails (m w).0
      → Untouched w (m w).1
  Settles-failed m w settles fails = elim (settles.either w) [
    | inl same ↦ same
    | inr (a, done) ↦ elim fails [ inl stops ↦ cc | inr (e, stops) ↦ cc ]
  ]

  pub succeeded : {A : Type 0} {m : Action (World R S D F) A} → Succeeds m → Settles m
  succeeded done = record { either = λ w. inr (done.value w) }

  pub quietly : {A : Type 0} (r : Result A) → Quiet (lift r)
  quietly r = record { same = untouched }

  pub answers : {A : Type 0} (a : A) → Succeeds (lift (ok a))
  answers a = record { value = λ w. (a, refl) }
