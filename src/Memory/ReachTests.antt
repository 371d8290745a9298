-- ===== src/Memory/ReachTests.antt =====
-- A room that is made, joined and started over the stores in memory.
use supply_chain_game.Prelude.{
  ℕ, subst, ◌^◌, ◌≡◌, refl, ltb, if◌then◌else◌, true, inl, inr, [], String, arith, Bool-cases,
}
use supply_chain_game.Prelude.Decimal.{itoa}
use supply_chain_game.Prelude.Decimal.Read.{itoa_inj}
use supply_chain_game.Result.{Result, ok, err, id_failed}
use supply_chain_game.Domain.Role.{wholesaler}
use supply_chain_game.Domain.Scenario.{Scenario, normalized_demand_mode}
use supply_chain_game.Domain.Scenario.Validity
use supply_chain_game.Domain.Scenario.Tests.{zeros}
use supply_chain_game.Domain.Analytics.Tests.{whole}
use supply_chain_game.Usecase.Ports.{Ports, World, Surroundings}
use supply_chain_game.Usecase.Contracts.{AreReliable}
use supply_chain_game.Usecase.Games.{resolve_scenario, start_game, submit_order, advance_game_week}
use supply_chain_game.Usecase.Rooms.{create_room, join_room, assign_player_role}
use supply_chain_game.Usecase.Worlds.{
  AreScenarios, IsNew, IsSound, Reached, creates, joins, assigns, starts, submits, advances, begins,
  after,
}
use supply_chain_game.Usecase.Worlds.Reachable.{Reached-IsSound}
use supply_chain_game.Memory.Stores.{
  Rooms, Sessions, Decisions, no_rooms, no_sessions, no_stored_decisions, default_scenario,
  scenario_by_id, room_by_id,
}
use supply_chain_game.Memory.Stores.Laws.{
  in_memory, room_store_lem, session_store_lem, decision_store_lem,
}
use supply_chain_game.Memory.Tests.{no_file}

-- The decimal numbers, as far as they fit a word.
abbrev number : ℕ → Result String
number n = if ltb n (2 ^ 64) then ok (itoa n) else err id_failed

number-near : (n : ℕ) → ltb n (2 ^ 64) ≡ true → number n ≡ ok (itoa n)
number-near n near = rw near refl

number_inj : (j k : ℕ) (id : String) → number j ≡ ok id → number k ≡ ok id → j ≡ k
number_inj j k id e h = elim (Bool-cases (ltb j (2 ^ 64))) [
  | inr far ↦ absurd (ground (arith, far, e))
  | inl near ↦
      let here = number-near j near in
      elim (Bool-cases (ltb k (2 ^ 64))) [
        | inr far ↦ absurd (ground (arith, far, h))
        | inl near' ↦
            let there = number-near k near' in
            itoa_inj j k (ground (arith, near)) (ground (arith, near')) cc
      ]
]

abbrev surroundings : Surroundings
surroundings = record { id_at = number; time_at = λ n. n }

abbrev ports : Ports Rooms Sessions Decisions ℕ
ports = in_memory surroundings no_file whole

abbrev reliable : AreReliable ports
reliable = record {
  rooms = room_store_lem;
  sessions = session_store_lem;
  decisions = decision_store_lem;
}

only_default :
    (id : String) (given : Scenario)
    → resolve_scenario ports id ≡ ok given
    → default_scenario ≡ given
unfolding resolve_scenario scenario_by_id
only_default id given e = ground (arith, e)

default-IsValid : Validity.IsValid default_scenario
unfolding normalized_demand_mode
default-IsValid = ground arith

scenarios : AreScenarios ports
scenarios = record {
  valid = λ id given e. subst Validity.IsValid (only_default id given e) default-IsValid;
  demand = λ id given e. let same = only_default id given e in rw (← same) (omega arith);
  highest = λ id given e. let same = only_default id given e in rw (← same) (omega arith);
}

abbrev empty : World Rooms Sessions Decisions ℕ
empty = record {
  rooms = no_rooms;
  sessions = no_sessions;
  decisions = no_stored_decisions;
  published = [];
  ids_read = 0;
  times_read = 0;
}

empty-IsNew : IsNew ports reliable empty
unfolding room_by_id session_store_lem
empty-IsNew = record {
  no_rooms = λ id room e. ground (arith, e);
  no_sessions = λ room_id session_id e. ground (arith, e);
}

abbrev joined : World Rooms Sessions Decisions ℕ
joined =
    (join_room ports "0" "Dan"
      (join_room ports "0" "Cyn"
        (join_room ports "0" "Ben"
          (join_room ports "0" "Ann" (create_room ports 2 empty).1).1).1).1).1

abbrev started : World Rooms Sessions Decisions ℕ
started = (start_game ports zeros "0" "" (assign_player_role ports "0" "1" wholesaler joined).1).1

-- An order comes in, and the week is advanced too early.
abbrev played : World Rooms Sessions Decisions ℕ
played = (advance_game_week ports "0" (submit_order ports "0" "1" 5 started).1).1

joined-Reached : Reached ports reliable zeros joined
joined-Reached =
    after
      (after
        (after
          (after (after (begins empty-IsNew) (creates 2 (omega arith) refl)) (joins "0" "Ann" refl))
          (joins "0" "Ben" refl))
        (joins "0" "Cyn" refl))
      (joins "0" "Dan" refl)

played-Reached : Reached ports reliable zeros played
played-Reached =
    after
      (after (after (after joined-Reached (assigns "0" "1" wholesaler refl)) (starts "0" "" refl))
        (submits "0" "1" 5 refl))
      (advances "0" refl)

Reached-IsSound_example : IsSound ports reliable played
Reached-IsSound_example =
    Reached-IsSound ports reliable zeros number_inj scenarios played played-Reached
