-- ===== src/Memory/SeasonTests.antt =====
-- A game of two weeks over the stores in memory, from its start to its end.
use supply_chain_game.Prelude.{ℕ, ◌≡◌, refl, [], ◌∷◌, List, All, String, arith}
use supply_chain_game.Word.{GoInt, IsWord}
use supply_chain_game.Result.{ok, err, week_decisions_not_found}
use supply_chain_game.Domain.Role.{
  Role, factory, distributor, wholesaler, retailer, unassigned, unknown, IsKnown, is_known_role,
  role_eq,
}
use supply_chain_game.Domain.RoleMap.{lookup, insert}
use supply_chain_game.Domain.Room.Tests.{four-Distinct}
use supply_chain_game.Domain.Scenario.Tests.{zeros}
use supply_chain_game.Domain.Session.{GameSession}
use supply_chain_game.Domain.Session.Invariant.{Limits}
use supply_chain_game.Domain.Session.Begin.{initial_limits}
use supply_chain_game.Usecase.Ports.{World}
use supply_chain_game.Usecase.Decisions.Ready.{HasOrder}
use supply_chain_game.Usecase.Games.{start_game}
use supply_chain_game.Usecase.Games.Season.{Round, IsRound, gathered, play_season}
use supply_chain_game.Usecase.Games.Season.Whole.{Ends, start_game-Ends}
use supply_chain_game.Memory.Stores.{
  Rooms, Sessions, Decisions, no_stored_decisions, decisions_by_room_and_week,
}
use supply_chain_game.Memory.Stores.Laws.{in_memory-AreReliable}
use supply_chain_game.Domain.Analytics.Tests.{whole}
use supply_chain_game.Memory.Tests.{no_file}
use supply_chain_game.Memory.StartTests.{
  surroundings, ports, room, lobby, scenario, scenario-IsStartable, can_start,
}

-- The retailer orders twice in the first week.
abbrev rounds : List Round
rounds =
    ((retailer, 6) ∷ (factory, 7) ∷ (retailer, 8) ∷ (wholesaler, 0) ∷ (distributor, 4) ∷ [])
    ∷ ((factory, 1) ∷ (distributor, 2) ∷ (wholesaler, 3) ∷ (retailer, 4) ∷ [])
    ∷ []

abbrev limits : Limits
limits = initial_limits scenario 8

first_complete :
    (role : Role)
    → IsKnown role
    → HasOrder
        (gathered
          ((retailer, 6) ∷ (factory, 7) ∷ (retailer, 8) ∷ (wholesaler, 0) ∷ (distributor, 4) ∷ [])
          [])
        role
unfolding gathered insert lookup role_eq is_known_role
first_complete factory known = (7, refl)
first_complete distributor known = (4, refl)
first_complete wholesaler known = (0, refl)
first_complete retailer known = (8, refl)
first_complete unassigned known = cc
first_complete (unknown text) known = cc

second_complete :
    (role : Role)
    → IsKnown role
    → HasOrder
        (gathered ((factory, 1) ∷ (distributor, 2) ∷ (wholesaler, 3) ∷ (retailer, 4) ∷ []) [])
        role
unfolding gathered insert lookup role_eq is_known_role
second_complete factory known = (1, refl)
second_complete distributor known = (2, refl)
second_complete wholesaler known = (3, refl)
second_complete retailer known = (4, refl)
second_complete unassigned known = cc
second_complete (unknown text) known = cc

rounds-IsRound : All (IsRound limits) rounds
unfolding is_known_role
rounds-IsRound = (
  record {
    each = (
      (refl, omega arith),
      (
        (refl, omega arith),
        ((refl, omega arith), ((refl, omega arith), ((refl, omega arith), tt))),
      ),
    );
    complete = first_complete;
  },
  (
    record {
      each = (
        (refl, omega arith),
        ((refl, omega arith), ((refl, omega arith), ((refl, omega arith), tt))),
      );
      complete = second_complete;
    },
    tt,
  ),
)

nothing_stored :
    (week : GoInt)
    → IsWord week
    → decisions_by_room_and_week "r1" week no_stored_decisions ≡ err week_decisions_not_found
unfolding decisions_by_room_and_week
nothing_stored week word = refl

start_game-Ends_example :
    (session : GameSession) × (started : World Rooms Sessions Decisions ℕ) × (players : Role
      → String)
    × (w' : World Rooms Sessions Decisions ℕ) × (start_game (ports (ok "s1")) zeros "r1" "" lobby
        ≡ (ok session, started))
    × (play_season (ports (ok "s1")) "r1" players rounds started ≡ (ok tt, w'))
    × Ends
        (ports (ok "s1"))
        zeros
        (in_memory-AreReliable (surroundings (ok "s1")) no_file whole)
        "r1"
        ""
        "s1"
        lobby
        room
        scenario
        (can_start (ok "s1"))
        8
        four-Distinct
        w'
        players
start_game-Ends_example =
    start_game-Ends (ports (ok "s1")) zeros
      (in_memory-AreReliable (surroundings (ok "s1")) no_file whole) "r1" "" "s1" lobby room
      scenario (can_start (ok "s1")) 8 four-Distinct rounds scenario-IsStartable refl nothing_stored
      rounds-IsRound refl
