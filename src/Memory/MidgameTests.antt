-- ===== src/Memory/MidgameTests.antt =====
-- A game of two weeks over the stores in memory, from the middle.
use supply_chain_game.Prelude.{ℕ, ◌≡◌, refl, [], ◌∷◌, String, arith, map}
use supply_chain_game.Result.{ok}
use supply_chain_game.Domain.Role.{
  Role, factory, distributor, wholesaler, retailer, unassigned, unknown, IsKnown, is_known_role,
  role_eq,
}
use supply_chain_game.Domain.RoleMap.{lookup, insert}
use supply_chain_game.Domain.Room.{role_of_player}
use supply_chain_game.Domain.Session.{GameSession}
use supply_chain_game.Domain.Session.Play.{Moves, play_weeks, IsOver}
use supply_chain_game.Domain.Session.Tests.{session, limits, session-IsReady}
use supply_chain_game.Domain.Analytics.Tests.{whole}
use supply_chain_game.Usecase.Ports.{World}
use supply_chain_game.Usecase.Decisions.Ready.{HasOrder}
use supply_chain_game.Usecase.Games.Season.{Round, IsRound, InPlay, gathered, play_season}
use supply_chain_game.Usecase.Games.Season.Rounds.{play_season-IsOver}
use supply_chain_game.Memory.Stores.{
  Rooms, Sessions, Decisions, no_stored_decisions, decisions_by_room_and_week,
}
use supply_chain_game.Memory.Stores.Laws.{in_memory-AreReliable}
use supply_chain_game.Memory.Tests.{no_file, surroundings, ports, room, before_orders, at_week}

abbrev seats : Role → String
seats factory = "a"
seats distributor = "b"
seats wholesaler = "c"
seats _ = "d"

seated : (role : Role) → IsKnown role → role_of_player room (seats role) ≡ ok role
unfolding role_of_player role_eq is_known_role
seated factory known = refl
seated distributor known = refl
seated wholesaler known = refl
seated retailer known = refl
seated unassigned known = cc
seated (unknown text) known = cc

in_play : InPlay ports "r1" seats limits before_orders session
unfolding decisions_by_room_and_week
in_play = record {
  room = room;
  at = at_week no_stored_decisions;
  seated = seated;
  agrees = refl;
  valid = session-IsReady.valid;
  within = session-IsReady.within;
  quiet = λ week word later. refl;
}

-- The retailer orders twice.
abbrev round : Round
round = (retailer, 9) ∷ (factory, 7) ∷ (retailer, 8) ∷ (wholesaler, 0) ∷ (distributor, 4) ∷ []

round_complete : (role : Role) → IsKnown role → HasOrder (gathered round []) role
unfolding gathered insert lookup role_eq is_known_role
round_complete factory known = (7, refl)
round_complete distributor known = (4, refl)
round_complete wholesaler known = (0, refl)
round_complete retailer known = (8, refl)
round_complete unassigned known = cc
round_complete (unknown text) known = cc

round-IsRound : IsRound limits round
unfolding is_known_role
round-IsRound = record {
  each = (
    (refl, omega arith),
    ((refl, omega arith), ((refl, omega arith), ((refl, omega arith), ((refl, omega arith), tt)))),
  );
  complete = round_complete;
}

play_season-IsOver_example :
    (w' : World Rooms Sessions Decisions ℕ) × (end : GameSession) × (moves : Moves) × (play_season
        ports "r1" seats
        (round ∷ round ∷ [])
        before_orders
      ≡ (ok tt, w'))
    × InPlay ports "r1" seats limits w' end
    × IsOver limits end
    × (end.max_weeks ≡ session.max_weeks)
    × (map (λ move. move.0) moves ≡ map (λ orders. gathered orders []) (round ∷ round ∷ []))
    × (play_weeks moves session ≡ ok end)
play_season-IsOver_example =
    play_season-IsOver ports (in_memory-AreReliable surroundings no_file whole) "r1" seats limits
      (round ∷ round ∷ []) before_orders session in_play (round-IsRound, (round-IsRound, tt)) refl
