-- ===== src/Memory/FailureTests.antt =====
-- AdvanceWeek of a week for which nobody has ordered yet.
use supply_chain_game.Prelude.{inr, refl}
use supply_chain_game.Result.{week_not_ready, Fails}
use supply_chain_game.Domain.Analytics.Tests.{whole}
use supply_chain_game.Usecase.Games.{advance_game_week, current_playable_week, or_not_ready}
use supply_chain_game.Usecase.Failures.{Untouched}
use supply_chain_game.Usecase.Failures.Calls.{failed-Untouched}
use supply_chain_game.Memory.Stores.{
  room_by_id, session_by_room_id, decisions_by_room_and_week, save_room, save_session,
}
use supply_chain_game.Memory.Stores.Laws.{in_memory-AreReliable}
use supply_chain_game.Memory.Tests.{ports, surroundings, no_file, before_orders}

not_ready : Fails (advance_game_week ports "r1" before_orders).0
unfolding advance_game_week or_not_ready room_by_id session_by_room_id decisions_by_room_and_week
    save_room save_session current_playable_week
not_ready = inr (week_not_ready, refl)

failed-Untouched_example : Untouched before_orders (advance_game_week ports "r1" before_orders).1
failed-Untouched_example =
    (failed-Untouched ports (in_memory-AreReliable surroundings no_file whole) before_orders).4 "r1"
      not_ready
