-- ===== src/Usecase/Worlds/Reachable.antt =====
-- Every world that calls of the services lead to.
use supply_chain_game.Prelude.{subst}
use supply_chain_game.Domain.Scenario.{Rand}
use supply_chain_game.Usecase.Ports.{Ports, World}
use supply_chain_game.Usecase.Contracts.{AreReliable}
use supply_chain_game.Usecase.Worlds.{
  AreFresh, AreScenarios, IsNew, IsSound, Call, Reached, creates, joins, assigns, starts, submits,
  advances, begins, after,
}
use supply_chain_game.Usecase.Worlds.Rooms.{create_room-IsSound, join_room-IsSound}
use supply_chain_game.Usecase.Worlds.Roles.{assign_player_role-IsSound}
use supply_chain_game.Usecase.Worlds.Games.{start_game-IsSound}
use supply_chain_game.Usecase.Worlds.Weeks.{submit_order-IsSound, advance_game_week-IsSound}

module _ {R S D F : Type 0} (ports : Ports R S D F) (reliable : AreReliable ports) (rng : Rand)
    (fresh : AreFresh ports.surroundings) (scenarios : AreScenarios ports) where
  new-IsSound : (w : World R S D F) → IsNew ports reliable w → IsSound ports reliable w
  new-IsSound w new = record {
    stores = record {
      each_room = λ id room e. absurd (new.no_rooms id room e);
      each_session = λ room_id session_id e. absurd (new.no_sessions room_id session_id e);
    };
  }

  Call-IsSound :
      {w w' : World R S D F}
      → Call ports reliable rng w w'
      → IsSound ports reliable w
      → IsSound ports reliable w'
  Call-IsSound {w} (creates max_weeks small e) sound =
      subst (IsSound ports reliable) e
        (create_room-IsSound ports reliable fresh w sound max_weeks small)
  Call-IsSound {w} (joins room_id name e) sound =
      subst (IsSound ports reliable) e (join_room-IsSound ports reliable fresh w sound room_id name)
  Call-IsSound {w} (assigns room_id player_id role e) sound =
      subst (IsSound ports reliable) e
        (assign_player_role-IsSound ports reliable w sound room_id player_id role)
  Call-IsSound {w} (starts room_id scenario_id e) sound =
      subst (IsSound ports reliable) e
        (start_game-IsSound ports reliable rng fresh scenarios w sound room_id scenario_id)
  Call-IsSound {w} (submits room_id player_id order e) sound =
      subst (IsSound ports reliable) e
        (submit_order-IsSound ports reliable w sound room_id player_id order)
  Call-IsSound {w} (advances room_id e) sound =
      subst (IsSound ports reliable) e (advance_game_week-IsSound ports reliable w sound room_id)

  -- Over reliable stores that are empty at first, when no identifier is made twice and the scenarios
  -- are valid: whatever calls are made, in whatever order and with whatever answers, for games of
  -- fewer than 2 ^ 62 weeks, every stored room is valid and under its key, and every session that is
  -- found by a room is valid, and its room is stored and shows the same status, week and weeks.
  pub Reached-IsSound :
      (w : World R S D F) → Reached ports reliable rng w → IsSound ports reliable w
  Reached-IsSound w (begins new) = new-IsSound w new
  Reached-IsSound w (after {w = v} reached call) = Call-IsSound call (Reached-IsSound v reached)
