-- ===== src/Usecase/Games/Season.antt =====
-- A game from internal/usecase/game_service.go, as its callers play it: each week the players submit
-- their orders, and then the week is advanced.
pub mod Submissions
pub mod Rounds
pub mod Whole
use supply_chain_game.Prelude.{◌≤◌, ◌<◌, ◌≡◌, List, [], ◌∷◌, All, String}
use supply_chain_game.Word.{GoInt, IsWord}
use supply_chain_game.Result.{ok, err, week_decisions_not_found}
use supply_chain_game.Domain.Role.{Role, IsKnown, all_roles}
use supply_chain_game.Domain.RoleMap.{RoleMap, insert}
use supply_chain_game.Domain.Room.{Room, role_of_player}
use supply_chain_game.Domain.Session.{GameSession}
use supply_chain_game.Domain.Session.Invariant.{IsValid, IsWithin, Limits}
use supply_chain_game.Usecase.Decisions.Ready.{HasOrder}
use supply_chain_game.Usecase.Ports.{Ports, World, Action, ◌>>=◌, ◌>>◌, lift}
use supply_chain_game.Usecase.Games.{submit_order, advance_game_week}
use supply_chain_game.Usecase.Games.Weeks.{AtWeek}

-- The orders of a week in the sequence in which they come; a player may order again.
abbrev pub Round : Type 0
Round = List (Role × GoInt)

-- What a round leaves of them: the last order of each role.
unfoldable pub gathered : Round → RoleMap → RoleMap
gathered [] m = m
gathered ((role, order) ∷ rest) m = gathered rest (insert role order m)

-- Every order is one of a role of the game and within the cap, and no role is left out.
pub record IsRound (l : Limits) (round : Round) : Type 0 where
  pub each : All (λ (o : Role × GoInt). IsKnown o.0 × (o.1 ≤ l.cap)) round
  pub complete : (role : Role) → IsKnown role → HasOrder (gathered round []) role

module _ {R S D F : Type 0} (ports : Ports R S D F) (room_id : String) (seats : Role → String) where
  -- The player with the identifier `seats role` orders for the role.
  unfoldable pub submit_all : Round → Action (World R S D F) (Unit {0})
  submit_all [] = lift (ok tt)
  submit_all ((role, order) ∷ rest) = do
    answer ← submit_order ports room_id (seats role) order
    submit_all rest

  unfoldable pub play_round : Round → Action (World R S D F) (Unit {0})
  unfolding submit_all
  play_round round = do submit_all round; week ← advance_game_week ports room_id; lift (ok tt)

  -- One round after the other, up to the first error.
  unfoldable pub play_season : List Round → Action (World R S D F) (Unit {0})
  unfolding play_round
  play_season [] = lift (ok tt)
  play_season (round ∷ rest) = do play_round round; play_season rest

  -- A room in the stores with its session, valid and within its limits; a player for each role; and
  -- no orders yet for the weeks to come.
  pub record InPlay (l : Limits) (w : World R S D F) (session : GameSession) : Type 0 where
    pub room : Room
    pub at : AtWeek ports room_id w room session
    pub seated : (role : Role) → IsKnown role → role_of_player room (seats role) ≡ ok role
    pub agrees : room.status ≡ session.status
    pub valid : IsValid session
    pub within : IsWithin l session
    pub quiet :
        (week : GoInt)
        → IsWord week
        → session.current_week < week
        → ports.decision_store.get_by_room_and_week room_id week w.decisions
          ≡ err week_decisions_not_found
