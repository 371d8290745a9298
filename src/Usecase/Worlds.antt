-- ===== src/Usecase/Worlds.antt =====
-- The services of internal/usecase over their stores, call after call: what holds of every world
-- that calls lead to, whether they succeed or fail.
pub mod Saves
pub mod Rooms
pub mod Roles
pub mod Games
pub mod Weeks
pub mod Reachable
use supply_chain_game.Prelude.{ℕ, suc, ◌<◌, ◌≤◌, ◌^◌, ◌≡◌, ◌≢◌, All, String, arith}
use supply_chain_game.Word.{GoInt, IsNonNeg}
use supply_chain_game.Prelude.{length, ◌-◌}
use supply_chain_game.Result.{ok}
use supply_chain_game.Domain.Role.{Role}
use supply_chain_game.Domain.Room.{Room}
use supply_chain_game.Domain.Room.Invariant.{ids}
use supply_chain_game.Domain.Room.Invariant as RoomInvariant
use supply_chain_game.Domain.Scenario.{Scenario, Rand}
use supply_chain_game.Domain.Scenario.Validity
use supply_chain_game.Domain.Session.{GameSession}
use supply_chain_game.Domain.Session.Invariant.{IsValid}
use supply_chain_game.Usecase.Ports.{Ports, World, Surroundings}
use supply_chain_game.Usecase.Contracts.{AreReliable}
use supply_chain_game.Usecase.Games.{
  current_playable_week, resolve_scenario, start_game, submit_order, advance_game_week,
}
use supply_chain_game.Usecase.Rooms.{create_room, join_room, assign_player_role}

-- One of the first `n` identifiers.
abbrev pub IsIssued : Surroundings → ℕ → String → Type 0
IsIssued surroundings n id = (k : ℕ) × (k < n) × (surroundings.id_at k ≡ ok id)

-- No identifier is made twice.
abbrev pub AreFresh : Surroundings → Type 0
AreFresh surroundings =
    (j k : ℕ) (id : String) → surroundings.id_at j ≡ ok id → surroundings.id_at k ≡ ok id → j ≡ k

-- A room and its session show the same.
pub record Agree (room : Room) (session : GameSession) : Type 0 where
  pub status : room.status ≡ session.status
  pub week : room.current_week ≡ current_playable_week session
  pub weeks : room.max_weeks ≡ session.max_weeks

module _ {R S D F : Type 0} (ports : Ports R S D F) where
  -- The scenarios are valid, and fit the memory.
  pub record AreScenarios : Type 0 where
    pub valid :
        (id : String) (given : Scenario)
        → resolve_scenario ports id ≡ ok given
        → Validity.IsValid given
    pub demand :
        (id : String) (given : Scenario)
        → resolve_scenario ports id ≡ ok given
        → IsNonNeg (length given.consumer_demand)
    pub highest :
        (id : String) (given : Scenario)
        → resolve_scenario ports id ≡ ok given
        → given.demand_max < 2 ^ 63 - 1

  -- What holds of a room under its key, when `n` identifiers have been made.
  pub record RoomHolds (n : ℕ) (id : String) (room : Room) : Type 0 where
    pub valid : RoomInvariant.IsValid room
    pub key : room.id ≡ id
    pub weeks : room.max_weeks < 2 ^ 62
    pub issued : IsIssued ports.surroundings n id
    pub players : All (IsIssued ports.surroundings n) (ids room.players)

  module _ (reliable : AreReliable ports) where
    -- What holds of a session whose identifier is stored for a room.
    pub record SessionHolds (rooms : R) (sessions : S) (n : ℕ) (room_id session_id : String)
        : Type 0 where
      pub session : GameSession
      pub stored : ports.session_store.get_by_id session_id sessions ≡ ok session
      pub key : session.id ≡ session_id
      pub room_key : session.room_id ≡ room_id
      pub issued : IsIssued ports.surroundings n session_id
      pub valid : IsValid session
      pub room : Room
      pub room_stored : ports.room_store.get_by_id room_id rooms ≡ ok room
      pub agrees : Agree room session

    -- What holds between two calls.
    pub record Sound (rooms : R) (sessions : S) (n : ℕ) : Type 0 where
      pub each_room :
          (id : String) (room : Room)
          → ports.room_store.get_by_id id rooms ≡ ok room
          → RoomHolds n id room
      pub each_session :
          (room_id session_id : String)
          → reliable.sessions.id_of_room room_id sessions ≡ ok session_id
          → SessionHolds rooms sessions n room_id session_id

    pub record IsSound (w : World R S D F) : Type 0 where
      pub stores : Sound w.rooms w.sessions w.ids_read

    -- Stores with nothing in them.
    pub record IsNew (w : World R S D F) : Type 0 where
      pub no_rooms : (id : String) (room : Room) → ports.room_store.get_by_id id w.rooms ≢ ok room
      pub no_sessions :
          (room_id session_id : String)
          → reliable.sessions.id_of_room room_id w.sessions ≢ ok session_id

    module _ (rng : Rand) where
      -- One call of a service that writes, with any answer. A game of 2 ^ 62 weeks or more has no
      -- room in the memory.
      pub data Call (w w' : World R S D F) : Type 0 where
        creates :
            (max_weeks : GoInt)
            → max_weeks < 2 ^ 62
            → (create_room ports max_weeks w).1 ≡ w'
            → Call w w'
        joins :
            (room_id player_name : String)
            → (join_room ports room_id player_name w).1 ≡ w'
            → Call w w'
        assigns :
            (room_id player_id : String) (role : Role)
            → (assign_player_role ports room_id player_id role w).1 ≡ w'
            → Call w w'
        starts :
            (room_id scenario_id : String)
            → (start_game ports rng room_id scenario_id w).1 ≡ w'
            → Call w w'
        submits :
            (room_id player_id : String) (order : GoInt)
            → (submit_order ports room_id player_id order w).1 ≡ w'
            → Call w w'
        advances : (room_id : String) → (advance_game_week ports room_id w).1 ≡ w' → Call w w'

      -- The worlds that calls lead to from empty stores.
      pub data Reached : World R S D F → Type 0 where
        begins : {w : World R S D F} → IsNew w → Reached w
        after : {w w' : World R S D F} → Reached w → Call w w' → Reached w'
