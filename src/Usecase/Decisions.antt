-- ===== src/Usecase/Decisions.antt =====
-- internal/usecase/decision_store.go: the orders that the players of a room have given for a week.
pub mod Ready
pub mod Filled
use supply_chain_game.Prelude.{Bool, List, [], ◌∷◌, ◌++◌, none, some, String, length, ◌==◌}
use supply_chain_game.Word.{GoInt, Time}
use supply_chain_game.Domain.Role.{Role, all_roles}
use supply_chain_game.Domain.RoleMap.{RoleMap, lookup}

pub record WeeklyDecisions : Type 0 where
  pub room_id : String
  pub week : GoInt
  pub orders : RoleMap
  pub updated_at : Time

pub record WeeklyDecisionsSnapshot : Type 0 where
  pub room_id : String
  pub week : GoInt
  pub orders : RoleMap
  pub submitted_roles : List Role
  pub pending_roles : List Role
  pub ready : Bool

-- The loop over the roles, with `submitted` and `pending`.
unfoldable pub split_roles : RoleMap → List Role → List Role → List Role → List Role × List Role
split_roles orders [] submitted pending = (submitted, pending)
split_roles orders (role ∷ rest) submitted pending =
    let in_map = split_roles orders rest (submitted ++ role ∷ []) pending in
    let not_in_map = split_roles orders rest submitted (pending ++ role ∷ []) in
    elim (lookup role orders) [ none ↦ not_in_map | some _ ↦ in_map ]

unfoldable pub snapshot : WeeklyDecisions → WeeklyDecisionsSnapshot
snapshot w =
    let (submitted, pending) = split_roles w.orders all_roles [] [] in
    record {
      room_id = w.room_id;
      week = w.week;
      orders = w.orders;
      submitted_roles = submitted;
      pending_roles = pending;
      ready = length pending == 0;
    }
