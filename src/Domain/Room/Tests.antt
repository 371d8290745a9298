-- ===== src/Domain/Room/Tests.antt =====
-- Rooms of four players: roles, the start of the game, and who may join.
use text.Mathlib.Text.{◌==◌ as str_eq}
use text.Mathlib.TextEquality.{eq_iff}
use supply_chain_game.Prelude.{
  ◌≤◌, ◌≡◌, ◌≢◌, ◌↔◌, refl, true, false, List, [], ◌∷◌, arith, All, Distinct, String, inl, inr,
}
use supply_chain_game.Word.{le_int, add_int}
use supply_chain_game.Result.{ok}
use supply_chain_game.Domain.Role.{
  Role, factory, distributor, wholesaler, retailer, unassigned, unknown, IsKnown, role_eq,
  is_known_role,
}
use supply_chain_game.Domain.Room.{
  Player, Room, active, new_room, add_player, assign_role, start, collect_used, available_roles,
  assign_missing,
}
use supply_chain_game.Domain.Room.Holders.{holders, RoleIsValid}
use supply_chain_game.Domain.Room.Invariant.{IsValid, empty_room, ids}
use supply_chain_game.Domain.Room.Join.{CanJoin, with_player, add_player_iff}
use supply_chain_game.Domain.Room.Assign.{assign_result, assign_role_lem}
use supply_chain_game.Domain.Room.Ensure.{IsStaffed, start_succeeds}
use supply_chain_game.Domain.Room.Life.{made, next, joins, RoomReach-IsValid}

abbrev pub player : String → String → Role → Player
player id name role = record { id = id; name = name; role = role; connected = true; joined_at = 7 }

abbrev pub lobby : Room
lobby = empty_room "r1" 30 5

-- Four players, two of them with a role.
abbrev pub four : List Player
four =
    player "a" "Ann" unassigned
    ∷ player "b" "Ben" retailer
    ∷ player "c" "Cyn" unassigned
    ∷ player "d" "Dan" factory
    ∷ []

abbrev pub gathered : Room
gathered = record lobby { players = four }

-- The roles that are left go to the others in order.
start-gathered :
    start gathered 9
    ≡ ok (record gathered {
      status = active;
      current_week = 1;
      updated_at = 9;
      players =
          player "a" "Ann" distributor
          ∷ player "b" "Ben" retailer
          ∷ player "c" "Cyn" wholesaler
          ∷ player "d" "Dan" factory
          ∷ [];
    })
unfolding start collect_used available_roles assign_missing role_eq is_known_role add_int
start-gathered = refl

pub four-unshared : (role : Role) → IsKnown role → holders role four ≤ 1
unfolding holders role_eq is_known_role
four-unshared factory k = omega arith
four-unshared distributor k = omega arith
four-unshared wholesaler k = omega arith
four-unshared retailer k = omega arith
four-unshared unassigned k = cc
four-unshared (unknown s) k = cc

pub four-valid : All (λ p. RoleIsValid p.role) four
unfolding role_eq is_known_role
four-valid = (inl refl, (inr refl, (inl refl, (inr refl, tt))))

start_succeeds_example :
    (after : List Player) × (start gathered 9
      ≡ ok (record gathered { players = after; status = active; current_week = 1; updated_at = 9 }))
    × IsStaffed four after
start_succeeds_example = start_succeeds gathered 9 refl refl four-valid four-unshared

differ : (s t : String) → str_eq s t ≡ false → s ≢ t
differ s t h e = cc ((eq_iff s t).1 e)

pub four-Distinct : Distinct (ids four)
four-Distinct = (
  (differ "b" "a" refl, (differ "c" "a" refl, (differ "d" "a" refl, tt))),
  ((differ "c" "b" refl, (differ "d" "b" refl, tt)), ((differ "d" "c" refl, tt), (tt, tt))),
)

assign_role_lem_example :
    assign_role gathered "c" wholesaler 9 ≡ assign_result gathered "c" wholesaler 9
assign_role_lem_example = assign_role_lem gathered "c" wholesaler 9 four-Distinct (omega arith)

add_player_iff_example :
    (add_player lobby (player "e" "Eve" unassigned) 9
      ≡ ok (with_player lobby (player "e" "Eve" unassigned) 9))
    ↔ (CanJoin lobby (player "e" "Eve" unassigned)
        × (with_player lobby (player "e" "Eve" unassigned) 9
            ≡ with_player lobby (player "e" "Eve" unassigned) 9))
add_player_iff_example =
    add_player_iff lobby (with_player lobby (player "e" "Eve" unassigned) 9)
      (player "e" "Eve" unassigned) 9 (omega arith)

RoomReach-IsValid_example : IsValid (with_player lobby (player "a" "Ann" unassigned) 6)
unfolding new_room add_player le_int
RoomReach-IsValid_example =
    RoomReach-IsValid (
      next (made "r1" 30 5 (omega arith) refl) (joins (player "a" "Ann" unassigned) 6 tt refl refl))
