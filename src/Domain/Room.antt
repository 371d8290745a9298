-- ===== src/Domain/Room.antt =====
-- internal/domain/room.go: a room of players, and the operations before and at the start of a game.
-- A method that fails leaves the room as it was; one that succeeds returns the new room.
pub mod Holders
pub mod Invariant
pub mod Join
pub mod FindPlayer
pub mod WithRole
pub mod Assign
pub mod Used
pub mod HandOut
pub mod Ensure
pub mod Life
pub mod Seats
pub mod Stays
pub mod Tests
use text.Mathlib.Text.{◌==◌ as str_eq}
use supply_chain_game.Prelude.{
  ℕ, Bool, true, false, not, List, [], ◌∷◌, ◌++◌, Option, none, some, String, ◌==◌, if◌then◌else◌,
  length,
}
use supply_chain_game.Word.{GoInt, Time, add_int, le_int}
use supply_chain_game.Result.{
  Result, ok, err, panic, ◌>>=◌, ◌>>◌, reject_if, index, store, invalid_max_weeks,
  empty_player_name, room_full, player_already_in, cannot_join_started, player_not_found,
  invalid_role, role_already_taken, room_not_ready, game_already_started, player_role_missing,
}
use supply_chain_game.Domain.Role.{Role, unassigned, all_roles, role_eq, is_known_role}

pub data GameStatus : Type 0 where
  waiting active finished : GameStatus

pub record Player : Type 0 where
  pub id : String
  pub name : String
  pub role : Role
  pub connected : Bool
  pub joined_at : Time

pub record Room : Type 0 where
  pub id : String
  pub status : GameStatus
  pub current_week : GoInt
  pub max_weeks : GoInt
  pub players : List Player
  pub scenario_id : String
  pub created_at : Time
  pub updated_at : Time

abbrev pub is_waiting : GameStatus → Bool
is_waiting waiting = true
is_waiting active = false
is_waiting finished = false

unfoldable pub new_room : String → GoInt → Time → Result Room
new_room id max_weeks now = do
  reject_if (le_int max_weeks 0) invalid_max_weeks
  ok (record {
    id = id;
    status = waiting;
    current_week = 0;
    max_weeks = max_weeks;
    players = [];
    scenario_id = "";
    created_at = now;
    updated_at = now;
  })

unfoldable pub has_name : String → List Player → Bool
has_name name [] = false
has_name name (existing ∷ rest) = if str_eq existing.name name then true else has_name name rest

unfoldable pub add_player : Room → Player → Time → Result Room
unfolding has_name
add_player r player now = do
  reject_if (str_eq player.name "") empty_player_name
  reject_if (not (is_waiting r.status)) cannot_join_started
  reject_if (le_int (length all_roles) (length r.players)) room_full
  reject_if (has_name player.name r.players) player_already_in
  ok (record r {
    players = r.players ++ record player { joined_at = now; connected = true } ∷ [];
    updated_at = now;
  })

-- The loop of `AssignRole`: where the player is, unless another player has the role. `none` stands
-- for the index -1.
unfoldable pub find_player_index :
    String → Role → List Player → GoInt → Option GoInt → Result (Option GoInt)
find_player_index player_id role [] i found = ok found
find_player_index player_id role (p ∷ rest) i found =
    let here = find_player_index player_id role rest (add_int i 1) (some i) in
    let later = find_player_index player_id role rest (add_int i 1) found in
    if str_eq p.id player_id
    then here
    else if role_eq p.role role
    then err role_already_taken
    else later

set_role : List Player → GoInt → Role → Result (List Player)
set_role players i role = do p ← index players i; store players i (record p { role = role })

set_found_role : List Player → Option GoInt → Role → Result (List Player)
unfolding set_role
set_found_role players none role = err player_not_found
set_found_role players (some i) role = set_role players i role

unfoldable pub assign_role : Room → String → Role → Time → Result Room
unfolding set_found_role
assign_role r player_id role now = do
  reject_if (not (is_waiting r.status)) game_already_started
  reject_if (not (is_known_role role)) invalid_role
  found ← find_player_index player_id role r.players 0 none
  players ← set_found_role r.players found role
  ok (record r { players = players; updated_at = now })

-- The set of roles in use, `used`, as the loop of `EnsureRolesAssigned` collects it.
abbrev pub Used : Type 0
Used = Role → Bool

unfoldable pub mark_used : Used → Role → Used
mark_used used role other = if role_eq role other then true else used other

unfoldable pub collect_used : List Player → Used → Result Used
unfolding mark_used
collect_used [] used = ok used
collect_used (p ∷ rest) used =
    let skipped = collect_used rest used in
    let marked = collect_used rest (mark_used used p.role) in
    if role_eq p.role unassigned
    then skipped
    else if not (is_known_role p.role)
    then err invalid_role
    else if used p.role
    then err role_already_taken
    else marked

unfoldable pub available_roles : Used → List Role → List Role
available_roles used [] = []
available_roles used (role ∷ rest) =
    if not (used role) then role ∷ available_roles used rest else available_roles used rest

-- The loop that hands out `availableRoles[nextRole]`.
unfoldable pub assign_missing : List Player → List Role → GoInt → Result (List Player)
assign_missing [] available next_role = ok []
assign_missing (p ∷ rest) available next_role =
    let kept = (do players ← assign_missing rest available next_role; ok (p ∷ players)) in
    let given = (do
      role ← index available next_role
      players ← assign_missing rest available (add_int next_role 1)
      ok (record p { role = role } ∷ players)) in
    if not (role_eq p.role unassigned) then kept else given

unfoldable pub ensure_roles_assigned : Room → Time → Result Room
ensure_roles_assigned r now = do
  reject_if (not (length r.players == length all_roles)) room_not_ready
  used ← collect_used r.players (λ _. false)
  players ← assign_missing r.players (available_roles used all_roles) 0
  ok (record r { players = players; updated_at = now })

unfoldable pub start : Room → Time → Result Room
unfolding ensure_roles_assigned
start r now = do
  reject_if (not (is_waiting r.status)) game_already_started
  reject_if (not (length r.players == length all_roles)) room_not_ready
  ready ← ensure_roles_assigned r now
  ok (record ready { status = active; current_week = 1; updated_at = now })

role_or_missing : Role → Result Role
role_or_missing role = if role_eq role unassigned then err player_role_missing else ok role

unfoldable pub role_of : String → List Player → Result Role
unfolding role_or_missing
role_of player_id [] = err player_not_found
role_of player_id (p ∷ rest) =
    if str_eq p.id player_id then role_or_missing p.role else role_of player_id rest

unfoldable pub role_of_player : Room → String → Result Role
unfolding role_of
role_of_player r player_id = role_of player_id r.players
