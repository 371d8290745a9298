-- ===== src/Domain/Room/Invariant.antt =====
-- What holds of every room between two calls.
use supply_chain_game.Prelude.{
  ◌≤◌, ◌≡◌, ◌≢◌, refl, subst, List, [], arith, map, length, All, Distinct, String,
}
use supply_chain_game.Word.{GoInt, Time, IsWord, le_int, le_int-zero}
use supply_chain_game.Result.{ok, reject_if, >>-eq-ok, reject_if-eq-ok}
use supply_chain_game.Domain.Role.{Role, IsKnown}
use supply_chain_game.Domain.Scenario.Validity.{IsPositive}
use supply_chain_game.Domain.Room.{Player, Room, waiting, new_room}
use supply_chain_game.Domain.Room.Holders.{holders, RoleIsValid}

abbrev pub names : List Player → List String
names = map λ p. p.name

abbrev pub ids : List Player → List String
ids = map λ p. p.id

-- At most four players with distinct ids and names; a role of the game, or none, for each, and no
-- role twice; week 0 before the start, and all four roles taken after it.
pub record IsValid (r : Room) : Type 0 where
  pub few : length r.players ≤ 4
  pub distinct_ids : Distinct (ids r.players)
  pub distinct_names : Distinct (names r.players)
  pub named : All (λ p. p.name ≢ "") r.players
  pub roles : All (λ p. RoleIsValid p.role) r.players
  pub unshared : (role : Role) → IsKnown role → holders role r.players ≤ 1
  pub weeks : IsPositive r.max_weeks
  pub before_start : r.status ≡ waiting → r.current_week ≡ 0
  pub full : r.status ≢ waiting → length r.players ≡ 4
  pub staffed : r.status ≢ waiting → (role : Role) → IsKnown role → holders role r.players ≡ 1

abbrev pub empty_room : String → GoInt → Time → Room
empty_room id max_weeks now = record {
  id = id;
  status = waiting;
  current_week = 0;
  max_weeks = max_weeks;
  players = [];
  scenario_id = "";
  created_at = now;
  updated_at = now;
}

empty_room-IsValid :
    (id : String) (max_weeks : GoInt) (now : Time)
    → IsPositive max_weeks
    → IsValid (empty_room id max_weeks now)
unfolding holders
empty_room-IsValid id m now w = record {
  few = omega arith;
  distinct_ids = tt;
  distinct_names = tt;
  named = tt;
  roles = tt;
  unshared = λ role k. omega arith;
  weeks = w;
  before_start = λ e. refl;
  full = λ n. absurd (n refl);
  staffed = λ n. absurd (n refl);
}

-- What is made is an empty room.
pub new_room-empty :
    (id : String) (max_weeks : GoInt) (now : Time) (r : Room)
    → new_room id max_weeks now ≡ ok r
    → r ≡ empty_room id max_weeks now
unfolding new_room
new_room-empty id m now r e = let (a, made) = >>-eq-ok (reject_if (le_int m 0) _) _ e in cc

-- A room is made exactly for a positive number of weeks, and it is valid.
pub new_room-IsValid :
    (id : String) (max_weeks : GoInt) (now : Time) (r : Room)
    → IsWord max_weeks
    → new_room id max_weeks now ≡ ok r
    → IsValid r
unfolding new_room
new_room-IsValid id m now r w e =
    let (a, made) = >>-eq-ok (reject_if (le_int m 0) _) _ e in
    let positive : IsPositive m =
      ground (arith, le_int-zero m w, reject_if-eq-ok (le_int m 0) _ a) in
    subst IsValid (cc made) (empty_room-IsValid id m now positive)
