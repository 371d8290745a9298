-- ===== src/Domain/Room/Assign.antt =====
-- `AssignRole` against a description without its loop and index.
use text.Mathlib.TextEquality.{eq_iff}
use supply_chain_game.Prelude.{
  ℕ, ◌≡◌, ap, ◌∙◌, true, false, not, List, [], ◌∷◌, arith, length, Distinct, String, Bool-cases,
  inl, inr, if◌then◌else◌, none, some, get_elem?-bound, lt→ltb,
}
use supply_chain_game.Word.{Time, IsNonNeg}
use supply_chain_game.Result.{
  Result, ok, err, ◌>>=◌, >>=_assoc, role_already_taken, player_not_found, invalid_role,
  game_already_started,
}
use supply_chain_game.Domain.Role.{Role, IsKnown, is_known_role}
use supply_chain_game.Domain.Room.{
  Player, Room, is_waiting, find_player_index, set_found_role, assign_role,
}
use supply_chain_game.Domain.Room.Invariant.{ids}
use supply_chain_game.Domain.Room.FindPlayer.{
  taken, has_id, with_role, IsAbsent, find_player_index-taken, find_player_index-absent, IsAt,
  find_player_index-IsAt,
}

-- What `AssignRole` does, test by test.
pub assign_result : Room → String → Role → Time → Result Room
assign_result r player_id role now =
    if not (is_waiting r.status)
    then err game_already_started
    else if not (is_known_role role)
    then err invalid_role
    else if taken player_id role r.players
    then err role_already_taken
    else if has_id player_id r.players
    then ok (record r { players = with_role player_id role r.players; updated_at = now })
    else err player_not_found

has_id-false :
    (player_id : String) (players : List Player)
    → has_id player_id players ≡ false
    → IsAbsent player_id players
unfolding has_id
has_id-false player_id [] h = tt
has_id-false player_id (p ∷ rest) h =
    ground (arith, eq_iff p.id player_id, has_id-false player_id rest)

-- Writing at the place that was found.
set_found_role-IsAt :
    (k : ℕ) (player_id : String) (role : Role) (players : List Player)
    → IsAt k player_id role players
    → set_found_role players (some k) role ≡ ok (with_role player_id role players)
unfolding set_found_role
set_found_role-IsAt k player_id role players at =
    rw (at.here, lt→ltb k (length players) (get_elem?-bound players k at.here), at.written)

-- The loop and the write together, in a room whose players have distinct ids.
assign_found :
    (player_id : String) (role : Role) (players : List Player)
    → Distinct (ids players)
    → IsNonNeg (length players)
    → taken player_id role players ≡ false
    → (find_player_index player_id role players 0 none >>= λ found.
        set_found_role players found role)
      ≡ (if has_id player_id players
          then ok (with_role player_id role players)
          else err player_not_found)
unfolding set_found_role
assign_found player_id role players d small t = elim (Bool-cases (has_id player_id players)) [
  | inl there ↦
      let (k, e, at) =
        find_player_index-IsAt player_id role players 0 none d there t (omega arith) in
      let e' : find_player_index player_id role players 0 none ≡ ok (some k) =
        e ∙ ap (λ n. ok (some n)) (omega arith) in
      rw (e', there) (set_found_role-IsAt k player_id role players at)
  | inr away ↦ rw (
    find_player_index-absent player_id role players 0 none (has_id-false player_id players away) t,
    away,
  )
]

-- In a room whose players have distinct ids, `AssignRole` refuses a started game, an unknown role,
-- a role that another player holds and an unknown player, in that order; otherwise that player,
-- and no other, has the role.
pub assign_role_lem :
    (r : Room) (player_id : String) (role : Role) (now : Time)
    → Distinct (ids r.players)
    → IsNonNeg (length r.players)
    → assign_role r player_id role now ≡ assign_result r player_id role now
unfolding assign_role assign_result
assign_role_lem r player_id role now d small = elim (Bool-cases (taken player_id role r.players)) [
  | inl held ↦
      rw (find_player_index-taken player_id role r.players 0 none held, held) (ground arith)
  | inr free ↦
      rw
        (
          >>=_assoc (find_player_index player_id role r.players 0 none)
              (λ found. set_found_role r.players found role)
              (λ players. ok (record r { players = players; updated_at = now })),
          assign_found player_id role r.players d small free,
          free,
        )
        (ground arith)
]

-- What has been checked when a role is given.
pub record Gives (r r' : Room) (player_id : String) (role : Role) (now : Time) : Type 0 where
  pub open_room : is_waiting r.status ≡ true
  pub known : IsKnown role
  pub free : taken player_id role r.players ≡ false
  pub there : has_id player_id r.players ≡ true
  pub room : r' ≡ record r { players = with_role player_id role r.players; updated_at = now }

pub assign_result-Gives :
    (r r' : Room) (player_id : String) (role : Role) (now : Time)
    → assign_result r player_id role now ≡ ok r'
    → Gives r r' player_id role now
unfolding assign_result
assign_result-Gives r r' player_id role now e = record {
  open_room = ground arith;
  known = ground arith;
  free = ground arith;
  there = ground arith;
  room = ground arith;
}
