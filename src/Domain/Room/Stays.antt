-- ===== src/Domain/Room/Stays.antt =====
-- What the calls of internal/domain/room.go leave as it was.
use mathlib.Core.List.{map-append}
use supply_chain_game.Prelude.{◌≡◌, ◌≢◌, sym, ap, ◌∙◌, not, [], ◌∷◌, ◌++◌, arith, String}
use supply_chain_game.Word.{Time}
use supply_chain_game.Word.{GoInt}
use supply_chain_game.Result.{ok}
use supply_chain_game.Domain.Role.{Role}
use supply_chain_game.Domain.Room.{
  GameStatus, Player, Room, waiting, active, add_player, assign_role, start,
}
use supply_chain_game.Domain.Room.Invariant.{IsValid, ids}
use supply_chain_game.Domain.Room.Join.{joined, add_player_iff, waiting-ok}
use supply_chain_game.Domain.Room.Assign.{assign_role_lem, assign_result-Gives}
use supply_chain_game.Domain.Room.WithRole.{ids-with_role}
use supply_chain_game.Domain.Room.Ensure.{start_succeeds}
use supply_chain_game.Domain.Room.Life.{AllKeep-ids, start-checks}

-- A waiting room keeps its key and its weeks.
pub record Stays (r r' : Room) : Type 0 where
  pub id : r'.id ≡ r.id
  pub max_weeks : r'.max_weeks ≡ r.max_weeks
  pub waits : r.status ≡ waiting

pub add_player-Stays :
    (r r' : Room) (player : Player) (now : Time)
    → IsValid r
    → add_player r player now ≡ ok r'
    → Stays r r' × (ids r'.players ≡ ids r.players ++ player.id ∷ [])
add_player-Stays r r' player now v e =
    let (can, same) = (add_player_iff r r' player now (omega (arith, v.few))).0 e in
    (
      record {
        id = ap (λ x. x.id) same;
        max_weeks = ap (λ x. x.max_weeks) same;
        waits = can.open_room;
      },
      ap (λ x. ids x.players) same ∙ map-append _ r.players (joined player now ∷ []),
    )

pub assign_role-Stays :
    (r r' : Room) (player_id : String) (role : Role) (now : Time)
    → IsValid r
    → assign_role r player_id role now ≡ ok r'
    → Stays r r' × (ids r'.players ≡ ids r.players)
assign_role-Stays r r' player_id role now v e =
    let g =
      assign_result-Gives r r' player_id role now
        (sym (assign_role_lem r player_id role now v.distinct_ids (omega (arith, v.few))) ∙ e) in
    (
      record {
        id = ap (λ x. x.id) g.room;
        max_weeks = ap (λ x. x.max_weeks) g.room;
        waits = waiting-ok r.status (ap not g.open_room);
      },
      ap (λ x. ids x.players) g.room ∙ ids-with_role player_id role r.players,
    )

pub start-Stays :
    (r r' : Room) (now : Time)
    → IsValid r
    → start r now ≡ ok r'
    → Stays r r' × (ids r'.players ≡ ids r.players) × (r'.status ≡ active)
start-Stays r r' now v e =
    let (w, four) = start-checks r r' now e in
    let (after, made, staffed) = start_succeeds r now w four v.roles v.unshared in
    let same : record r { players = after; status = active; current_week = 1; updated_at = now }
        ≡ r' =
      cc in
    (
      record {
        id = ap (λ x. x.id) (sym same);
        max_weeks = ap (λ x. x.max_weeks) (sym same);
        waits = w;
      },
      ap (λ x. ids x.players) (sym same) ∙ AllKeep-ids r.players after staffed.keeps,
      ap (λ x. x.status) (sym same),
    )

-- What a valid room that waits no longer may change.
pub later-IsValid :
    (r : Room) (status : GameStatus) (week : GoInt) (scenario_id : String) (now : Time)
    → IsValid r
    → r.status ≢ waiting
    → status ≢ waiting
    → IsValid (record r {
      status = status;
      current_week = week;
      scenario_id = scenario_id;
      updated_at = now;
    })
later-IsValid r status week scenario_id now v on still = record {
  few = v.few;
  distinct_ids = v.distinct_ids;
  distinct_names = v.distinct_names;
  named = v.named;
  roles = v.roles;
  unshared = v.unshared;
  weeks = v.weeks;
  before_start = λ e. absurd (still e);
  full = λ n. v.full on;
  staffed = λ n. v.staffed on;
}

-- A waiting room with the players of another valid room.
pub with_players-IsValid :
    (r r' : Room)
    → IsValid r
    → r.status ≡ waiting
    → IsValid r'
    → IsValid (record r { players = r'.players })
with_players-IsValid r r' v waits v' = record {
  few = v'.few;
  distinct_ids = v'.distinct_ids;
  distinct_names = v'.distinct_names;
  named = v'.named;
  roles = v'.roles;
  unshared = v'.unshared;
  weeks = v.weeks;
  before_start = v.before_start;
  full = λ n. absurd (n waits);
  staffed = λ n. absurd (n waits);
}
