-- ===== src/Domain/Room/Life.antt =====
-- The life of a room up to the start of its game, as a relation of steps.
use supply_chain_game.Prelude.{
  ◌≡◌, ◌≢◌, refl, sym, ap, subst, not, List, [], ◌∷◌, arith, length, All, String, inr, ◌==◌, ◌∙◌,
  suc,
}
use supply_chain_game.Word.{GoInt, Time, IsWord}
use supply_chain_game.Result.{ok, reject_if, >>-eq-ok, reject_if-eq-ok}
use supply_chain_game.Domain.Role.{Role, IsKnown, unassigned}
use supply_chain_game.Domain.Room.{
  Player, Room, waiting, active, is_waiting, new_room, add_player, assign_role, start,
}
use supply_chain_game.Domain.Room.Holders.{RoleIsValid}
use supply_chain_game.Domain.Room.Invariant.{IsValid, names, ids, new_room-IsValid}
use supply_chain_game.Domain.Room.Join.{with_player-IsValid, add_player_iff, waiting-ok}
use supply_chain_game.Domain.Room.Assign.{assign_role_lem, assign_result-Gives}
use supply_chain_game.Domain.Room.WithRole.{with_role-IsValid}
use supply_chain_game.Domain.Room.HandOut.{AllKeep}
use supply_chain_game.Domain.Room.Ensure.{IsStaffed, start_succeeds}

pub AllKeep-ids : (ps qs : List Player) → AllKeep ps qs → ids qs ≡ ids ps
AllKeep-ids [] [] k = refl
AllKeep-ids [] (q ∷ qs) k = absurd k
AllKeep-ids (p ∷ ps) [] k = absurd k
AllKeep-ids (p ∷ ps) (q ∷ qs) ((e, r), k) =
    rw (AllKeep-ids ps qs k) (ap (λ (x : Player). x.id ∷ ids ps) e)

AllKeep-names : (ps qs : List Player) → AllKeep ps qs → names qs ≡ names ps
AllKeep-names [] [] k = refl
AllKeep-names [] (q ∷ qs) k = absurd k
AllKeep-names (p ∷ ps) [] k = absurd k
AllKeep-names (p ∷ ps) (q ∷ qs) ((e, r), k) =
    rw (AllKeep-names ps qs k) (ap (λ (x : Player). x.name ∷ names ps) e)

AllKeep-length : (ps qs : List Player) → AllKeep ps qs → length qs ≡ length ps
AllKeep-length [] [] k = refl
AllKeep-length [] (q ∷ qs) k = absurd k
AllKeep-length (p ∷ ps) [] k = absurd k
AllKeep-length (p ∷ ps) (q ∷ qs) k = ap suc (AllKeep-length ps qs k.1)

AllKeep-named :
    (ps qs : List Player) → AllKeep ps qs → All (λ p. p.name ≢ "") ps → All (λ p. p.name ≢ "") qs
AllKeep-named [] [] k h = tt
AllKeep-named [] (q ∷ qs) k h = absurd k
AllKeep-named (p ∷ ps) [] k h = absurd k
AllKeep-named (p ∷ ps) (q ∷ qs) ((e, r), k) h = (
  subst (λ (name : String). name ≢ "") (ap (λ (x : Player). x.name) (sym e)) h.0,
  AllKeep-named ps qs k h.1,
)

All-valid : (ps : List Player) → All (λ p. IsKnown p.role) ps → All (λ p. RoleIsValid p.role) ps
All-valid [] h = tt
All-valid (p ∷ ps) h = (inr h.0, All-valid ps h.1)

abbrev started : Room → List Player → Time → Room
started r after now = record r {
  players = after;
  status = active;
  current_week = 1;
  updated_at = now;
}

started-IsValid :
    (r : Room) (after : List Player) (now : Time)
    → IsValid r
    → length r.players ≡ 4
    → IsStaffed r.players after
    → IsValid (started r after now)
started-IsValid r after now v four s = record {
  few = omega (arith, AllKeep-length r.players after s.keeps);
  distinct_ids = rw (AllKeep-ids r.players after s.keeps) v.distinct_ids;
  distinct_names = rw (AllKeep-names r.players after s.keeps) v.distinct_names;
  named = AllKeep-named r.players after s.keeps v.named;
  roles = All-valid after s.known;
  unshared = λ role k. omega (arith, s.one_each role k);
  weeks = v.weeks;
  before_start = λ e. cc;
  full = λ n. omega (arith, AllKeep-length r.players after s.keeps);
  staffed = λ n role k. s.one_each role k;
}

-- What `Start` has checked first, when it succeeds.
pub start-checks :
    (r r' : Room) (now : Time) → start r now ≡ ok r' → (r.status ≡ waiting) × (length r.players ≡ 4)
unfolding start
start-checks r r' now e =
    let (a, e1) = >>-eq-ok (reject_if (not (is_waiting r.status)) _) _ e in
    let (b, e2) = >>-eq-ok (reject_if (not (length r.players == 4)) _) _ e1 in
    (
      waiting-ok r.status (reject_if-eq-ok _ _ a),
      ground (arith, reject_if-eq-ok (not (length r.players == 4)) _ b),
    )

-- A game that starts leaves a valid room.
pub start-IsValid : (r r' : Room) (now : Time) → IsValid r → start r now ≡ ok r' → IsValid r'
start-IsValid r r' now v e =
    let (w, four) = start-checks r r' now e in
    let (after, e', staffed) = start_succeeds r now w four v.roles v.unshared in
    subst IsValid (cc e') (started-IsValid r after now v four staffed)

pub assign_role-IsValid :
    (r r' : Room) (player_id : String) (role : Role) (now : Time)
    → IsValid r
    → assign_role r player_id role now ≡ ok r'
    → IsValid r'
assign_role-IsValid r r' player_id role now v e =
    let g =
      assign_result-Gives r r' player_id role now
        (sym (assign_role_lem r player_id role now v.distinct_ids (omega (arith, v.few))) ∙ e) in
    subst IsValid (sym g.room) (
      with_role-IsValid r player_id role now v (waiting-ok r.status (ap not g.open_room)) g.known
        g.free)

pub add_player-IsValid :
    (r r' : Room) (player : Player) (now : Time)
    → IsValid r
    → All (λ y. y ≢ player.id) (ids r.players)
    → player.role ≡ unassigned
    → add_player r player now ≡ ok r'
    → IsValid r'
add_player-IsValid r r' player now v fresh none e =
    let (can, same) = (add_player_iff r r' player now (omega (arith, v.few))).0 e in
    subst IsValid (sym same) (with_player-IsValid r player now v can fresh none)

-- One successful call. A player joins with a new id and with no role.
pub data RoomStep (r r' : Room) : Type 0 where
  joins :
      (player : Player) (now : Time)
      → All (λ y. y ≢ player.id) (ids r.players)
      → player.role ≡ unassigned
      → add_player r player now ≡ ok r'
      → RoomStep r r'
  takes_role :
      (player_id : String) (role : Role) (now : Time)
      → assign_role r player_id role now ≡ ok r'
      → RoomStep r r'
  starts : (now : Time) → start r now ≡ ok r' → RoomStep r r'

-- The rooms that calls lead to.
pub data RoomReach : Room → Type 0 where
  made :
      {r : Room} (id : String) (max_weeks : GoInt) (now : Time)
      → IsWord max_weeks
      → new_room id max_weeks now ≡ ok r
      → RoomReach r
  next : {r r' : Room} → RoomReach r → RoomStep r r' → RoomReach r'

RoomStep-IsValid : {r r' : Room} → RoomStep r r' → IsValid r → IsValid r'
RoomStep-IsValid {r} {r'} (joins player now fresh none e) v =
    add_player-IsValid r r' player now v fresh none e
RoomStep-IsValid {r} {r'} (takes_role player_id role now e) v =
    assign_role-IsValid r r' player_id role now v e
RoomStep-IsValid {r} {r'} (starts now e) v = start-IsValid r r' now v e

-- Every room is valid that calls of NewRoom, AddPlayer, AssignRole and Start lead to, when AddPlayer
-- is called with an identifier that no player of the room has and with no role.
pub RoomReach-IsValid : {r : Room} → RoomReach r → IsValid r
RoomReach-IsValid {r} (made id m now w e) = new_room-IsValid id m now r w e
RoomReach-IsValid (next reach step) = RoomStep-IsValid step (RoomReach-IsValid reach)
