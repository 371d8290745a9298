-- ===== src/Domain/Room/Join.antt =====
-- `AddPlayer`: who may join.
use text.Mathlib.Text.{◌==◌ as str_eq}
use text.Mathlib.TextEquality.{eq_iff}
use supply_chain_game.Prelude.{
  ℕ, ◌+◌, ◌<◌, ◌≡◌, ◌≢◌, ◌↔◌, refl, List, [], ◌∷◌, ◌++◌, arith, length, length-append, All,
  All-append, leb, Distinct-snoc, String, false, true, Bool-cases, inl, inr, ◌∙◌, sym, ap, not,
}
use mathlib.Core.List.{map-append}
use supply_chain_game.Word.{Time, IsNonNeg, le_int, le_int-small}
use supply_chain_game.Result.{ok, reject_if, reject_if-eq-ok, >>-eq-ok}
use supply_chain_game.Domain.Role.{Role, unassigned, all_roles, role_eq, role_eq_refl}
use supply_chain_game.Domain.Room.{
  GameStatus, Player, Room, waiting, active, finished, has_name, add_player, is_waiting,
}
use supply_chain_game.Domain.Room.Holders.{holders, RoleIsValid, bit-unassigned}
use supply_chain_game.Domain.Room.Invariant.{IsValid, names, ids}

has_name-false :
    (name : String) (players : List Player)
    → has_name name players ≡ false
    → All (λ y. y ≢ name) (names players)
unfolding has_name
has_name-false name [] h = tt
has_name-false name (p ∷ rest) h = ground (arith, eq_iff p.name name, has_name-false name rest)

-- The player as it joins, and the room with it.
abbrev pub joined : Player → Time → Player
joined player now = record player { joined_at = now; connected = true }

abbrev pub with_player : Room → Player → Time → Room
with_player r player now = record r {
  players = r.players ++ joined player now ∷ [];
  updated_at = now;
}

-- What `AddPlayer` has checked, when it succeeds.
pub record CanJoin (r : Room) (player : Player) : Type 0 where
  pub named : player.name ≢ ""
  pub open_room : r.status ≡ waiting
  pub place : length r.players < 4
  pub fresh_name : All (λ y. y ≢ player.name) (names r.players)

-- The four checks, each as what it asks for.
name-ok : (name : String) → str_eq name "" ≡ false → name ≢ ""
name-ok name h e = cc ((eq_iff name "").1 e)

pub waiting-ok : (status : GameStatus) → not (is_waiting status) ≡ false → status ≡ waiting
waiting-ok waiting h = refl
waiting-ok active h = cc
waiting-ok finished h = cc

place-ok :
    (players : List Player)
    → IsNonNeg (length players)
    → le_int (length all_roles) (length players) ≡ false
    → length players < 4
place-ok players small h = ground (arith, le_int-small 4 (length players) (omega arith) small)

has_name-accepts :
    (name : String) (players : List Player)
    → All (λ y. y ≢ name) (names players)
    → has_name name players ≡ false
unfolding has_name
has_name-accepts name [] h = refl
has_name-accepts name (p ∷ rest) h =
    ground (arith, eq_iff p.name name, has_name-accepts name rest h.1)

add_player_sound :
    (r r' : Room) (player : Player) (now : Time)
    → IsNonNeg (length r.players)
    → add_player r player now ≡ ok r'
    → CanJoin r player × (r' ≡ with_player r player now)
unfolding add_player
add_player_sound r r' player now small e =
    let (a, e1) = >>-eq-ok (reject_if (str_eq player.name "") _) _ e in
    let (b, e2) = >>-eq-ok (reject_if (not (is_waiting r.status)) _) _ e1 in
    let (c, e3) = >>-eq-ok (reject_if (le_int (length all_roles) (length r.players)) _) _ e2 in
    let (d, e4) = >>-eq-ok (reject_if (has_name player.name r.players) _) _ e3 in
    (
      record {
        named = name-ok player.name (reject_if-eq-ok (str_eq player.name "") _ a);
        open_room = waiting-ok r.status (reject_if-eq-ok (not (is_waiting r.status)) _ b);
        place = place-ok r.players small (reject_if-eq-ok _ _ c);
        fresh_name =
            has_name-false player.name r.players
              (reject_if-eq-ok (has_name player.name r.players) _ d);
      },
      sym (cc e4),
    )

name-accepts : (name : String) → name ≢ "" → str_eq name "" ≡ false
name-accepts name h = elim (Bool-cases (str_eq name "")) [
  | inl e ↦ absurd (h ((eq_iff name "").0 e))
  | inr e ↦ e
]

place-accepts : (n : ℕ) → n < 4 → leb 4 n ≡ false
place-accepts n h = ground arith

add_player_complete :
    (r : Room) (player : Player) (now : Time)
    → CanJoin r player
    → add_player r player now ≡ ok (with_player r player now)
unfolding add_player
add_player_complete r player now c =
    rw
      (
        name-accepts player.name c.named,
        has_name-accepts player.name r.players c.fresh_name,
        le_int-small 4 (length r.players) (omega arith) (omega (arith, c.place)),
        place-accepts (length r.players) c.place,
      )
      (ground (arith, c.open_room))

-- `AddPlayer` succeeds exactly for a named player with a new name, in a waiting room with a free
-- place; then the player is added at the end of the list.
pub add_player_iff :
    (r r' : Room) (player : Player) (now : Time)
    → IsNonNeg (length r.players)
    → ((add_player r player now ≡ ok r') ↔ (CanJoin r player × (r' ≡ with_player r player now)))
add_player_iff r r' player now small = (
  add_player_sound r r' player now small,
  λ (c, e). add_player_complete r player now c ∙ ap ok (sym e),
)

holders-append :
    (role : Role) (ps qs : List Player)
    → holders role (ps ++ qs) ≡ holders role ps + holders role qs
unfolding holders
holders-append role [] qs = omega arith
holders-append role (p ∷ ps) qs = omega (arith, holders-append role ps qs)

-- A player who joins with a new id and no role leaves a valid room.
pub with_player-IsValid :
    (r : Room) (player : Player) (now : Time)
    → IsValid r
    → CanJoin r player
    → All (λ y. y ≢ player.id) (ids r.players)
    → player.role ≡ unassigned
    → IsValid (with_player r player now)
unfolding holders
with_player-IsValid r player now v c fresh none = record {
  few = omega (arith, length-append r.players (joined player now ∷ []), c.place);
  distinct_ids =
      rw (map-append _ r.players (joined player now ∷ []))
        (Distinct-snoc (ids r.players) player.id v.distinct_ids fresh);
  distinct_names =
      rw (map-append _ r.players (joined player now ∷ []))
        (Distinct-snoc (names r.players) player.name v.distinct_names c.fresh_name);
  named = All-append (λ p. p.name ≢ "") r.players (joined player now ∷ []) v.named (c.named, tt);
  roles =
      All-append (λ p. RoleIsValid p.role) r.players (joined player now ∷ []) v.roles
        (inl (ap (λ role. role_eq role unassigned) none ∙ role_eq_refl unassigned), tt);
  unshared = λ role k. omega (
    arith,
    holders-append role r.players (joined player now ∷ []),
    v.unshared role k,
    bit-unassigned player.role role
        (ap (λ role. role_eq role unassigned) none ∙ role_eq_refl unassigned) k,
  );
  weeks = v.weeks;
  before_start = v.before_start;
  full = λ n. absurd (n c.open_room);
  staffed = λ n. absurd (n c.open_room);
}
