-- ===== src/Domain/Room/WithRole.antt =====
-- A room in which one player has been given a role.
use text.Mathlib.Text.{◌==◌ as str_eq}
use text.Mathlib.TextEquality.{eq_iff}
use supply_chain_game.Prelude.{
  suc, ◌≤◌, ◌≡◌, ◌≢◌, refl, ap, subst, false, List, [], ◌∷◌, arith, length, All, Distinct, String,
  Bool-cases, inl, inr,
}
use supply_chain_game.Word.{Time}
use supply_chain_game.Domain.Role.{Role, IsKnown, role_eq, role_eq_refl, role_eq→eq}
use supply_chain_game.Domain.Room.{Player, Room, waiting}
use supply_chain_game.Domain.Room.Holders.{holders, RoleIsValid, bit}
use supply_chain_game.Domain.Room.Invariant.{IsValid, names, ids}
use supply_chain_game.Domain.Room.FindPlayer.{
  taken, with_role, IsAbsent, with_role-absent, holders-absent, taken-rest-here, taken-rest,
}

pub ids-with_role :
    (player_id : String) (role : Role) (players : List Player)
    → ids (with_role player_id role players) ≡ ids players
unfolding with_role
ids-with_role player_id role [] = refl
ids-with_role player_id role (p ∷ rest) = ground (arith, ids-with_role player_id role rest)

names-with_role :
    (player_id : String) (role : Role) (players : List Player)
    → names (with_role player_id role players) ≡ names players
unfolding with_role
names-with_role player_id role [] = refl
names-with_role player_id role (p ∷ rest) = ground (arith, names-with_role player_id role rest)

length-with_role :
    (player_id : String) (role : Role) (players : List Player)
    → length (with_role player_id role players) ≡ length players
unfolding with_role
length-with_role player_id role [] = refl
length-with_role player_id role (p ∷ rest) = ap suc (length-with_role player_id role rest)

-- What holds of each player's name or role alone.
All-with_role {κ} :
    (P : String → Role → Type κ) (player_id : String) (role : Role) (players : List Player)
    → ((p : Player) → P p.name p.role → P p.name role)
    → All (λ p. P p.name p.role) players
    → All (λ p. P p.name p.role) (with_role player_id role players)
unfolding with_role
All-with_role P player_id role [] keep h = tt
All-with_role P player_id role (p ∷ rest) keep h = (
  elim (Bool-cases (str_eq p.id player_id)) [
    | inl same ↦ rw same (keep p h.0)
    | inr other ↦ rw other h.0
  ],
  All-with_role P player_id role rest keep h.1,
)

-- The role itself has at most one holder after it was free.
holders-with_role_self :
    (player_id : String) (role : Role) (players : List Player)
    → Distinct (ids players)
    → taken player_id role players ≡ false
    → holders role (with_role player_id role players) ≤ 1
unfolding with_role holders
holders-with_role_self player_id role [] d t = omega arith
holders-with_role_self player_id role (p ∷ rest) d t = elim (Bool-cases (str_eq p.id player_id)) [
  | inl same ↦
      let away : IsAbsent player_id rest =
        subst (λ s. IsAbsent s rest) ((eq_iff p.id player_id).0 same) d.0 in
      rw (same, with_role-absent player_id role rest away)
        (omega (
          arith,
          ap bit (role_eq_refl role),
          holders-absent player_id role rest away (taken-rest-here player_id role p rest same t),
        ))
  | inr other ↦
      let free = taken-rest player_id role p rest other t in
      rw (other, free.0) (omega (arith, holders-with_role_self player_id role rest d.1 free.1))
]

holders-with_role_ne :
    (player_id : String) (role other : Role) (players : List Player)
    → role_eq role other ≡ false
    → holders other (with_role player_id role players) ≤ holders other players
unfolding with_role holders
holders-with_role_ne player_id role other [] h = omega arith
holders-with_role_ne player_id role other (p ∷ rest) h =
    ground (arith, holders-with_role_ne player_id role other rest h)

-- Giving a free role of the game to a player keeps a waiting room valid.
pub with_role-IsValid :
    (r : Room) (player_id : String) (role : Role) (now : Time)
    → IsValid r
    → r.status ≡ waiting
    → IsKnown role
    → taken player_id role r.players ≡ false
    → IsValid (record r { players = with_role player_id role r.players; updated_at = now })
with_role-IsValid r player_id role now v w known free = record {
  few = rw (length-with_role player_id role r.players) v.few;
  distinct_ids = rw (ids-with_role player_id role r.players) v.distinct_ids;
  distinct_names = rw (names-with_role player_id role r.players) v.distinct_names;
  named = All-with_role (λ name _. name ≢ "") player_id role r.players (λ p h. h) v.named;
  roles =
      All-with_role (λ _ held. RoleIsValid held) player_id role r.players (λ p h. inr known)
        v.roles;
  unshared = λ other k. elim (Bool-cases (role_eq role other)) [
    | inl same ↦
        subst (λ x. holders x (with_role player_id role r.players) ≤ 1) (role_eq→eq role other same)
          (holders-with_role_self player_id role r.players v.distinct_ids free)
    | inr different ↦
        omega
          (arith, holders-with_role_ne player_id role other r.players different, v.unshared other k)
  ];
  weeks = v.weeks;
  before_start = v.before_start;
  full = λ n. absurd (n w);
  staffed = λ n. absurd (n w);
}
