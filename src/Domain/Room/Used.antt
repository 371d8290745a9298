-- ===== src/Domain/Room/Used.antt =====
-- The roles in use, as `EnsureRolesAssigned` of internal/domain/room.go collects them.
use supply_chain_game.Prelude.{
  ℕ, ◌+◌, ◌≡◌, refl, true, false, List, [], ◌∷◌, arith, Bool-cases, inl, inr, length, ◌⊎◌,
}
use supply_chain_game.Result.{ok}
use supply_chain_game.Domain.Role.{
  Role, factory, distributor, wholesaler, retailer, unassigned, unknown, role_eq, role_eq→eq,
  is_known_role, IsKnown, all_roles,
}
use supply_chain_game.Domain.Room.{Player, Used, mark_used, collect_used, available_roles}
use supply_chain_game.Domain.Room.Holders.{bit, known-ne-unassigned, holders, count_role}

-- The players with no role.
unfoldable pub missing : List Player → ℕ
unfolding holders
missing players = holders unassigned players

-- One player more with a role that nobody had.
pub bit-mark_used :
    (used : Used) (role r : Role)
    → used role ≡ false
    → bit (mark_used used role r) ≡ bit (role_eq role r) + bit (used r)
unfolding mark_used
bit-mark_used used role r h = elim (Bool-cases (role_eq role r)) [
  | inl same ↦ rw (same, ← role_eq→eq role r same, h)
  | inr other ↦ rw other (omega arith)
]

-- What a round of the loop has checked, when the loop succeeds.
collect_used-cases :
    (p : Player) (rest : List Player) (used marked : Used)
    → collect_used (p ∷ rest) used ≡ ok marked
    → ((role_eq p.role unassigned ≡ true) × (collect_used rest used ≡ ok marked))
      ⊎ ((role_eq p.role unassigned ≡ false)
          × IsKnown p.role
          × (used p.role ≡ false)
          × (collect_used rest (mark_used used p.role) ≡ ok marked))
unfolding collect_used
collect_used-cases p rest used marked e = ground arith

-- A role is marked by the players that hold it, one at most.
pub collect_used-holders :
    (players : List Player) (used marked : Used) (r : Role)
    → collect_used players used ≡ ok marked
    → IsKnown r
    → bit (marked r) ≡ bit (used r) + holders r players
unfolding collect_used holders
collect_used-holders [] used marked r e k =
    let same : used ≡ marked = cc in rw (← same) (omega arith)
collect_used-holders (p ∷ rest) used marked r e k = elim (collect_used-cases p rest used marked e) [
  | inl (none, e') ↦
      let ih = collect_used-holders rest used marked r e' k in
      rw (role_eq→eq p.role unassigned none, known-ne-unassigned r k) (omega arith)
  | inr (holds, known, unused, e') ↦
      let ih = collect_used-holders rest (mark_used used p.role) marked r e' k in
      omega (arith, bit-mark_used used p.role r unused)
]

-- The four counts of a known role add up to one.
role_bits :
    (role : Role)
    → IsKnown role
    → bit (role_eq role factory)
        + bit (role_eq role distributor)
        + bit (role_eq role wholesaler)
        + bit (role_eq role retailer)
      ≡ 1
unfolding role_eq is_known_role
role_bits factory h = refl
role_bits distributor h = refl
role_bits wholesaler h = refl
role_bits retailer h = refl
role_bits unassigned h = cc
role_bits (unknown s) h = cc

unfoldable pub assigned : List Player → ℕ
unfolding holders
assigned players =
    holders factory players
    + holders distributor players
    + holders wholesaler players
    + holders retailer players

-- Every player has one of the four roles, or none.
pub collect_used-total :
    (players : List Player) (used marked : Used)
    → collect_used players used ≡ ok marked
    → missing players + assigned players ≡ length players
unfolding collect_used missing assigned holders role_eq
collect_used-total [] used marked e = refl
collect_used-total (p ∷ rest) used marked e = elim (collect_used-cases p rest used marked e) [
  | inl (none, e') ↦
      let ih = collect_used-total rest used marked e' in
      rw (role_eq→eq p.role unassigned none) (omega arith)
  | inr (holds, known, unused, e') ↦
      let ih = collect_used-total rest (mark_used used p.role) marked e' in
      rw holds (omega (arith, role_bits p.role known))
]

pub length-available_roles :
    (used : Used)
    → length (available_roles used all_roles)
        + bit (used factory)
        + bit (used distributor)
        + bit (used wholesaler)
        + bit (used retailer)
      ≡ 4
unfolding available_roles
length-available_roles used = ground arith

pub count_role-available_roles :
    (used : Used) (r : Role)
    → IsKnown r
    → count_role r (available_roles used all_roles) + bit (used r) ≡ 1
unfolding available_roles count_role is_known_role role_eq
count_role-available_roles used factory k = ground arith
count_role-available_roles used distributor k = ground arith
count_role-available_roles used wholesaler k = ground arith
count_role-available_roles used retailer k = ground arith
count_role-available_roles used unassigned k = cc
count_role-available_roles used (unknown s) k = cc
