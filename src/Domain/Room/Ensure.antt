-- ===== src/Domain/Room/Ensure.antt =====
-- `EnsureRolesAssigned` and `Start`: with four players every role ends up with exactly one of them.
use supply_chain_game.Prelude.{
  ◌+◌, ◌≤◌, ◌≡◌, refl, ap, Bool, true, false, List, [], ◌∷◌, arith, Bool-cases, inl, inr, length,
  All,
}
use supply_chain_game.Word.{Time}
use supply_chain_game.Result.{ok}
use supply_chain_game.Domain.Role.{Role, unassigned, role_eq, role_eq_refl, IsKnown, all_roles}
use supply_chain_game.Domain.Room.{
  Player, Room, waiting, active, Used, mark_used, collect_used, available_roles, assign_missing,
  start,
}
use supply_chain_game.Domain.Room.Holders.{bit, bit-unassigned, holders, RoleIsValid}
use supply_chain_game.Domain.Room.Used.{
  bit-mark_used, collect_used-holders, length-available_roles, count_role-available_roles,
}
use supply_chain_game.Domain.Room.HandOut.{
  AllKeep, held-IsKnown, assign_missing-HandsOut, available_roles-IsKnown, missing-length,
}

-- Whenever the roles in use pass the check, there is a role for everybody, and each of the four
-- goes to exactly one player.
pub record IsStaffed (before after : List Player) : Type 0 where
  pub keeps : AllKeep before after
  pub one_each : (r : Role) → IsKnown r → holders r after ≡ 1
  pub known : All (λ p. IsKnown p.role) after

pub hand_out-IsStaffed :
    (players : List Player) (marked : Used)
    → length players ≡ 4
    → All (λ p. RoleIsValid p.role) players
    → collect_used players (λ _. false) ≡ ok marked
    → (after : List Player) × (assign_missing players (available_roles marked all_roles) 0
        ≡ ok after)
      × IsStaffed players after
hand_out-IsStaffed players marked h v e =
    let used = collect_used-holders players (λ _. false) marked in
    let len = missing-length players marked h e in
    let free = available_roles marked all_roles in
    let (after, ea, d) =
      assign_missing-HandsOut players [] free free 0 len refl refl
        (omega (arith, length-available_roles marked)) in
    (
      after,
      ea,
      record {
        keeps = d.keeps;
        known = d.known v (available_roles-IsKnown marked);
        one_each =
            λ r k. omega (arith, d.counts r k, used r e k, count_role-available_roles marked r k);
      },
    )

bit-zero : (b : Bool) → bit b ≤ 0 → b ≡ false
bit-zero false h = refl
bit-zero true h = absurd (omega arith)

-- A role that no two players share is collected without an error.
collect_used-succeeds :
    (players : List Player) (used : Used)
    → All (λ p. RoleIsValid p.role) players
    → ((r : Role) → IsKnown r → bit (used r) + holders r players ≤ 1)
    → (marked : Used) × (collect_used players used ≡ ok marked)
unfolding collect_used holders
collect_used-succeeds [] used v h = (used, refl)
collect_used-succeeds (p ∷ rest) used v h = elim (Bool-cases (role_eq p.role unassigned)) [
  | inl lacks ↦
      let (marked, e) =
        collect_used-succeeds rest used v.1
          (λ r k. omega (arith, h r k, bit-unassigned p.role r lacks k)) in
      (marked, rw (lacks, e))
  | inr holds ↦
      let known = held-IsKnown p.role v.0 holds in
      let unused : used p.role ≡ false =
        bit-zero (used p.role) (omega (arith, h p.role known, ap bit (role_eq_refl p.role))) in
      let (marked, e) =
        collect_used-succeeds rest (mark_used used p.role) v.1
          (λ r k. omega (arith, h r k, bit-mark_used used p.role r unused)) in
      (marked, rw (holds, known, unused, e))
]

start_ok :
    (r : Room) (now : Time) (marked : Used) (after : List Player)
    → r.status ≡ waiting
    → length r.players ≡ 4
    → collect_used r.players (λ _. false) ≡ ok marked
    → assign_missing r.players (available_roles marked all_roles) 0 ≡ ok after
    → start r now
      ≡ ok (record r { players = after; status = active; current_week = 1; updated_at = now })
unfolding start
start_ok r now marked after hs hl em ea = rw (em, ea) (ground arith)

-- A waiting room of four, each with a role of the game or none and no role taken twice, starts: the players keep their ids,
-- names and chosen roles, and each role has exactly one of them.
pub start_succeeds :
    (r : Room) (now : Time)
    → r.status ≡ waiting
    → length r.players ≡ 4
    → All (λ p. RoleIsValid p.role) r.players
    → ((role : Role) → IsKnown role → holders role r.players ≤ 1)
    → (after : List Player) × (start r now
        ≡ ok (record r { players = after; status = active; current_week = 1; updated_at = now }))
      × IsStaffed r.players after
unfolding start
start_succeeds r now hs hl v h =
    let (marked, em) =
      collect_used-succeeds r.players (λ _. false) v (λ role k. omega (arith, h role k)) in
    let (after, ea, staffed) = hand_out-IsStaffed r.players marked hl v em in
    (after, start_ok r now marked after hs hl em ea, staffed)
