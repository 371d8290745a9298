-- ===== src/Usecase/Decisions/Filled.antt =====
-- How many orders of a week are in: the length of the map, by which `AdvanceWeek` sees that all are.
use supply_chain_game.Prelude.{
  ℕ, suc, ◌+◌, ◌≡◌, refl, [], ◌∷◌, Option, none, some, arith, length, Bool-cases, inl, inr,
}
use supply_chain_game.Word.{GoInt}
use supply_chain_game.Domain.Role.{
  Role, factory, distributor, wholesaler, retailer, unassigned, unknown, role_eq, is_known_role,
  IsKnown,
}
use supply_chain_game.Domain.RoleMap.{RoleMap, lookup, insert, lookup-insert}
use supply_chain_game.Usecase.Decisions.Ready.{HasOrder}

abbrev bit_of : Option GoInt → ℕ
bit_of none = 0
bit_of (some order) = 1

-- How many of the four roles have an order.
abbrev filled : RoleMap → ℕ
filled m =
    bit_of (lookup factory m)
    + bit_of (lookup distributor m)
    + bit_of (lookup wholesaler m)
    + bit_of (lookup retailer m)

-- Every entry of the map is that of one of the four roles, and no role has two.
abbrev pub IsCounted : RoleMap → Type 0
IsCounted m = length m ≡ filled m

pub empty-IsCounted : IsCounted []
unfolding lookup
empty-IsCounted = refl

-- A new entry makes the map longer, an old one does not.
length-insert :
    (role : Role) (order : GoInt) (m : RoleMap)
    → length (insert role order m) + bit_of (lookup role m) ≡ suc (length m)
unfolding insert lookup
length-insert role order [] = refl
length-insert role order ((r, v) ∷ rest) = elim (Bool-cases (role_eq r role)) [
  | inl same ↦ rw same (omega arith)
  | inr other ↦ rw other (omega (arith, length-insert role order rest))
]

-- So for the roles with an order.
filled-insert :
    (role : Role) (order : GoInt) (m : RoleMap)
    → IsKnown role
    → filled (insert role order m) + bit_of (lookup role m) ≡ suc (filled m)
unfolding role_eq is_known_role
filled-insert factory order m known = simp lookup-insert (omega arith)
filled-insert distributor order m known = simp lookup-insert (omega arith)
filled-insert wholesaler order m known = simp lookup-insert (omega arith)
filled-insert retailer order m known = simp lookup-insert (omega arith)
filled-insert unassigned order m known = cc
filled-insert (unknown t) order m known = cc

pub insert-IsCounted :
    (role : Role) (order : GoInt) (m : RoleMap)
    → IsKnown role
    → IsCounted m
    → IsCounted (insert role order m)
insert-IsCounted role order m known counted =
    omega (arith, length-insert role order m, filled-insert role order m known)

-- With an order of each role there are four entries.
pub filled-four :
    (m : RoleMap) → IsCounted m → ((role : Role) → IsKnown role → HasOrder m role) → length m ≡ 4
unfolding is_known_role
filled-four m counted all =
    let (f, in_f) = all factory refl in
    let (d, in_d) = all distributor refl in
    let (w, in_w) = all wholesaler refl in
    let (r, in_r) = all retailer refl in rw (in_f, in_d, in_w, in_r) at counted
