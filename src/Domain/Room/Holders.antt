-- ===== src/Domain/Room/Holders.antt =====
-- Who holds a role: the counts that the invariant of a room speaks of.
use supply_chain_game.Prelude.{ℕ, ◌+◌, ◌≡◌, ◌⊎◌, refl, Bool, true, false, List, [], ◌∷◌}
use supply_chain_game.Domain.Role.{
  Role, factory, distributor, wholesaler, retailer, unassigned, unknown, role_eq, role_eq→eq,
  is_known_role, IsKnown,
}
use supply_chain_game.Domain.Room.{Player}

abbrev pub bit : Bool → ℕ
bit true = 1
bit false = 0

-- How many players have the role.
unfoldable pub holders : Role → List Player → ℕ
holders role [] = 0
holders role (p ∷ rest) = bit (role_eq p.role role) + holders role rest

-- How often a role is in a list.
unfoldable pub count_role : Role → List Role → ℕ
count_role role [] = 0
count_role role (r ∷ rest) = bit (role_eq r role) + count_role role rest

-- A role that a player may have: one of the four, or none.
abbrev pub RoleIsValid : Role → Type 0
RoleIsValid role = (role_eq role unassigned ≡ true) ⊎ IsKnown role

pub known-ne-unassigned : (r : Role) → IsKnown r → role_eq unassigned r ≡ false
unfolding role_eq is_known_role
known-ne-unassigned factory h = refl
known-ne-unassigned distributor h = refl
known-ne-unassigned wholesaler h = refl
known-ne-unassigned retailer h = refl
known-ne-unassigned unassigned h = cc
known-ne-unassigned (unknown s) h = refl

pub bit-unassigned :
    (role r : Role) → role_eq role unassigned ≡ true → IsKnown r → bit (role_eq role r) ≡ 0
bit-unassigned role r lacks k = rw (role_eq→eq role unassigned lacks, known-ne-unassigned r k)
