-- ===== src/Domain/RoleMap.antt =====
-- `map[Role]int`, as a list of its entries with distinct keys.
use supply_chain_game.Prelude.{
  ◌≡◌, refl, true, false, List, [], ◌∷◌, Option, none, some, arith, if◌then◌else◌, Bool-cases, inl,
  inr,
}
use supply_chain_game.Word.{GoInt}
use supply_chain_game.Domain.Role.{Role, role_eq, role_eq→eq}

abbrev pub RoleMap : Type 0
RoleMap = List (Role × GoInt)

-- `value, ok := m[role]`
unfoldable pub lookup : Role → RoleMap → Option GoInt
lookup role [] = none
lookup role ((r, v) ∷ rest) = if role_eq r role then some v else lookup role rest

-- `m[role]`, which is 0 for a missing key.
unfoldable pub get_or_zero : Role → RoleMap → GoInt
get_or_zero role m = elim (lookup role m) [ none ↦ 0 | some v ↦ v ]

-- `m[role] = value`
unfoldable pub insert : Role → GoInt → RoleMap → RoleMap
insert role value [] = (role, value) ∷ []
insert role value ((r, v) ∷ rest) =
    if role_eq r role then (role, value) ∷ rest else (r, v) ∷ insert role value rest

-- Two keys that differ are not both the key that is looked up.
apart :
    (role other r : Role)
    → role_eq r role ≡ false
    → role_eq role other ≡ true
    → role_eq r other ≡ false
apart role other r different hit = rw (← role_eq→eq role other hit) different

pub lookup-insert :
    (role other : Role) (value : GoInt) (m : RoleMap)
    → lookup other (insert role value m)
      ≡ (if role_eq role other then some value else lookup other m)
unfolding lookup insert
lookup-insert role other value [] = refl
lookup-insert role other value ((r, v) ∷ rest) = elim (Bool-cases (role_eq r role)) [
  | inl same ↦ rw (same, role_eq→eq r role same) (ground arith)
  | inr different ↦
      rw (different, lookup-insert role other value rest)
        (ground (arith, apart role other r different))
]
