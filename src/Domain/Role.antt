-- ===== src/Domain/Role.antt =====
-- `Role` of internal/domain/room.go, and maps from roles.
use supply_chain_game.Prelude.{
  ◌≡◌, refl, ap, Bool, true, false, List, [], ◌∷◌, String, if◌then◌else◌,
}
use text.Mathlib.Text.{◌==◌ as str_eq}
use text.Mathlib.TextEquality.{eq_iff}

-- The Go type is a string: the four constants, the empty string of a player with no role, and any
-- other text, which a request may hold.
pub data Role : Type 0 where
  factory distributor wholesaler retailer : Role
  unassigned : Role
  unknown : String → Role

-- `role == other`
unfoldable pub role_eq : Role → Role → Bool
role_eq factory factory = true
role_eq distributor distributor = true
role_eq wholesaler wholesaler = true
role_eq retailer retailer = true
role_eq unassigned unassigned = true
role_eq (unknown s) (unknown t) = str_eq s t
role_eq _ _ = false

abbrev pub all_roles : List Role
all_roles = factory ∷ distributor ∷ wholesaler ∷ retailer ∷ []

role_in : Role → List Role → Bool
unfolding role_eq
role_in role [] = false
role_in role (existing ∷ rest) = if role_eq existing role then true else role_in role rest

unfoldable pub is_known_role : Role → Bool
unfolding role_in
is_known_role role = role_in role all_roles

-- The text of a role, as `%s` prints it.
unfoldable pub role_text : Role → String
role_text factory = "factory"
role_text distributor = "distributor"
role_text wholesaler = "wholesaler"
role_text retailer = "retailer"
role_text unassigned = ""
role_text (unknown s) = s

pub role_eq_refl : (r : Role) → role_eq r r ≡ true
unfolding role_eq
role_eq_refl factory = refl
role_eq_refl distributor = refl
role_eq_refl wholesaler = refl
role_eq_refl retailer = refl
role_eq_refl unassigned = refl
role_eq_refl (unknown s) = (eq_iff s s).1 refl

pub role_eq→eq : (r s : Role) → role_eq r s ≡ true → r ≡ s
unfolding role_eq
role_eq→eq factory factory h = refl
role_eq→eq distributor distributor h = refl
role_eq→eq wholesaler wholesaler h = refl
role_eq→eq retailer retailer h = refl
role_eq→eq unassigned unassigned h = refl
role_eq→eq (unknown s) (unknown t) h = ap unknown ((eq_iff s t).0 h)
role_eq→eq _ _ h = cc

-- A role of a valid game.
abbrev pub IsKnown : Role → Type 0
IsKnown r = is_known_role r ≡ true
