-- ===== src/Usecase/Decisions/Ready.antt =====
-- When a snapshot says that the week is ready.
use supply_chain_game.Prelude.{
  ℕ, suc, ◌+◌, ◌≡◌, ◌↔◌, refl, true, List, [], ◌∷◌, ◌++◌, none, some, arith, length, length-snoc,
  All, inl, inr, Option-cases,
}
use supply_chain_game.Word.{GoInt}
use supply_chain_game.Domain.Role.{Role, all_roles}
use supply_chain_game.Domain.RoleMap.{RoleMap, lookup}
use supply_chain_game.Usecase.Decisions.{WeeklyDecisions, split_roles, snapshot}

-- A role with an order.
abbrev pub HasOrder : RoleMap → Role → Type 0
HasOrder orders role = (order : GoInt) × (lookup role orders ≡ some order)

missing : RoleMap → List Role → ℕ
missing orders [] = 0
missing orders (role ∷ rest) = elim (lookup role orders) [
  | none ↦ suc (missing orders rest)
  | some _ ↦ missing orders rest
]

missing-without :
    (orders : RoleMap) (role : Role) (rest : List Role)
    → lookup role orders ≡ none
    → missing orders (role ∷ rest) ≡ suc (missing orders rest)
unfolding missing
missing-without orders role rest e = rw (missing, e) refl

missing-with :
    (orders : RoleMap) (role : Role) (rest : List Role)
    → HasOrder orders role
    → missing orders (role ∷ rest) ≡ missing orders rest
unfolding missing
missing-with orders role rest (v, e) = rw (missing, e) refl

pub split-without :
    (orders : RoleMap) (role : Role) (rest submitted pending : List Role)
    → lookup role orders ≡ none
    → split_roles orders (role ∷ rest) submitted pending
      ≡ split_roles orders rest submitted (pending ++ role ∷ [])
unfolding split_roles
split-without orders role rest submitted pending e = rw (split_roles, e) refl

pub split-with :
    (orders : RoleMap) (role : Role) (rest submitted pending : List Role)
    → HasOrder orders role
    → split_roles orders (role ∷ rest) submitted pending
      ≡ split_roles orders rest (submitted ++ role ∷ []) pending
unfolding split_roles
split-with orders role rest submitted pending (v, e) = rw (split_roles, e) refl

length-pending :
    (orders : RoleMap) (roles submitted pending : List Role)
    → length (split_roles orders roles submitted pending).1 ≡ length pending + missing orders roles
unfolding split_roles missing
length-pending orders [] submitted pending = omega arith
length-pending orders (role ∷ rest) submitted pending = elim (Option-cases (lookup role orders)) [
  | inl e ↦
      rw (split-without orders role rest submitted pending e, missing-without orders role rest e)
        (omega (
          arith,
          length-pending orders rest submitted (pending ++ role ∷ []),
          length-snoc pending role,
        ))
  | inr found ↦
      rw (split-with orders role rest submitted pending found, missing-with orders role rest found)
        (length-pending orders rest (submitted ++ role ∷ []) pending)
]

missing-none :
    (orders : RoleMap) (roles : List Role) → missing orders roles ≡ 0 → All (HasOrder orders) roles
missing-none orders [] h = tt
missing-none orders (role ∷ rest) h = elim (Option-cases (lookup role orders)) [
  | inl e ↦ absurd (omega (arith, h, missing-without orders role rest e))
  | inr found ↦
      (found, missing-none orders rest (omega (arith, h, missing-with orders role rest found)))
]

none-missing :
    (orders : RoleMap) (roles : List Role) → All (HasOrder orders) roles → missing orders roles ≡ 0
unfolding missing
none-missing orders [] h = refl
none-missing orders (role ∷ rest) (found, h) =
    omega (arith, none-missing orders rest h, missing-with orders role rest found)

-- The snapshot of a week is ready exactly when each of the four roles has an order.
pub snapshot_iff :
    (d : WeeklyDecisions) → ((snapshot d).ready ≡ true) ↔ All (HasOrder d.orders) all_roles
unfolding snapshot
snapshot_iff d =
    let counted = length-pending d.orders all_roles [] [] in
    (
      λ ready. missing-none d.orders all_roles (ground (arith, counted, ready)),
      λ all_in. ground (arith, counted, none-missing d.orders all_roles all_in),
    )
