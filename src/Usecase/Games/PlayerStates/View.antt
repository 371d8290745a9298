-- ===== src/Usecase/Games/PlayerStates/View.antt =====
-- What a player learns from `GetPlayerState` of internal/usecase/game_service.go.
use supply_chain_game.Prelude.{
  ◌≡◌, refl, sym, ◌∙◌, false, List, [], ◌∷◌, ◌++◌, none, some, inl, inr, Option-cases, Bool-cases,
}
use supply_chain_game.Word.{GoInt}
use supply_chain_game.Domain.Role.{Role, all_roles, role_eq, role_eq→eq}
use supply_chain_game.Domain.RoleMap.{RoleMap, lookup, insert, lookup-insert}
use supply_chain_game.Domain.Room.{Player, Room}
use supply_chain_game.Domain.Session.{GameSession}
use supply_chain_game.Usecase.Decisions.{WeeklyDecisions, split_roles, snapshot}
use supply_chain_game.Usecase.Decisions.Ready.{HasOrder, split-with, split-without}
use supply_chain_game.Usecase.Ports.{Ports}
use supply_chain_game.Usecase.Games.PlayerStates.{is_some, playing_state}

-- Two maps with the same keys.
SameKeys : RoleMap → RoleMap → Type 0
SameKeys m m' = (role : Role) → is_some (lookup role m) ≡ is_some (lookup role m')

keyed-none :
    (m m' : RoleMap) (role : Role) → SameKeys m m' → lookup role m ≡ none → lookup role m' ≡ none
unfolding is_some SameKeys
keyed-none m m' role same e = elim (Option-cases (lookup role m')) [
  | inl e' ↦ e'
  | inr (v, e') ↦ cc (same role, e, e')
]

keyed-some : (m m' : RoleMap) (role : Role) → SameKeys m m' → HasOrder m role → HasOrder m' role
unfolding is_some SameKeys
keyed-some m m' role same (v, e) = elim (Option-cases (lookup role m')) [
  | inl e' ↦ absurd (cc (same role, e, e'))
  | inr found ↦ found
]

-- The submitted and the pending roles depend on the keys only.
split_roles-SameKeys :
    (m m' : RoleMap) (roles submitted pending : List Role)
    → SameKeys m m'
    → split_roles m roles submitted pending ≡ split_roles m' roles submitted pending
unfolding split_roles
split_roles-SameKeys m m' [] submitted pending same = refl
split_roles-SameKeys m m' (role ∷ rest) submitted pending same =
    elim (Option-cases (lookup role m)) [
      | inl e ↦
          split-without m role rest submitted pending e
          ∙ (split_roles-SameKeys m m' rest submitted (pending ++ role ∷ []) same
              ∙ sym (split-without m' role rest submitted pending (keyed-none m m' role same e)))
      | inr found ↦
          split-with m role rest submitted pending found
          ∙ (split_roles-SameKeys m m' rest (submitted ++ role ∷ []) pending same
              ∙ sym (split-with m' role rest submitted pending (keyed-some m m' role same found)))
    ]

-- Another order of a role that has ordered keeps the keys.
insert-SameKeys :
    (m : RoleMap) (other : Role) (order : GoInt)
    → HasOrder m other
    → SameKeys m (insert other order m)
unfolding is_some SameKeys
insert-SameKeys m other order (v, e) role = elim (Bool-cases (role_eq other role)) [
  | inl hit ↦
      let here : lookup role m ≡ some v = rw (← role_eq→eq other role hit) e in
      rw (lookup-insert other role order m, hit, here) refl
  | inr miss ↦ rw (lookup-insert other role order m, miss) refl
]

module _ {R S D F : Type 0} (ports : Ports R S D F) where
  -- What another role orders stays hidden: once it has ordered, no player of a different role sees
  -- which order it was.
  pub playing_state-hides :
      (room : Room) (player : Player) (session : GameSession) (d : WeeklyDecisions) (other : Role)
      (order : GoInt)
      → role_eq other player.role ≡ false
      → HasOrder d.orders other
      → playing_state ports room player session
          (snapshot (record d { orders = insert other order d.orders }))
        ≡ playing_state ports room player session (snapshot d)
  unfolding playing_state snapshot
  playing_state-hides room player session d other order apart ordered =
      rw
        (
          ← split_roles-SameKeys d.orders (insert other order d.orders) all_roles [] []
              (insert-SameKeys d.orders other order ordered),
          lookup-insert other player.role order d.orders,
          apart,
        )
        refl
