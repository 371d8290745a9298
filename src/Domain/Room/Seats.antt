-- ===== src/Domain/Room/Seats.antt =====
-- `RoleOfPlayer` of internal/domain/room.go in a room where every role is taken.
use supply_chain_game.Prelude.{
  ℕ, suc, ◌≤◌, ◌≡◌, refl, sym, List, [], ◌∷◌, some, arith, Distinct, String, get_elem?,
  All-get_elem?, Bool-cases, inl, inr, ◌∙◌, ◌≢◌, ap, false,
}
use text.Mathlib.TextPositions.{eq_refl}
use supply_chain_game.Prelude.Texts.{not_equal}
use supply_chain_game.Result.{ok}
use supply_chain_game.Domain.Role.{
  Role, factory, distributor, wholesaler, retailer, unknown, IsKnown, is_known_role, unassigned,
  role_eq, role_eq→eq,
}
use supply_chain_game.Domain.Room.{Player, Room, role_of, role_of_player}
use supply_chain_game.Domain.Room.Holders.{bit, holders}
use supply_chain_game.Domain.Room.Invariant.{ids}

known-assigned : (r : Role) → IsKnown r → role_eq r unassigned ≡ false
unfolding role_eq is_known_role
known-assigned factory h = refl
known-assigned distributor h = refl
known-assigned wholesaler h = refl
known-assigned retailer h = refl
known-assigned unassigned h = cc
known-assigned (unknown s) h = refl

held-by : (p : Player) (rest : List Player) → IsKnown p.role → role_of p.id (p ∷ rest) ≡ ok p.role
unfolding role_of
held-by p rest known = rw (eq_refl p.id, known-assigned p.role known) refl

held-later :
    (p : Player) (rest : List Player) (id : String)
    → id ≢ p.id
    → role_of id (p ∷ rest) ≡ role_of id rest
unfolding role_of
held-later p rest id other = rw (not_equal (λ (e : p.id ≡ id). other (sym e))) refl

-- A player who has the role, found under the identifier.
seat_among :
    (role : Role) (ps : List Player)
    → IsKnown role
    → Distinct (ids ps)
    → 1 ≤ holders role ps
    → (id : String) × (k : ℕ) × (get_elem? (ids ps) k ≡ some id) × (role_of id ps ≡ ok role)
unfolding holders role_of
seat_among role [] known distinct some_one = absurd (omega (arith, some_one))
seat_among role (p ∷ rest) known distinct some_one = elim (Bool-cases (role_eq p.role role)) [
  | inl same ↦
      let e : p.role ≡ role = role_eq→eq p.role role same in
      (p.id, 0, refl, held-by p rest (rw e known) ∙ ap ok e)
  | inr other ↦
      let (id, k, there, plays) =
        seat_among role rest known distinct.1 (omega (arith, some_one, ap bit other)) in
      let later : id ≢ p.id = All-get_elem? (λ y. y ≢ p.id) (ids rest) k distinct.0 there in
      (id, suc k, there, held-later p rest id later ∙ plays)
]

module _ (room : Room) (distinct : Distinct (ids room.players))
    (one_each : (role : Role) → IsKnown role → holders role room.players ≡ 1) where
  seat :
      (role : Role)
      → IsKnown role
      → (id : String) × (k : ℕ) × (get_elem? (ids room.players) k ≡ some id)
        × (role_of id room.players ≡ ok role)
  seat role known = seat_among role room.players known distinct (omega (arith, one_each role known))

  -- The identifier of the player who has the role.
  pub seats : Role → String
  unfolding is_known_role
  seats factory = (seat factory refl).0
  seats distributor = (seat distributor refl).0
  seats wholesaler = (seat wholesaler refl).0
  seats retailer = (seat retailer refl).0
  seats _ = ""

  pub role_of_player-seats :
      (role : Role) → IsKnown role → role_of_player room (seats role) ≡ ok role
  unfolding role_of_player is_known_role seats
  role_of_player-seats factory known = (seat factory refl).3
  role_of_player-seats distributor known = (seat distributor refl).3
  role_of_player-seats wholesaler known = (seat wholesaler refl).3
  role_of_player-seats retailer known = (seat retailer refl).3
  role_of_player-seats unassigned known = cc
  role_of_player-seats (unknown text) known = cc
