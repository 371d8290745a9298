-- ===== src/Domain/Room/HandOut.antt =====
-- The roles left, as `EnsureRolesAssigned` of internal/domain/room.go hands them out.
use supply_chain_game.Prelude.{
  append_assoc, ◌+◌, ◌<◌, ◌^◌, ◌≡◌, refl, sym, ◌∙◌, ap, true, false, List, [], ◌∷◌, ◌++◌, arith,
  Bool-cases, inl, inr, length, All, length-append, get_elem?, some, get_elem?-append_right, ◌⊎◌,
}
use supply_chain_game.Word.{GoInt, IsNonNeg, add_int-small}
use supply_chain_game.Result.{ok}
use supply_chain_game.Domain.Role.{
  Role, factory, distributor, wholesaler, retailer, unassigned, role_eq, is_known_role, IsKnown,
  all_roles,
}
use supply_chain_game.Domain.Room.{Player, Used, collect_used, available_roles, assign_missing}
use supply_chain_game.Domain.Room.Holders.{bit, bit-unassigned, holders, count_role, RoleIsValid}
use supply_chain_game.Domain.Room.Used.{
  missing, collect_used-holders, assigned, collect_used-total, length-available_roles,
}

-- The player keeps everything but an empty role.
abbrev pub Keeps : Player → Player → Type 0
Keeps p q =
    (q ≡ record p { role = q.role }) × ((role_eq p.role unassigned ≡ true) ⊎ (q.role ≡ p.role))

-- Player by player.
abbrev pub AllKeep : List Player → List Player → Type 0
AllKeep [] [] = Unit
AllKeep (p ∷ ps) (q ∷ qs) = Keeps p q × AllKeep ps qs
AllKeep _ _ = ⊥

-- What the hand-out achieves: the roles `after` go to the players that lack one.
pub record HandsOut (players assigned_players : List Player) (after : List Role) : Type 0 where
  pub keeps : AllKeep players assigned_players
  pub counts :
      (r : Role) → IsKnown r → holders r assigned_players ≡ holders r players + count_role r after
  pub known :
      All (λ p. RoleIsValid p.role) players
      → All IsKnown after
      → All (λ p. IsKnown p.role) assigned_players

pub held-IsKnown : (role : Role) → RoleIsValid role → role_eq role unassigned ≡ false → IsKnown role
held-IsKnown role (inl lacks) h = cc
held-IsKnown role (inr known) h = known

assign_missing-kept :
    (p : Player) (rest after : List Player) (available : List Role) (next : GoInt)
    → role_eq p.role unassigned ≡ false
    → assign_missing rest available next ≡ ok after
    → assign_missing (p ∷ rest) available next ≡ ok (p ∷ after)
unfolding assign_missing
assign_missing-kept p rest after available next holds e = rw (holds, e)

assign_missing-given :
    (p : Player) (rest after : List Player) (available : List Role) (next : GoInt) (role : Role)
    → role_eq p.role unassigned ≡ true
    → get_elem? available next ≡ some role
    → next + 1 < 2 ^ 63
    → assign_missing rest available (next + 1) ≡ ok after
    → assign_missing (p ∷ rest) available next ≡ ok (record p { role = role } ∷ after)
unfolding assign_missing
assign_missing-given p rest after available next role lacks here small e =
    rw (lacks, here, add_int-small next 1 small, e)

-- With a role at hand for each player that lacks one, the loop hands all of them out, and the
-- index never leaves the slice.
pub assign_missing-HandsOut :
    (players : List Player) (before after available : List Role) (next : GoInt)
    → missing players ≡ length after
    → available ≡ before ++ after
    → next ≡ length before
    → IsNonNeg (length before + length after)
    → (assigned_players : List Player) × (assign_missing players available next
        ≡ ok assigned_players)
      × HandsOut players assigned_players after
unfolding missing assign_missing holders count_role
assign_missing-HandsOut [] before [] available next h ea en b =
    ([], refl, record { keeps = tt; counts = λ r k. omega arith; known = λ v k. tt })
assign_missing-HandsOut [] before (role ∷ after) available next h ea en b = absurd (omega arith)
assign_missing-HandsOut (p ∷ rest) before [] available next h ea en b =
    elim (Bool-cases (role_eq p.role unassigned)) [
      | inl lacks ↦ absurd (omega (arith, ap bit lacks))
      | inr holds ↦
          let (ps, e, d) =
            assign_missing-HandsOut rest before [] available next (omega (arith, ap bit holds)) ea
              en b in
          (
            p ∷ ps,
            assign_missing-kept p rest ps available next holds e,
            record {
              keeps = ((refl, inr refl), d.keeps);
              counts = λ r k. omega (arith, d.counts r k);
              known = λ v k. (held-IsKnown p.role v.0 holds, d.known v.1 k);
            },
          )
    ]
assign_missing-HandsOut (p ∷ rest) before (role ∷ after) available next h ea en b =
    elim (Bool-cases (role_eq p.role unassigned)) [
      | inl lacks ↦
          let (ps, e, d) =
            assign_missing-HandsOut rest (before ++ role ∷ []) after available (next + 1)
              (omega (arith, ap bit lacks)) (ea ∙ sym (append_assoc before (role ∷ []) after))
              (omega (arith, length-append before (role ∷ [])))
              (omega (arith, length-append before (role ∷ []))) in
          let here : get_elem? available next ≡ some role =
            rw ea (get_elem?-append_right before (role ∷ after) 0 next (omega arith)) in
          (
            record p { role = role } ∷ ps,
            assign_missing-given p rest ps available next role lacks here (omega arith) e,
            record {
              keeps = ((refl, inl lacks), d.keeps);
              counts = λ r k. omega (arith, d.counts r k, bit-unassigned p.role r lacks k);
              known = λ v k. (k.0, d.known v.1 k.1);
            },
          )
      | inr holds ↦
          let (ps, e, d) =
            assign_missing-HandsOut rest before (role ∷ after) available next
              (omega (arith, ap bit holds)) ea en b in
          (
            p ∷ ps,
            assign_missing-kept p rest ps available next holds e,
            record {
              keeps = ((refl, inr refl), d.keeps);
              counts = λ r k. omega (arith, d.counts r k);
              known = λ v k. (held-IsKnown p.role v.0 holds, d.known v.1 k);
            },
          )
    ]

pub available_roles-IsKnown : (used : Used) → All IsKnown (available_roles used all_roles)
unfolding available_roles is_known_role
available_roles-IsKnown used = ground arith

-- Of four players, as many lack a role as there are roles left.
pub missing-length :
    (players : List Player) (marked : Used)
    → length players ≡ 4
    → collect_used players (λ _. false) ≡ ok marked
    → missing players ≡ length (available_roles marked all_roles)
unfolding is_known_role assigned
missing-length players marked h e =
    let used =
      λ (r : Role) (k : IsKnown r). collect_used-holders players (λ _. false) marked r e k in
    omega (
      arith,
      collect_used-total players (λ _. false) marked e,
      length-available_roles marked,
      used factory refl,
      used distributor refl,
      used wholesaler refl,
      used retailer refl,
    )
