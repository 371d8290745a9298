-- ===== src/Domain/Room/FindPlayer.antt =====
-- The loop of `AssignRole` of internal/domain/room.go: it finds the player, or a role that is taken.
use text.Mathlib.Text.{◌==◌ as str_eq}
use text.Mathlib.TextEquality.{eq_iff}
use supply_chain_game.Prelude.{
  ℕ, suc, ◌+◌, ◌<◌, ◌^◌, ◌≡◌, ◌≢◌, refl, ap, subst, ◌∙◌, Bool, true, false, List, [], ◌∷◌, arith,
  length, All, Distinct, String, Bool-cases, inl, inr, if◌then◌else◌, Option, some, get_elem?, set,
}
use supply_chain_game.Word.{GoInt, add_int, add_int-small}
use supply_chain_game.Result.{ok, err, role_already_taken}
use supply_chain_game.Domain.Role.{Role, role_eq}
use supply_chain_game.Domain.Room.{Player, find_player_index}
use supply_chain_game.Domain.Room.Holders.{holders}
use supply_chain_game.Domain.Room.Invariant.{ids}

-- Another player holds the role.
pub taken : String → Role → List Player → Bool
taken player_id role [] = false
taken player_id role (p ∷ rest) =
    if str_eq p.id player_id
    then taken player_id role rest
    else if role_eq p.role role
    then true
    else taken player_id role rest

unfoldable pub has_id : String → List Player → Bool
has_id player_id [] = false
has_id player_id (p ∷ rest) = if str_eq p.id player_id then true else has_id player_id rest

-- Every player with the id gets the role.
unfoldable pub with_role : String → Role → List Player → List Player
with_role player_id role [] = []
with_role player_id role (p ∷ rest) =
    (if str_eq p.id player_id then record p { role = role } else p) ∷ with_role player_id role rest

abbrev pub IsAbsent : String → List Player → Type 0
IsAbsent player_id players = All (λ y. y ≢ player_id) (ids players)

-- A taken role is refused, wherever the player stands.
pub find_player_index-taken :
    (player_id : String) (role : Role) (players : List Player) (i : GoInt) (found : Option GoInt)
    → taken player_id role players ≡ true
    → find_player_index player_id role players i found ≡ err role_already_taken
unfolding find_player_index taken
find_player_index-taken player_id role [] i found h = cc
find_player_index-taken player_id role (p ∷ rest) i found h = ground (
  arith,
  find_player_index-taken player_id role rest (add_int i 1) (some i),
  find_player_index-taken player_id role rest (add_int i 1) found,
)

not-same : (s t : String) → s ≢ t → str_eq s t ≡ false
not-same s t h = elim (Bool-cases (str_eq s t)) [
  | inl e ↦ absurd (h ((eq_iff s t).0 e))
  | inr e ↦ e
]

-- Where no player has the id, the loop keeps what it has found.
pub find_player_index-absent :
    (player_id : String) (role : Role) (players : List Player) (i : GoInt) (found : Option GoInt)
    → IsAbsent player_id players
    → taken player_id role players ≡ false
    → find_player_index player_id role players i found ≡ ok found
unfolding find_player_index taken
find_player_index-absent player_id role [] i found a h = refl
find_player_index-absent player_id role (p ∷ rest) i found a h = ground (
  arith,
  not-same p.id player_id a.0,
  find_player_index-absent player_id role rest (add_int i 1) found a.1,
)

pub with_role-absent :
    (player_id : String) (role : Role) (players : List Player)
    → IsAbsent player_id players
    → with_role player_id role players ≡ players
unfolding with_role
with_role-absent player_id role [] a = refl
with_role-absent player_id role (p ∷ rest) a =
    rw (not-same p.id player_id a.0, with_role-absent player_id role rest a.1)

pub holders-absent :
    (player_id : String) (role : Role) (players : List Player)
    → IsAbsent player_id players
    → taken player_id role players ≡ false
    → holders role players ≡ 0
unfolding holders taken
holders-absent player_id role [] a h = refl
holders-absent player_id role (p ∷ rest) a h =
    ground (arith, not-same p.id player_id a.0, holders-absent player_id role rest a.1)

-- The player's place `k`, and the list with the role written there.
pub record IsAt (k : ℕ) (player_id : String) (role : Role) (players : List Player) : Type 0 where
  pub player : Player
  pub here : get_elem? players k ≡ some player
  pub written : set players k (record player { role = role }) ≡ with_role player_id role players

pub taken-rest-here :
    (player_id : String) (role : Role) (p : Player) (rest : List Player)
    → str_eq p.id player_id ≡ true
    → taken player_id role (p ∷ rest) ≡ false
    → taken player_id role rest ≡ false
unfolding taken
taken-rest-here player_id role p rest same t = ground arith

pub taken-rest :
    (player_id : String) (role : Role) (p : Player) (rest : List Player)
    → str_eq p.id player_id ≡ false
    → taken player_id role (p ∷ rest) ≡ false
    → (role_eq p.role role ≡ false) × (taken player_id role rest ≡ false)
unfolding taken
taken-rest player_id role p rest other t = ground arith

with_role-here :
    (player_id : String) (role : Role) (p : Player) (rest : List Player)
    → str_eq p.id player_id ≡ true
    → IsAbsent player_id rest
    → record p { role = role } ∷ rest ≡ with_role player_id role (p ∷ rest)
unfolding with_role
with_role-here player_id role p rest same away =
    rw (same, with_role-absent player_id role rest away)

with_role-later :
    (player_id : String) (role : Role) (p : Player) (rest written : List Player)
    → str_eq p.id player_id ≡ false
    → written ≡ with_role player_id role rest
    → p ∷ written ≡ with_role player_id role (p ∷ rest)
unfolding with_role
with_role-later player_id role p rest written other e = rw (other, e)

find-here :
    (player_id : String) (role : Role) (p : Player) (rest : List Player) (i : GoInt)
    (found : Option GoInt)
    → str_eq p.id player_id ≡ true
    → i + 1 < 2 ^ 63
    → IsAbsent player_id rest
    → taken player_id role rest ≡ false
    → find_player_index player_id role (p ∷ rest) i found ≡ ok (some i)
unfolding find_player_index
find-here player_id role p rest i found same small away free =
    rw (same, find_player_index-absent player_id role rest (add_int i 1) (some i) away free)

find-later :
    (player_id : String) (role : Role) (p : Player) (rest : List Player) (i : GoInt)
    (found : Option GoInt)
    → str_eq p.id player_id ≡ false
    → role_eq p.role role ≡ false
    → i + 1 < 2 ^ 63
    → find_player_index player_id role (p ∷ rest) i found
      ≡ find_player_index player_id role rest (i + 1) found
unfolding find_player_index
find-later player_id role p rest i found other free small =
    rw (other, free, add_int-small i 1 small)

-- With distinct ids the loop finds the one place of the player.
pub find_player_index-IsAt :
    (player_id : String) (role : Role) (players : List Player) (i : GoInt) (found : Option GoInt)
    → Distinct (ids players)
    → has_id player_id players ≡ true
    → taken player_id role players ≡ false
    → i + length players < 2 ^ 63
    → (k : ℕ) × (find_player_index player_id role players i found ≡ ok (some (i + k)))
      × IsAt k player_id role players
unfolding has_id
find_player_index-IsAt player_id role [] i found d h t b = cc
find_player_index-IsAt player_id role (p ∷ rest) i found d h t b =
    elim (Bool-cases (str_eq p.id player_id)) [
      | inl same ↦
          let id_eq : p.id ≡ player_id = (eq_iff p.id player_id).0 same in
          let away : IsAbsent player_id rest = subst (λ s. IsAbsent s rest) id_eq d.0 in
          (
            0,
            find-here player_id role p rest i found same (omega arith) away
                  (taken-rest-here player_id role p rest same t)
                ∙ ap (λ n. ok (some n)) (omega arith),
            record {
              player = p;
              here = refl;
              written = with_role-here player_id role p rest same away;
            },
          )
      | inr other ↦
          let rest_free = taken-rest player_id role p rest other t in
          let (k, e, at) =
            find_player_index-IsAt player_id role rest (i + 1) found d.1 (rw other at h) rest_free.1
              (omega arith) in
          (
            suc k,
            find-later player_id role p rest i found other rest_free.0 (omega arith)
                ∙ e
                ∙ ap (λ n. ok (some n)) (omega arith),
            record {
              player = at.player;
              here = at.here;
              written = with_role-later player_id role p rest _ other at.written;
            },
          )
    ]
