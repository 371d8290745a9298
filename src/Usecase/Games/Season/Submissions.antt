-- ===== src/Usecase/Games/Season/Submissions.antt =====
-- The orders of a week, one call of `SubmitOrder` after the other.
use supply_chain_game.Prelude.{
  ◌≤◌, ◌≡◌, ◌≢◌, ◌⊎◌, inr, refl, [], ◌∷◌, All, String, some, true, false, arith, sym, ◌∙◌,
}
use supply_chain_game.Word.{GoInt, IsWord, IsNonNeg, lt_int, lt_int-small}
use supply_chain_game.Result.{ok}
use supply_chain_game.Domain.Role.{Role, IsKnown}
use supply_chain_game.Domain.RoleMap.{RoleMap, lookup, insert, lookup-insert}
use supply_chain_game.Domain.Room.{Room, role_of_player}
use supply_chain_game.Domain.Session.{GameSession, is_active}
use supply_chain_game.Domain.Session.Invariant.{Limits}
use supply_chain_game.Usecase.Decisions.{WeeklyDecisions}
use supply_chain_game.Usecase.Decisions.Filled.{IsCounted, insert-IsCounted}
use supply_chain_game.Usecase.Ports.{Ports, World}
use supply_chain_game.Usecase.Contracts.{AreReliable}
use supply_chain_game.Usecase.Games.{current_playable_week, or_no_decisions}
use supply_chain_game.Usecase.Games.Orders.{
  CanOrder, ordered, left, submit_order-answers, ordered-stored,
}
use supply_chain_game.Usecase.Games.Weeks.{AtWeek}
use supply_chain_game.Usecase.Games.Season.{Round, gathered, submit_all}

-- What the orders so far are: one entry for each role that has ordered, each fits the cap.
pub record AreGathered (l : Limits) (m : RoleMap) : Type 0 where
  pub counted : IsCounted m
  pub capped : (role : Role) (order : GoInt) → lookup role m ≡ some order → order ≤ l.cap

insert-AreGathered :
    (l : Limits) (role : Role) (order : GoInt) (m : RoleMap)
    → IsKnown role
    → order ≤ l.cap
    → AreGathered l m
    → AreGathered l (insert role order m)
insert-AreGathered l role order m known small g = record {
  counted = insert-IsCounted role order m known g.counted;
  capped =
      λ other o found. ground (arith, lookup-insert role other order m, found, g.capped other o);
}

pub gathered-AreGathered :
    (l : Limits) (round : Round) (m : RoleMap)
    → All (λ (o : Role × GoInt). IsKnown o.0 × (o.1 ≤ l.cap)) round
    → AreGathered l m
    → AreGathered l (gathered round m)
unfolding gathered
gathered-AreGathered l [] m each g = g
gathered-AreGathered l ((role, order) ∷ rest) m ((known, small), each) g =
    gathered-AreGathered l rest (insert role order m) each
      (insert-AreGathered l role order m known small g)

not_negative : (order : GoInt) → IsNonNeg order → lt_int order 0 ≡ false
not_negative order h = rw (lt_int-small order 0 h (omega arith)) (ground arith)

module _ {R S D F : Type 0} (ports : Ports R S D F) (room_id : String) (room : Room)
    (session : GameSession) where
  -- The orders before a submission: those of the store, or none.
  pub record Collects (w : World R S D F) (before : WeeklyDecisions) : Type 0 where
    pub at : AtWeek ports room_id w room session
    pub so_far :
        or_no_decisions room_id (current_playable_week session) (
          ports.decision_store.get_by_room_and_week room_id
            (current_playable_week session)
            w.decisions)
        ≡ ok before
    pub none_or_stored :
        (before.orders ≡ [])
        ⊎ (ports.decision_store.get_by_room_and_week room_id
              (current_playable_week session)
              w.decisions
            ≡ ok before)
    pub keyed_room : before.room_id ≡ room_id
    pub keyed_week : before.week ≡ current_playable_week session

  -- What submissions leave of a world.
  pub record Submitted (w w' : World R S D F) (after : WeeklyDecisions) : Type 0 where
    pub collects : Collects w' after
    pub later :
        (week : GoInt)
        → IsWord week
        → current_playable_week session ≢ week
        → ports.decision_store.get_by_room_and_week room_id week w'.decisions
          ≡ ports.decision_store.get_by_room_and_week room_id week w.decisions

  module _ (reliable : AreReliable ports) (running : is_active session.status ≡ true)
      (word : IsWord (current_playable_week session)) (seats : Role → String)
      (seated : (role : Role) → IsKnown role → role_of_player room (seats role) ≡ ok role) where
    abbrev can_order :
        (w : World R S D F) (before : WeeklyDecisions) (role : Role)
        → IsKnown role
        → Collects w before
        → CanOrder ports room_id (seats role) w role before
    can_order w before role known c = record {
      room = room;
      session = session;
      in_store = c.at.in_store;
      plays = seated role known;
      of_room = c.at.of_room;
      running = running;
      so_far = c.so_far;
      keyed_room = c.keyed_room;
      keyed_week = c.keyed_week;
    }

    submit-Submitted :
        (w : World R S D F) (before : WeeklyDecisions) (role : Role) (order : GoInt)
        → (known : IsKnown role) → (c : Collects w before)
        → Submitted w
            (left ports room_id (seats role) order w role before (can_order w before role known c))
            (ordered ports room_id
              (seats role)
              order
              w
              role
              before
              (can_order w before role known c))
    unfolding or_no_decisions
    submit-Submitted w before role order known c =
        let can = can_order w before role known c in
        let stored = ordered-stored ports room_id (seats role) order w role before can reliable in
        record {
          collects = record {
            at = record {
              in_store = c.at.in_store;
              of_room = c.at.of_room;
              room_key = c.at.room_key;
              session_key = c.at.session_key;
            };
            so_far = rw stored refl;
            none_or_stored = inr stored;
            keyed_room = c.keyed_room;
            keyed_week = c.keyed_week;
          };
          later = λ week other different.
              reliable.decisions.others (ordered ports room_id (seats role) order w role before can)
                w.decisions room_id week (rw c.keyed_week word) other
                (inr (λ e. different (sym c.keyed_week ∙ e)));
        }

    pub submit_all-Submitted :
        (l : Limits) (round : Round) (w : World R S D F) (before : WeeklyDecisions)
        → IsNonNeg l.cap
        → All (λ (o : Role × GoInt). IsKnown o.0 × (o.1 ≤ l.cap)) round
        → Collects w before
        → (after : WeeklyDecisions) × (w' : World R S D F) × (submit_all ports room_id seats round w
            ≡ (ok tt, w'))
          × (after.orders ≡ gathered round before.orders)
          × Submitted w w' after
    unfolding submit_all gathered
    submit_all-Submitted l [] w before fits each c =
        (before, w, refl, refl, record { collects = c; later = λ week other different. refl })
    submit_all-Submitted l ((role, order) ∷ rest) w before fits ((known, small), each) c =
        let can = can_order w before role known c in
        let one = submit-Submitted w before role order known c in
        let (after, w', e, same, more) =
          submit_all-Submitted l rest (left ports room_id (seats role) order w role before can)
            (ordered ports room_id (seats role) order w role before can) fits each one.collects in
        (
          after,
          w',
          rw
              (submit_order-answers ports room_id (seats role) order w role before can reliable
                (not_negative order (omega arith)))
              e,
          same,
          record {
            collects = more.collects;
            later = λ week other different.
                more.later week other different ∙ one.later week other different;
          },
        )
