-- ===== src/Usecase/Games/Interleaved.antt =====
-- `SubmitOrder` of internal/usecase/game_service.go holds no lock between its read of the orders of the
-- week and its save: another call can come in between.
use supply_chain_game.Prelude.{◌≡◌, refl, String, some, not, false, ◌∙◌, Bool-cases, inl, inr}
use supply_chain_game.Word.{GoInt, lt_int}
use supply_chain_game.Result.{ok, reject_if, negative_order, session_not_active, Result-cases}
use supply_chain_game.Domain.Role.{Role, role_eq}
use supply_chain_game.Domain.RoleMap.{lookup, insert, lookup-insert}
use supply_chain_game.Domain.Room.{Room, role_of_player}
use supply_chain_game.Domain.Session.{GameSession, is_active}
use supply_chain_game.Usecase.Decisions.{WeeklyDecisions, WeeklyDecisionsSnapshot, snapshot}
use supply_chain_game.Usecase.Ports.{
  Ports, World, Action, ◌>>=◌, ◌>>◌, lift, save_decisions, room_by_id, session_by_room,
  decisions_of, now,
}
use supply_chain_game.Usecase.Contracts.{AreReliable}
use supply_chain_game.Usecase.Games.{
  submit_order, current_playable_week, or_no_decisions, publish_room_event,
}
use supply_chain_game.Usecase.Games.Orders.{CanOrder}

-- What a call has read when it comes to its save.
pub record Seen : Type 0 where
  pub room : Room
  pub role : Role
  pub session : GameSession
  pub decisions : WeeklyDecisions

module _ {R S D F : Type 0} (ports : Ports R S D F) where
  -- `SubmitOrder` up to its read of the orders.
  unfoldable pub read_orders : String → String → GoInt → Action (World R S D F) Seen
  read_orders room_id player_id order = do
    lift (reject_if (lt_int order 0) negative_order)
    room ← room_by_id ports room_id
    role ← lift (role_of_player room player_id)
    session ← session_by_room ports room_id
    lift (reject_if (not (is_active session.status)) session_not_active)
    answer ← decisions_of ports room_id (current_playable_week session)
    decisions ← lift (or_no_decisions room_id (current_playable_week session) answer)
    lift (ok (record { room = room; role = role; session = session; decisions = decisions }))

  -- And from there on.
  unfoldable pub write_orders : GoInt → Seen → Action (World R S D F) WeeklyDecisionsSnapshot
  write_orders order seen = do
    time ← now ports
    let updated = record seen.decisions {
      orders = insert seen.role order seen.decisions.orders;
      updated_at = time;
    } in
        do
          save_decisions ports updated
          publish_room_event ports "game.order_submitted" seen.room seen.session
              (some (snapshot updated))
          lift (ok (snapshot updated))

  halves-accepted :
      (room_id player_id : String) (order : GoInt) (w : World R S D F) (room : Room) (role : Role)
      (session : GameSession)
      → lt_int order 0 ≡ false
      → ports.room_store.get_by_id room_id w.rooms ≡ ok room
      → role_of_player room player_id ≡ ok role
      → ports.session_store.get_by_room_id room_id w.sessions ≡ ok session
      → submit_order ports room_id player_id order w
        ≡ (read_orders room_id player_id order >>= write_orders order) w
  unfolding submit_order read_orders write_orders
  halves-accepted room_id player_id order w room role session enough stored plays read =
      let week = current_playable_week session in
      elim (Bool-cases (is_active session.status)) [
        | inr over ↦ rw (enough, stored, plays, read, over) refl
        | inl running ↦
            elim (Result-cases (
              or_no_decisions room_id week
                (ports.decision_store.get_by_room_and_week room_id week w.decisions))) [
                  | inl (inl stops) ↦ rw (enough, stored, plays, read, running, stops) refl
                  | inl (inr (e, stops)) ↦ rw (enough, stored, plays, read, running, stops) refl
                  | inr (before, so_far) ↦ rw (enough, stored, plays, read, running, so_far) refl
                ]
      ]

  -- `SubmitOrder` is its read and then its save, whatever it answers.
  pub submit_order-halves :
      (room_id player_id : String) (order : GoInt) (w : World R S D F)
      → submit_order ports room_id player_id order w
        ≡ (read_orders room_id player_id order >>= write_orders order) w
  unfolding submit_order read_orders write_orders
  submit_order-halves room_id player_id order w = elim (Bool-cases (lt_int order 0)) [
    | inl negative ↦ rw negative refl
    | inr enough ↦ elim (Result-cases (ports.room_store.get_by_id room_id w.rooms)) [
      | inl (inl stops) ↦ rw (enough, stops) refl
      | inl (inr (e, stops)) ↦ rw (enough, stops) refl
      | inr (room, stored) ↦ elim (Result-cases (role_of_player room player_id)) [
        | inl (inl stops) ↦ rw (enough, stored, stops) refl
        | inl (inr (e, stops)) ↦ rw (enough, stored, stops) refl
        | inr (role, plays) ↦
            elim (Result-cases (ports.session_store.get_by_room_id room_id w.sessions)) [
              | inl (inl stops) ↦ rw (enough, stored, plays, stops) refl
              | inl (inr (e, stops)) ↦ rw (enough, stored, plays, stops) refl
              | inr (session, read) ↦
                  halves-accepted room_id player_id order w room role session enough stored plays
                    read
            ]
      ]
    ]
  ]

  -- What a call that may order has seen.
  seen_by :
      (room_id player_id : String) (w : World R S D F) (role : Role) (before : WeeklyDecisions)
      → CanOrder ports room_id player_id w role before
      → Seen
  seen_by room_id player_id w role before can = record {
    room = can.room;
    role = role;
    session = can.session;
    decisions = before;
  }

  reads_orders :
      (room_id player_id : String) (order : GoInt) (w : World R S D F) (role : Role)
      (before : WeeklyDecisions) (can : CanOrder ports room_id player_id w role before)
      → lt_int order 0 ≡ false
      → read_orders room_id player_id order w
        ≡ (ok (seen_by room_id player_id w role before can), w)
  unfolding read_orders seen_by
  reads_orders room_id player_id order w role before can enough =
      rw (enough, can.in_store, can.plays, can.of_room, can.running, can.so_far) refl

  writes_orders :
      (reliable : AreReliable ports) (order : GoInt) (seen : Seen) (w : World R S D F)
      → (after : WeeklyDecisions) × (w' : World R S D F) × (write_orders order seen w
          ≡ (ok (snapshot after), w'))
        × (after.orders ≡ insert seen.role order seen.decisions.orders)
        × (ports.decision_store.get_by_room_and_week seen.decisions.room_id seen.decisions.week
              w'.decisions
            ≡ ok after)
  unfolding write_orders publish_room_event
  writes_orders reliable order seen w =
      let after : WeeklyDecisions = record seen.decisions {
        orders = insert seen.role order seen.decisions.orders;
        updated_at = ports.surroundings.time_at w.times_read;
      } in
      (
        after,
        (write_orders order seen w).1,
        rw (reliable.decisions.saves after w.decisions) refl,
        refl,
        rw (reliable.decisions.saves after w.decisions)
            (reliable.decisions.saved after w.decisions),
      )

  -- Two players of different roles may order. If both calls read the orders of the week before either
  -- saves them, both are answered with success, and the order of the one who saves first is lost: for
  -- that role the store has what it had before.
  pub write_orders-loses :
      (reliable : AreReliable ports) (room_id first second : String) (one two : GoInt)
      (w : World R S D F) (role other : Role) (before : WeeklyDecisions)
      (can_one : CanOrder ports room_id first w role before)
      (can_two : CanOrder ports room_id second w other before)
      → lt_int one 0 ≡ false
      → lt_int two 0 ≡ false
      → role_eq other role ≡ false
      → (seen_one seen_two : Seen) × (mid w' : World R S D F) × (early late : WeeklyDecisions)
        × (read_orders room_id first one w ≡ (ok seen_one, w))
        × (read_orders room_id second two w ≡ (ok seen_two, w))
        × (write_orders one seen_one w ≡ (ok (snapshot early), mid))
        × (write_orders two seen_two mid ≡ (ok (snapshot late), w'))
        × (ports.decision_store.get_by_room_and_week before.room_id before.week w'.decisions
            ≡ ok late)
        × (lookup role late.orders ≡ lookup role before.orders)
  unfolding seen_by
  write_orders-loses reliable room_id first second one two w role other before can_one can_two h k
        different =
      let seen_one = seen_by room_id first w role before can_one in
      let seen_two = seen_by room_id second w other before can_two in
      let (early, mid, wrote, held, stored) = writes_orders reliable one seen_one w in
      let (late, w', wrote', held', stored') = writes_orders reliable two seen_two mid in
      (
        seen_one,
        seen_two,
        mid,
        w',
        early,
        late,
        reads_orders room_id first one w role before can_one h,
        reads_orders room_id second two w other before can_two k,
        wrote,
        wrote',
        stored',
        rw held' (lookup-insert other role two before.orders ∙ rw different refl),
      )
