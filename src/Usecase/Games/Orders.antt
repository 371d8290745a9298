-- ===== src/Usecase/Games/Orders.antt =====
-- What `SubmitOrder` records.
use supply_chain_game.Prelude.{
  ◌≡◌, refl, false, true, some, String, if◌then◌else◌, suc, [], ◌∷◌, ◌++◌,
}
use supply_chain_game.Word.{GoInt, lt_int}
use supply_chain_game.Result.{ok}
use supply_chain_game.Domain.Role.{Role, role_eq}
use supply_chain_game.Domain.RoleMap.{lookup, insert, lookup-insert}
use supply_chain_game.Domain.Room.{Room, role_of_player}
use supply_chain_game.Domain.Session.{GameSession, is_active}
use supply_chain_game.Usecase.Decisions.{WeeklyDecisions, snapshot}
use supply_chain_game.Domain.Analytics.{calculate_session_analytics}
use supply_chain_game.Usecase.Ports.{Ports, World}
use supply_chain_game.Usecase.Contracts.{AreReliable}
use supply_chain_game.Usecase.Games.{
  submit_order, current_playable_week, or_no_decisions, publish_room_event,
}

module _ {R S D F : Type 0} (ports : Ports R S D F) where
  -- The player of a role in an active game, and the orders of the week so far: those of the store,
  -- or none.
  pub record CanOrder (room_id player_id : String) (w : World R S D F) (role : Role)
      (before : WeeklyDecisions) : Type 0 where
    pub room : Room
    pub session : GameSession
    pub in_store : ports.room_store.get_by_id room_id w.rooms ≡ ok room
    pub plays : role_of_player room player_id ≡ ok role
    pub of_room : ports.session_store.get_by_room_id room_id w.sessions ≡ ok session
    pub running : is_active session.status ≡ true
    pub so_far :
        or_no_decisions room_id (current_playable_week session) (
          ports.decision_store.get_by_room_and_week room_id
            (current_playable_week session)
            w.decisions)
        ≡ ok before
    pub keyed_room : before.room_id ≡ room_id
    pub keyed_week : before.week ≡ current_playable_week session

  module _ (room_id player_id : String) (order : GoInt) (w : World R S D F) (role : Role)
      (before : WeeklyDecisions) (can : CanOrder room_id player_id w role before) where
    -- The orders with the new one.
    abbrev pub ordered : WeeklyDecisions
    ordered = record before {
      orders = insert role order before.orders;
      updated_at = ports.surroundings.time_at w.times_read;
    }

    -- The world after the call.
    abbrev pub left : World R S D F
    left = record w {
      decisions = (ports.decision_store.save ordered w.decisions).1;
      published =
          w.published
          ++ record {
            kind = "game.order_submitted";
            room_id = can.room.id;
            occurred_at = ports.surroundings.time_at (suc w.times_read);
            room = some can.room;
            session = some can.session;
            decisions = some (snapshot ordered);
            analytics = some (calculate_session_analytics ports.floats can.session);
          }
            ∷ [];
      times_read = suc (suc w.times_read);
    }

    module _ (reliable : AreReliable ports) where
      pub submit_order-answers :
          lt_int order 0 ≡ false
          → submit_order ports room_id player_id order w ≡ (ok (snapshot ordered), left)
      unfolding submit_order publish_room_event
      submit_order-answers h =
          rw
            (
              h,
              can.in_store,
              can.plays,
              can.of_room,
              can.running,
              can.so_far,
              reliable.decisions.saves ordered w.decisions,
            )
            refl

      pub ordered-stored :
          ports.decision_store.get_by_room_and_week room_id
            (current_playable_week can.session)
            left.decisions
          ≡ ok ordered
      ordered-stored =
          rw (← can.keyed_room, ← can.keyed_week) (reliable.decisions.saved ordered w.decisions)

  -- An order that is not negative, of a player with a role in an active game, is stored under that
  -- role for the current week; the orders of the other roles stay, and so do rooms and sessions.
  -- The answer is the snapshot of what is stored.
  pub submit_order_lem :
      (reliable : AreReliable ports) (room_id player_id : String) (order : GoInt)
      (w : World R S D F) (role : Role) (before : WeeklyDecisions)
      → lt_int order 0 ≡ false
      → (can : CanOrder room_id player_id w role before)
      → (after : WeeklyDecisions) × (w' : World R S D F) × (submit_order ports room_id player_id
            order w
          ≡ (ok (snapshot after), w'))
        × (ports.decision_store.get_by_room_and_week room_id
              (current_playable_week can.session)
              w'.decisions
            ≡ ok after)
        × ((other : Role)
            → lookup other after.orders
              ≡ (if role_eq role other then some order else lookup other before.orders))
        × (w'.rooms ≡ w.rooms)
        × (w'.sessions ≡ w.sessions)
  submit_order_lem reliable room_id player_id order w role before h can = (
    ordered room_id player_id order w role before can,
    left room_id player_id order w role before can,
    submit_order-answers room_id player_id order w role before can reliable h,
    ordered-stored room_id player_id order w role before can reliable,
    λ other. lookup-insert role other order before.orders,
    refl,
    refl,
  )
