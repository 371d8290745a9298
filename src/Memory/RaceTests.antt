-- ===== src/Memory/RaceTests.antt =====
-- Two orders at the same time, over the stores in memory.
use supply_chain_game.Prelude.{ℕ, ◌≡◌, refl, false, []}
use supply_chain_game.Word.{add_int, lt_int}
use supply_chain_game.Result.{ok}
use supply_chain_game.Domain.Role.{factory, distributor, role_eq}
use supply_chain_game.Domain.RoleMap.{lookup}
use supply_chain_game.Domain.Room.{role_of_player}
use supply_chain_game.Domain.Session.Tests.{session}
use supply_chain_game.Domain.Analytics.Tests.{whole}
use supply_chain_game.Usecase.Decisions.{WeeklyDecisions, snapshot}
use supply_chain_game.Usecase.Ports.{World}
use supply_chain_game.Usecase.Games.{current_playable_week, or_no_decisions, no_decisions}
use supply_chain_game.Usecase.Games.Orders.{CanOrder}
use supply_chain_game.Usecase.Games.Interleaved.{
  Seen, read_orders, write_orders, write_orders-loses,
}
use supply_chain_game.Memory.Stores.{
  Rooms, Sessions, Decisions, room_by_id, session_by_room_id, decisions_by_room_and_week, save_room,
  save_session,
}
use supply_chain_game.Memory.Stores.Laws.{in_memory-AreReliable}
use supply_chain_game.Memory.Tests.{ports, surroundings, no_file, room, before_orders, b_orders}

a_orders : CanOrder ports "r1" "a" before_orders factory (no_decisions "r1" 1 0)
unfolding room_by_id session_by_room_id decisions_by_room_and_week role_of_player role_eq
    current_playable_week or_no_decisions save_room save_session add_int
a_orders = record {
  room = room;
  session = session;
  in_store = refl;
  plays = refl;
  of_room = refl;
  running = refl;
  so_far = refl;
  keyed_room = refl;
  keyed_week = refl;
}

six : lt_int 6 0 ≡ false
unfolding lt_int
six = refl

seven : lt_int 7 0 ≡ false
unfolding lt_int
seven = refl

apart : role_eq distributor factory ≡ false
unfolding role_eq
apart = refl

write_orders-loses_example :
    (seen_one seen_two : Seen) × (mid w' : World Rooms Sessions Decisions ℕ) × (early
      late : WeeklyDecisions)
    × (read_orders ports "r1" "a" 7 before_orders ≡ (ok seen_one, before_orders))
    × (read_orders ports "r1" "b" 6 before_orders ≡ (ok seen_two, before_orders))
    × (write_orders ports 7 seen_one before_orders ≡ (ok (snapshot early), mid))
    × (write_orders ports 6 seen_two mid ≡ (ok (snapshot late), w'))
    × (decisions_by_room_and_week "r1" 1 w'.decisions ≡ ok late)
    × (lookup factory late.orders ≡ lookup factory [])
write_orders-loses_example =
    write_orders-loses ports (in_memory-AreReliable surroundings no_file whole) "r1" "a" "b" 7 6
      before_orders factory distributor (no_decisions "r1" 1 0) a_orders b_orders seven six apart
