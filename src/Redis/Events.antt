-- ===== src/Redis/Events.antt =====
-- `Subscribe` of internal/infrastructure/redis/room_event_bus.go: the messages of a room's channel, as
-- they are passed on to one who watches the room.
pub mod Forwarding
pub mod Subscription
use supply_chain_game.Prelude.{List, [], ◌∷◌, Option, none, some}
use supply_chain_game.Usecase.Ports.{RoomEvent}
use supply_chain_game.Memory.Bus.{Channel, offer}
use supply_chain_game.Redis.Stores.{Codec}

module _ {P F : Type 0} (codec : Codec P F) where
  -- The body of the loop: a message that does not decode is skipped.
  unfoldable pub forward_one : Option (RoomEvent F) → Channel (RoomEvent F) → Channel (RoomEvent F)
  forward_one none out = out
  forward_one (some event) out = offer event out

  -- The loop of the goroutine, while nothing is read from `out` and it is not cancelled.
  unfoldable pub forward : List P → Channel (RoomEvent F) → Channel (RoomEvent F)
  unfolding forward_one
  forward [] out = out
  forward (message ∷ rest) out = forward rest (forward_one (codec.read_event message) out)
