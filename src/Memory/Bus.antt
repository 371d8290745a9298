-- ===== src/Memory/Bus.antt =====
-- internal/infrastructure/memory/room_event_bus.go: the events of a room, to those who watch it.
-- A channel is what it holds, oldest first; 16 events fit, and a full channel drops what comes.
pub mod Delivery
use text.Mathlib.Text.{◌==◌ as str_eq}
use supply_chain_game.Prelude.{
  ℕ, Bool, true, false, List, [], ◌∷◌, ◌++◌, none, some, Option, String, if◌then◌else◌, length, ltb,
  ◌==◌,
}
use supply_chain_game.Word.{GoInt, add_int}

-- The events are a parameter: the bus looks at nothing but the room of one.
pub record Channel (E : Type 0) : Type 0 where
  pub held : List E
  pub closed : Bool

abbrev pub capacity : ℕ
capacity = 16

-- `make(chan usecase.RoomEvent, 16)`
abbrev pub new_channel : {E : Type 0} → Channel E
new_channel = record { held = []; closed = false }

-- The subscribers of a room by their number.
abbrev pub Subscribers : Type 0 → Type 0
Subscribers E = List (GoInt × Channel E)

pub record RoomEventBus (E : Type 0) : Type 0 where
  pub subscribers : String → Subscribers E
  pub next_id : GoInt

abbrev pub new_bus : {E : Type 0} → RoomEventBus E
new_bus = record { subscribers = λ room_id. []; next_id = 0 }

module _ {E : Type 0} where
  -- The `select` with a default.
  unfoldable pub offer : E → Channel E → Channel E
  offer event ch =
      if ltb (length ch.held) capacity then record ch { held = ch.held ++ event ∷ [] } else ch

  unfoldable pub offer_all : E → Subscribers E → Subscribers E
  unfolding offer
  offer_all event [] = []
  offer_all event ((id, ch) ∷ rest) = (id, offer event ch) ∷ offer_all event rest

  abbrev pub set_subscribers : String → Subscribers E → RoomEventBus E → RoomEventBus E
  set_subscribers room_id subscribers b = record b {
    subscribers = λ other. if str_eq room_id other then subscribers else b.subscribers other;
  }

  unfoldable pub publish_room_event : String → E → RoomEventBus E → RoomEventBus E
  publish_room_event room_id event b =
      set_subscribers room_id (offer_all event (b.subscribers room_id)) b

  -- `m[id] = ch`
  unfoldable pub insert_subscriber : GoInt → Channel E → Subscribers E → Subscribers E
  insert_subscriber id ch [] = (id, ch) ∷ []
  insert_subscriber id ch ((other, old) ∷ rest) =
      if other == id then (id, ch) ∷ rest else (other, old) ∷ insert_subscriber id ch rest

  -- The number of the new subscriber, and the bus with its empty channel.
  unfoldable pub subscribe : String → RoomEventBus E → GoInt × RoomEventBus E
  subscribe room_id b =
      let id = add_int b.next_id 1 in
      (
        id,
        set_subscribers room_id (insert_subscriber id new_channel (b.subscribers room_id))
            (record b { next_id = id }),
      )

  unfoldable pub find_subscriber : GoInt → Subscribers E → Option (Channel E)
  find_subscriber id [] = none
  find_subscriber id ((other, ch) ∷ rest) = if other == id then some ch else find_subscriber id rest

  unfoldable pub remove_subscriber : GoInt → Subscribers E → Subscribers E
  remove_subscriber id [] = []
  remove_subscriber id ((other, ch) ∷ rest) =
      if other == id then rest else (other, ch) ∷ remove_subscriber id rest

  -- The `cancel` that `Subscribe` returns: the channel that it closes, if the subscriber is still
  -- there, and the bus without it.
  unfoldable pub cancel : String → GoInt → RoomEventBus E → Option (Channel E) × RoomEventBus E
  cancel room_id id b = elim (find_subscriber id (b.subscribers room_id)) [
    | none ↦ (none, b)
    | some ch ↦ (
      some (record ch { closed = true }),
      set_subscribers room_id (remove_subscriber id (b.subscribers room_id)) b,
    )
  ]
