-- ===== src/Redis/Events/Forwarding.antt =====
-- What one who watches a room finds in the channel.
use supply_chain_game.Prelude.{
  ◌≡◌, ◌≤◌, sym, ap, ◌∙◌, List, [], ◌∷◌, ◌++◌, none, some, length, take, append-nil, take-short,
  arith, false, Option-cases, inl, inr,
}
use supply_chain_game.Usecase.Ports.{RoomEvent}
use supply_chain_game.Memory.Bus.{capacity, new_channel}
use supply_chain_game.Memory.Bus.Delivery.{open_channel, offered}
use supply_chain_game.Redis.Stores.{Codec}
use supply_chain_game.Redis.Events.{forward}

module _ {P F : Type 0} (codec : Codec P F) where
  -- The events that the messages decode to.
  unfoldable pub decoded : List P → List (RoomEvent F)
  decoded [] = []
  decoded (message ∷ rest) = elim (codec.read_event message) [
    | none ↦ decoded rest
    | some event ↦ event ∷ decoded rest
  ]

  forward_from :
      (messages : List P) (held : List (RoomEvent F))
      → length held ≤ capacity
      → forward codec messages (open_channel held)
        ≡ open_channel (take capacity (held ++ decoded messages))
  unfolding forward decoded
  forward_from [] held fits =
      ap open_channel (sym (ap (take capacity) (append-nil held) ∙ take-short capacity held fits))
  forward_from (message ∷ rest) held fits = elim (Option-cases (codec.read_event message)) [
    | inl unread ↦ rw (forward, decoded, unread) (forward_from rest held fits)
    | inr (event, read) ↦
        let (after, offers, still, ends) = offered event held (decoded rest) fits in
        rw (forward, decoded, read)
          (ap (forward codec rest) offers ∙ forward_from rest after still ∙ ap open_channel ends)
  ]

  -- One who watches a room finds the events that the messages decode to, in their order, up to 16 of
  -- them while nothing is read; a message that does not decode is skipped.
  pub forward_lem :
      (messages : List P)
      → forward codec messages new_channel
        ≡ record { held = take 16 (decoded messages); closed = false }
  forward_lem messages = forward_from messages [] (omega arith)
