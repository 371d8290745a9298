-- ===== src/Http/Streams.antt =====
-- `writeSSEEvent` of internal/interface/http/events.go: the text of a stream of events. What
-- encoding/json makes of an event is a function from outside, which may fail.
pub mod Frames
use Prim.Native.String.{◌++◌ as ◌<>◌}
use supply_chain_game.Prelude.{List, [], ◌∷◌, Option, none, some, String}
use supply_chain_game.Http.Answers.{PlayerRoomEvent}

module _ {F : Type 0} (marshal : PlayerRoomEvent F → Option String) where
  -- What is written for an event; nothing, if there is no JSON.
  unfoldable pub write_sse_event : PlayerRoomEvent F → String
  write_sse_event event = elim (marshal event) [
    | none ↦ ""
    | some payload ↦ ("event: " <> (event.kind <> "\n")) <> ("data: " <> (payload <> "\n\n"))
  ]

  -- What `handleEvents` writes, event after event.
  unfoldable pub write_stream : List (PlayerRoomEvent F) → String
  unfolding write_sse_event
  write_stream [] = ""
  write_stream (event ∷ rest) = write_sse_event event <> write_stream rest
