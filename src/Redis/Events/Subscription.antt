-- ===== src/Redis/Events/Subscription.antt =====
-- `Subscribe` of internal/infrastructure/redis/room_event_bus.go as it runs: the goroutine that passes
-- messages on, the channel, and the `cancel` that the goroutine and the watcher both call.
pub mod Runs
pub mod Races
use supply_chain_game.Prelude.{Bool, true, false, List, ◌∷◌, Option, none, some, if◌then◌else◌, ◌≡◌}
use supply_chain_game.Usecase.Ports.{RoomEvent}
use supply_chain_game.Memory.Bus.{Channel, new_channel, offer}
use supply_chain_game.Redis.Stores.{Codec}

-- Where the goroutine stands: in `Receive`, at the head of its loop, in the `select` with an event, or
-- at its end.
pub data Phase (E : Type 0) : Type 0 where
  receiving listening returned : Phase E
  sending : E → Phase E

-- `connected` until the pubsub is closed; `cancelled` once `once` has run.
pub record Subscription (E : Type 0) : Type 0 where
  pub connected : Bool
  pub out : Channel E
  pub cancelled : Bool
  pub phase : Phase E

abbrev pub new_subscription : {E : Type 0} → Subscription E
new_subscription = record {
  connected = true;
  out = new_channel;
  cancelled = false;
  phase = receiving;
}

-- A run-time panic, which ends the process, is `none`.
module _ {E : Type 0} where
  -- `close(out)`, which panics on a closed channel.
  unfoldable pub close_channel : Channel E → Option (Channel E)
  close_channel ch = if ch.closed then none else some (record ch { closed = true })

  closed_with : Subscription E → Option (Channel E) → Option (Subscription E)
  closed_with s none = none
  closed_with s (some out) = some (record s { connected = false; out = out; cancelled = true })

  -- `cancel`: what `once.Do` runs is run once.
  unfoldable pub cancel_once : Subscription E → Option (Subscription E)
  unfolding close_channel closed_with
  cancel_once s = if s.cancelled then some s else closed_with s (close_channel s.out)

  returned_from : Option (Subscription E) → Option (Subscription E)
  returned_from none = none
  returned_from (some s) = some (record s { phase = returned })

  -- The goroutine returns, and its deferred `cancel` runs.
  unfoldable pub return_routine : Subscription E → Option (Subscription E)
  unfolding cancel_once returned_from
  return_routine s = returned_from (cancel_once s)

  -- The `select`: a send on a closed channel panics, also where there is a default.
  unfoldable pub send : E → Subscription E → Option (Subscription E)
  send event s =
      if s.out.closed then none else some (record s { out = offer event s.out; phase = listening })

  abbrev phase_for : Option E → Phase E
  phase_for none = listening
  phase_for (some event) = sending event

-- `event` of a message that decodes, or the next round of the loop.
unfoldable pub take_message :
    {P F : Type 0} → Codec P F → P → Subscription (RoomEvent F) → Subscription (RoomEvent F)
take_message codec message s = record s { phase = phase_for (codec.read_event message) }

-- One step, to the next state or to a panic.
pub data Step {P F : Type 0} (codec : Codec P F) (s : Subscription (RoomEvent F))
    (next : Option (Subscription (RoomEvent F))) : Type 0 where
  confirms : s.phase ≡ receiving → some (record s { phase = listening }) ≡ next → Step codec s next
  fails : s.phase ≡ receiving → return_routine s ≡ next → Step codec s next
  gets :
      (message : P)
      → s.phase ≡ listening
      → some (take_message codec message s) ≡ next
      → Step codec s next
  sends : (event : RoomEvent F) → s.phase ≡ sending event → send event s ≡ next → Step codec s next
  ends : s.phase ≡ listening → s.connected ≡ false → return_routine s ≡ next → Step codec s next
  reads :
      (event : RoomEvent F) (rest : List (RoomEvent F))
      → s.out.held ≡ event ∷ rest
      → some (record s { out = record s.out { held = rest } }) ≡ next
      → Step codec s next
  cancels : cancel_once s ≡ next → Step codec s next

-- The step is not the watcher's call of `cancel`.
abbrev pub IsOwn :
    {P F : Type 0} {codec : Codec P F} {s : Subscription (RoomEvent F)}
    {next : Option (Subscription (RoomEvent F))}
    → Step codec s next
    → Type 0
IsOwn (cancels _) = ⊥
IsOwn _ = Unit

-- The states that steps lead to without a panic.
pub data Run {P F : Type 0} (codec : Codec P F) : Subscription (RoomEvent F) → Type 0 where
  opened : Run codec new_subscription
  goes : {s s' : Subscription (RoomEvent F)} → Run codec s → Step codec s (some s') → Run codec s'

-- Those before the watcher has cancelled.
pub data Watched {P F : Type 0} (codec : Codec P F) : Subscription (RoomEvent F) → Type 0 where
  opened : Watched codec new_subscription
  goes :
      {s s' : Subscription (RoomEvent F)}
      → Watched codec s
      → (step : Step codec s (some s')) → IsOwn step
      → Watched codec s'
