-- ===== src/Redis/RaceTests.antt =====
-- A subscription that gets one message.
use supply_chain_game.Prelude.{ℕ, ◌≡◌, ◌≤◌, refl, length, some, none}
use supply_chain_game.Usecase.Ports.{RoomEvent}
use supply_chain_game.Memory.Tests.{room}
use supply_chain_game.Redis.Events.Subscription.{
  Subscription, listening, sending, new_subscription, cancel_once, send, take_message, Step,
  confirms, gets, sends, Run, Watched, opened, goes,
}
use supply_chain_game.Redis.Events.Subscription.Runs.{Closes, Run-cancels}
use supply_chain_game.Redis.Events.Subscription.Races.{Watched-goes_on, Run-race}
use supply_chain_game.Redis.Tests.{event_value, codec, event_in}

abbrev event : RoomEvent ℕ
event = record {
  kind = "game.started";
  room_id = "r1";
  occurred_at = 1;
  room = some room;
  session = none;
  decisions = none;
  analytics = none;
}

abbrev confirmed : Subscription (RoomEvent ℕ)
confirmed = record new_subscription { phase = listening }

abbrev got : Subscription (RoomEvent ℕ)
got = record confirmed { phase = sending event }

gets_event : Step codec confirmed (some got)
unfolding take_message event_in
gets_event = gets (event_value event) refl refl

got-Run : Run codec got
got-Run = goes (goes opened (confirms refl refl)) gets_event

got-Watched : Watched codec got
unfolding gets_event
got-Watched = goes (goes opened (confirms refl refl) tt) gets_event tt

Run-cancels_example :
    (length got.out.held ≤ 16)
    × (s' : Subscription (RoomEvent ℕ)) × (cancel_once got ≡ some s')
    × Closes got s'
Run-cancels_example = Run-cancels codec got got-Run

Watched-goes_on_example : (s' : Subscription (RoomEvent ℕ)) × (send event got ≡ some s')
Watched-goes_on_example =
    Watched-goes_on codec got (send event got) got-Watched (sends event refl refl) tt

Run-race_example :
    (s' : Subscription (RoomEvent ℕ)) × Step codec got (some s')
    × (s'.phase ≡ sending event)
    × Step codec s' none
Run-race_example = Run-race codec got event got-Run refl
