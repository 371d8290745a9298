-- ===== src/Redis/Events/Subscription/Races.antt =====
-- The send on a channel that the watcher may have closed.
use supply_chain_game.Prelude.{
  ◌≡◌, ◌≢◌, ◌⊎◌, refl, sym, ◌∙◌, subst, true, false, inl, inr, some, none, Option,
}
use supply_chain_game.Usecase.Ports.{RoomEvent}
use supply_chain_game.Memory.Bus.{offer}
use supply_chain_game.Redis.Stores.{Codec}
use supply_chain_game.Redis.Events.Subscription.{
  Subscription, Phase, receiving, listening, returned, sending, send, take_message, Step, confirms,
  fails, gets, sends, ends, reads, cancels, IsOwn, Run, Watched, opened, goes,
}
use supply_chain_game.Redis.Events.Subscription.Runs.{
  IsTidy, some_inj, cancel_once-Closes, returns, Step-IsTidy, new-IsTidy, Run-IsTidy,
}

send-open :
    {E : Type 0} (event : E) (s : Subscription E)
    → s.out.closed ≡ false
    → send event s ≡ some (record s { out = offer event s.out; phase = listening })
unfolding send
send-open event s unshut = rw unshut refl

send-closed :
    {E : Type 0} (event : E) (s : Subscription E) → s.out.closed ≡ true → send event s ≡ none
unfolding send
send-closed event s shut = rw shut refl

-- Not cancelled, or at its end.
abbrev IsLive : {E : Type 0} → Subscription E → Type 0
IsLive s = (s.cancelled ≡ false) ⊎ (s.phase ≡ returned)

live :
    {E : Type 0} (s : Subscription E) (phase : Phase E)
    → IsLive s
    → s.phase ≡ phase
    → phase ≢ returned
    → s.cancelled ≡ false
live s phase (inl fresh) at other = fresh
live s phase (inr over) at other = absurd (other (sym at ∙ over))

own-goes_on :
    {P F : Type 0} {codec : Codec P F} {s : Subscription (RoomEvent F)}
    {next : Option (Subscription (RoomEvent F))} (step : Step codec s next)
    → IsOwn step
    → IsTidy s
    → IsLive s
    → (s' : Subscription (RoomEvent F)) × (next ≡ some s') × IsLive s'
unfolding take_message
own-goes_on {s = s} (confirms at e) own tidy alive =
    (record s { phase = listening }, sym e, inl (live s receiving alive at (λ h. cc)))
own-goes_on {s = s} (fails at e) own tidy alive =
    let (after, done, still, ended) = returns s tidy in (after, sym e ∙ done, inr ended)
own-goes_on {codec = codec} {s = s} (gets message at e) own tidy alive =
    (take_message codec message s, sym e, inl (live s listening alive at (λ h. cc)))
own-goes_on {s = s} (sends event at e) own tidy alive =
    let fresh = live s (sending event) alive at (λ h. cc) in
    (
      record s { out = offer event s.out; phase = listening },
      sym e ∙ send-open event s (tidy.closes ∙ fresh),
      inl fresh,
    )
own-goes_on {s = s} (ends at gone e) own tidy alive =
    let (after, done, still, ended) = returns s tidy in (after, sym e ∙ done, inr ended)
own-goes_on {s = s} (reads event rest at e) own tidy alive =
    (record s { out = record s.out { held = rest } }, sym e, alive)
own-goes_on (cancels e) own tidy alive = absurd own

Watched-IsLive :
    {P F : Type 0} {codec : Codec P F} {s : Subscription (RoomEvent F)}
    → Watched codec s
    → IsTidy s × IsLive s
Watched-IsLive {F = F} opened = (new-IsTidy (RoomEvent F), inl refl)
Watched-IsLive (goes watched step own) =
    let (tidy, alive) = Watched-IsLive watched in
    let (after, e, still) = own-goes_on step own tidy alive in
    (Step-IsTidy step tidy, subst IsLive (some_inj (sym e)) still)

-- As long as the watcher does not call `cancel`, no step panics.
pub Watched-goes_on :
    {P F : Type 0} (codec : Codec P F) (s : Subscription (RoomEvent F))
    (next : Option (Subscription (RoomEvent F)))
    → Watched codec s
    → (step : Step codec s next) → IsOwn step
    → (s' : Subscription (RoomEvent F)) × (next ≡ some s')
Watched-goes_on codec s next watched step own =
    let (tidy, alive) = Watched-IsLive watched in
    let (after, e, still) = own-goes_on step own tidy alive in (after, e)

-- Whenever the goroutine has come to its `select` with an event: if the watcher calls `cancel` now,
-- the goroutine's next step, the send, panics.
pub Run-race :
    {P F : Type 0} (codec : Codec P F) (s : Subscription (RoomEvent F)) (event : RoomEvent F)
    → Run codec s
    → s.phase ≡ sending event
    → (s' : Subscription (RoomEvent F)) × Step codec s (some s')
      × (s'.phase ≡ sending event)
      × Step codec s' none
Run-race codec s event run at =
    let (after, done, c) = cancel_once-Closes s (Run-IsTidy run) in
    (
      after,
      cancels done,
      c.phase ∙ at,
      sends event (c.phase ∙ at) (send-closed event after c.closed),
    )
