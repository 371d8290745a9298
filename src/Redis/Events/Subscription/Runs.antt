-- ===== src/Redis/Events/Subscription/Runs.antt =====
-- What holds while a subscription runs.
use supply_chain_game.Prelude.{
  ◌≤◌, ◌≡◌, refl, sym, ap, ◌∙◌, subst, not, true, false, Bool-cases, inl, inr, [], ◌∷◌, some,
  length, length-append, ltb, arith,
}
use supply_chain_game.Usecase.Ports.{RoomEvent}
use supply_chain_game.Memory.Bus.{Channel, capacity, offer}
use supply_chain_game.Redis.Stores.{Codec}
use supply_chain_game.Redis.Events.Subscription.{
  Subscription, listening, returned, cancel_once, close_channel, return_routine, send, take_message,
  new_subscription, Step, confirms, fails, gets, sends, ends, reads, cancels, Run, opened, goes,
}

-- The channel is closed, and the connection too, exactly when `cancel` has run; it never holds more
-- than fits.
pub record IsTidy {E : Type 0} (s : Subscription E) : Type 0 where
  pub closes : s.out.closed ≡ s.cancelled
  pub disconnects : s.connected ≡ not s.cancelled
  pub fits : length s.out.held ≤ capacity

-- What `cancel` makes of a state.
pub record Closes {E : Type 0} (s s' : Subscription E) : Type 0 where
  pub closed : s'.out.closed ≡ true
  pub disconnected : s'.connected ≡ false
  pub held : s'.out.held ≡ s.out.held
  pub phase : s'.phase ≡ s.phase
  pub tidy : IsTidy s'

pub some_inj : {A : Type 0} {a b : A} → some a ≡ some b → a ≡ b
some_inj e = cc

pub cancel_once-Closes :
    {E : Type 0} (s : Subscription E)
    → IsTidy s
    → (s' : Subscription E) × (cancel_once s ≡ some s') × Closes s s'
unfolding cancel_once close_channel
cancel_once-Closes s tidy = elim (Bool-cases s.cancelled) [
  | inl done ↦ (
    s,
    rw done refl,
    record {
      closed = tidy.closes ∙ done;
      disconnected = tidy.disconnects ∙ ap not done;
      held = refl;
      phase = refl;
      tidy = tidy;
    },
  )
  | inr unshut ↦ (
    record s { connected = false; out = record s.out { closed = true }; cancelled = true },
    rw (unshut, tidy.closes ∙ unshut) refl,
    record {
      closed = refl;
      disconnected = refl;
      held = refl;
      phase = refl;
      tidy = record { closes = refl; disconnects = refl; fits = tidy.fits };
    },
  )
]

pub returns :
    {E : Type 0} (s : Subscription E)
    → IsTidy s
    → (s' : Subscription E) × (return_routine s ≡ some s') × IsTidy s' × (s'.phase ≡ returned)
unfolding return_routine
returns s tidy =
    let (s', cancelled, c) = cancel_once-Closes s tidy in
    (
      record s' { phase = returned },
      rw cancelled refl,
      record { closes = c.tidy.closes; disconnects = c.tidy.disconnects; fits = c.tidy.fits },
      refl,
    )

offer-fits :
    {E : Type 0} (event : E) (ch : Channel E)
    → length ch.held ≤ capacity
    → length (offer event ch).held ≤ capacity
unfolding offer
offer-fits event ch fits = elim (Bool-cases (ltb (length ch.held) capacity)) [
  | inl room ↦ rw room (ground (arith, length-append ch.held (event ∷ []), room))
  | inr full ↦ rw full fits
]

offer-closed : {E : Type 0} (event : E) (ch : Channel E) → (offer event ch).closed ≡ ch.closed
unfolding offer
offer-closed event ch = ground arith

sent-IsTidy :
    {E : Type 0} (event : E) (s s' : Subscription E) → IsTidy s → send event s ≡ some s' → IsTidy s'
unfolding send
sent-IsTidy event s s' tidy e = elim (Bool-cases s.out.closed) [
  | inl shut ↦ absurd (ground (arith, shut, e))
  | inr unshut ↦
      let sent : send event s ≡ some (record s { out = offer event s.out; phase = listening }) =
        rw unshut refl in
      subst IsTidy (some_inj (sym sent ∙ e)) (record {
        closes = offer-closed event s.out ∙ tidy.closes;
        disconnects = tidy.disconnects;
        fits = offer-fits event s.out tidy.fits;
      })
]

pub Step-IsTidy :
    {P F : Type 0} {codec : Codec P F} {s s' : Subscription (RoomEvent F)}
    → Step codec s (some s')
    → IsTidy s
    → IsTidy s'
unfolding take_message
Step-IsTidy (confirms at e) tidy =
    subst IsTidy (some_inj e)
      (record { closes = tidy.closes; disconnects = tidy.disconnects; fits = tidy.fits })
Step-IsTidy {s = s} (fails at e) tidy =
    let (after, done, still, ended) = returns s tidy in subst IsTidy (some_inj (sym done ∙ e)) still
Step-IsTidy (gets message at e) tidy =
    subst IsTidy (some_inj e)
      (record { closes = tidy.closes; disconnects = tidy.disconnects; fits = tidy.fits })
Step-IsTidy {s = s} {s' = s'} (sends event at e) tidy = sent-IsTidy event s s' tidy e
Step-IsTidy {s = s} (ends at gone e) tidy =
    let (after, done, still, ended) = returns s tidy in subst IsTidy (some_inj (sym done ∙ e)) still
Step-IsTidy {s = s} (reads event rest at e) tidy = subst IsTidy (some_inj e) (record {
  closes = tidy.closes;
  disconnects = tidy.disconnects;
  fits = omega (arith, tidy.fits, ap length at);
})
Step-IsTidy {s = s} (cancels e) tidy =
    let (after, done, c) = cancel_once-Closes s tidy in
    subst IsTidy (some_inj (sym done ∙ e)) c.tidy

pub new-IsTidy : (E : Type 0) → IsTidy {E = E} new_subscription
new-IsTidy E = record { closes = refl; disconnects = refl; fits = omega arith }

pub Run-IsTidy :
    {P F : Type 0} {codec : Codec P F} {s : Subscription (RoomEvent F)} → Run codec s → IsTidy s
Run-IsTidy {F = F} opened = new-IsTidy (RoomEvent F)
Run-IsTidy (goes run step) = Step-IsTidy step (Run-IsTidy run)

-- However messages, reads and calls of `cancel` follow each other, until a panic: at most 16 events
-- wait, and another call of `cancel`, by the goroutine or the watcher, does not panic; it leaves the
-- channel closed, the connection too, and the events that wait where they are.
pub Run-cancels :
    {P F : Type 0} (codec : Codec P F) (s : Subscription (RoomEvent F))
    → Run codec s
    → (length s.out.held ≤ 16)
      × (s' : Subscription (RoomEvent F)) × (cancel_once s ≡ some s')
      × Closes s s'
Run-cancels codec s run =
    let (after, done, c) = cancel_once-Closes s (Run-IsTidy run) in
    ((Run-IsTidy run).fits, after, done, c)
