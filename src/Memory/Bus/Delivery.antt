-- ===== src/Memory/Bus/Delivery.antt =====
-- What the event bus delivers to one who watches a room.
use text.Mathlib.Text.{◌==◌ as str_eq}
use text.Mathlib.TextEquality.{eq_iff}
use supply_chain_game.Prelude.{
  ◌≤◌, ◌≡◌, refl, sym, ap, ◌∙◌, List, [], ◌∷◌, ◌++◌, none, some, Option, String, length, take,
  take-append, take-short, append_assoc, append-nil, length-snoc, ltb, arith, true, false,
  Bool-cases, inl, inr, if◌then◌else◌,
}
use supply_chain_game.Word.{GoInt}
use supply_chain_game.Memory.Bus.{
  Channel, Subscribers, RoomEventBus, capacity, offer, offer_all, publish_room_event,
  find_subscriber, subscribe, insert_subscriber, new_channel,
}

same : (room_id : String) → str_eq room_id room_id ≡ true
same room_id = (eq_iff room_id room_id).1 refl

module _ {E : Type 0} where
  -- The events of a room, in their order.
  unfoldable pub of_room : String → List (String × E) → List E
  of_room room_id [] = []
  of_room room_id ((at, event) ∷ rest) =
      if str_eq at room_id then event ∷ of_room room_id rest else of_room room_id rest

  unfoldable pub publish_all : List (String × E) → RoomEventBus E → RoomEventBus E
  publish_all [] b = b
  publish_all ((at, event) ∷ rest) b = publish_all rest (publish_room_event at event b)

  offer_to : E → Option (Channel E) → Option (Channel E)
  offer_to event none = none
  offer_to event (some ch) = some (offer event ch)

  find-offer_all :
      (event : E) (id : GoInt) (subs : Subscribers E)
      → find_subscriber id (offer_all event subs) ≡ offer_to event (find_subscriber id subs)
  unfolding offer_to find_subscriber offer_all
  find-offer_all event id [] = refl
  find-offer_all event id ((other, ch) ∷ rest) = ground (arith, find-offer_all event id rest)

  find-insert :
      (id : GoInt) (ch : Channel E) (subs : Subscribers E)
      → find_subscriber id (insert_subscriber id ch subs) ≡ some ch
  unfolding find_subscriber insert_subscriber
  find-insert id ch [] = ground arith
  find-insert id ch ((other, old) ∷ rest) = ground (arith, find-insert id ch rest)

  abbrev pub open_channel : List E → Channel E
  open_channel held = record { held = held; closed = false }

  -- What a channel ends with when a sequence of events has been offered to it.
  ends_with : List E → List E → Option (Channel E)
  ends_with held events = some (open_channel (take capacity (held ++ events)))

  pub offered :
      (event : E) (held events : List E)
      → length held ≤ capacity
      → (after : List E) × (offer event (open_channel held) ≡ open_channel after)
        × (length after ≤ capacity)
        × (take capacity (after ++ events) ≡ take capacity (held ++ event ∷ events))
  unfolding offer
  offered event held events fits = elim (Bool-cases (ltb (length held) capacity)) [
    | inl room ↦ (
      held ++ event ∷ [],
      rw room refl,
      rw (length-snoc held event) (ground arith),
      ap (take capacity) (append_assoc held (event ∷ []) events),
    )
    | inr full ↦
        let at_end : length held ≡ 16 = ground (arith, fits, full) in
        (
          held,
          rw full refl,
          fits,
          rw (sym at_end) (take-append held events ∙ sym (take-append held (event ∷ events))),
        )
  ]

  publish_here :
      (at room_id : String) (event : E) (id : GoInt) (b : RoomEventBus E)
      → str_eq at room_id ≡ true
      → find_subscriber id ((publish_room_event at event b).subscribers room_id)
        ≡ offer_to event (find_subscriber id (b.subscribers room_id))
  unfolding publish_room_event
  publish_here at room_id event id b hit =
      rw (hit, (eq_iff at room_id).0 hit) (find-offer_all event id (b.subscribers room_id))

  publish_elsewhere :
      (at room_id : String) (event : E) (id : GoInt) (b : RoomEventBus E)
      → str_eq at room_id ≡ false
      → find_subscriber id ((publish_room_event at event b).subscribers room_id)
        ≡ find_subscriber id (b.subscribers room_id)
  unfolding publish_room_event
  publish_elsewhere at room_id event id b miss = rw miss refl

  watch :
      (room_id : String) (id : GoInt) (events : List (String × E)) (held : List E)
      (b : RoomEventBus E)
      → length held ≤ capacity
      → find_subscriber id (b.subscribers room_id) ≡ some (open_channel held)
      → find_subscriber id ((publish_all events b).subscribers room_id)
        ≡ ends_with held (of_room room_id events)
  unfolding publish_all of_room ends_with offer_to
  watch room_id id [] held b fits here =
      rw (here, append-nil held, take-short capacity held fits) refl
  watch room_id id ((at, event) ∷ rest) held b fits here = elim (Bool-cases (str_eq at room_id)) [
    | inl hit ↦
        let (after, e, still, ends) = offered event held (of_room room_id rest) fits in
        watch room_id id rest after (publish_room_event at event b) still
          (publish_here at room_id event id b hit ∙ (ap (offer_to event) here ∙ ap some e))
        ∙ rw hit (ap (λ l. some (open_channel l)) ends)
    | inr miss ↦ rw miss (
        watch room_id id rest held (publish_room_event at event b) fits
          (publish_elsewhere at room_id event id b miss ∙ here))
  ]

  -- One who subscribes to a room gets the events of that room, those of no other, in the order of
  -- their publication, up to 16 of them while nothing is read; later ones are dropped.
  pub subscribe_lem :
      (room_id : String) (events : List (String × E)) (b : RoomEventBus E)
      → find_subscriber
          (subscribe room_id b).0
          ((publish_all events (subscribe room_id b).1).subscribers room_id)
        ≡ some (record { held = take 16 (of_room room_id events); closed = false })
  unfolding subscribe ends_with
  subscribe_lem room_id events b =
      watch room_id _ events [] (subscribe room_id b).1 (omega arith)
        (rw (same room_id) (find-insert _ new_channel (b.subscribers room_id)))
