-- ===== src/Http/Server.antt =====
-- The handlers of internal/interface/http/server.go, events.go and static.go.
use text.Mathlib.Text.{◌==◌ as str_eq}
use supply_chain_game.Prelude.{
  ℕ, Bool, not, List, [], ◌∷◌, Option, none, some, String, if◌then◌else◌, ◌==◌,
}
use supply_chain_game.Word.{GoInt, lt_int}
use supply_chain_game.Result.{Result, ok, err, panic}
use supply_chain_game.Domain.Role.{
  Role, factory, distributor, wholesaler, retailer, unassigned, unknown,
}
use supply_chain_game.Domain.Scenario.{Rand}
use supply_chain_game.Usecase.Ports.{Ports, World, Action, RoomEvent, ◌>>=◌, lift}
use supply_chain_game.Usecase.Rooms.{create_room, get_room, join_room, assign_player_role}
use supply_chain_game.Usecase.Games.{start_game, submit_order, advance_game_week}
use supply_chain_game.Usecase.Games.PlayerStates.{get_player_state}
use supply_chain_game.Http.Answers.{
  healthy, room, session, week, decisions, stream, PlayerRoomEvent, Outcome, answered, panicked,
  Effect, answer, Response, Writer, set_header, write_json, write_error, write_domain_error,
}
use supply_chain_game.Http.Requests.{StartGameRequest, Decoder, Request}

-- `domain.Role(req.Role)`
unfoldable pub role_of_text : String → Role
role_of_text text =
    if str_eq text "factory"
    then factory
    else if str_eq text "distributor"
    then distributor
    else if str_eq text "wholesaler"
    then wholesaler
    else if str_eq text "retailer"
    then retailer
    else if str_eq text ""
    then unassigned
    else unknown text

-- The answer to a call of a service: `done` of its value, or the answer to its error.
unfoldable pub respond :
    {F : Type 0} {A : Type 0} → Writer → (A → Response F) → Result A → Outcome F
respond w done (ok a) = answered (done a)
respond w done (err e) = answered (write_domain_error w e)
respond w done panic = panicked w.headers

abbrev pub respond_with :
    {F W : Type 0} {A : Type 0} → Writer → Action W A → (A → Response F) → Effect W F
respond_with w call done world = (respond w done (call world).0, (call world).1)

-- What the server is built from beside the services: whether there is a source of events, the page
-- of the application, and the answers of net/http to files and to what no route fits.
pub record Site (Body F : Type 0) : Type 0 where
  pub has_events : Bool
  pub index_page : Option (List ℕ)
  pub static_file : Writer → Request Body → Response F
  pub not_found : Writer → Request Body → Response F
  pub unrouted : Writer → Request Body → Response F

module _ {R S D F Body : Type 0} (ports : Ports R S D F) (rng : Rand) (site : Site Body F)
    (decoder : Decoder Body) where
  abbrev pub Handler : Type 0
  Handler = Writer → Request Body → Effect (World R S D F) F

  abbrev pub handle_health : Handler
  handle_health w r = answer (write_json w 200 healthy)

  unfoldable pub weeks_or_default : GoInt → GoInt
  weeks_or_default max_weeks = if max_weeks == 0 then 30 else max_weeks

  -- A body that does not decode.
  abbrev pub bad_body : Writer → Effect (World R S D F) F
  bad_body w = answer (write_error w 400 "invalid request body")

  unfoldable pub handle_create_room : Handler
  unfolding weeks_or_default
  handle_create_room w r = elim (decoder.create_room r.body) [
    | none ↦ bad_body w
    | some req ↦
        respond_with w (create_room ports (weeks_or_default req.max_weeks))
          (λ made. write_json w 201 (room made))
  ]

  unfoldable pub handle_join_room : String → Handler
  handle_join_room room_id w r = elim (decoder.join_room r.body) [
    | none ↦ bad_body w
    | some req ↦
        respond_with w (join_room ports room_id req.name) (λ joined. write_json w 200 (room joined))
  ]

  unfoldable pub handle_assign_role : String → Handler
  unfolding role_of_text
  handle_assign_role room_id w r = elim (decoder.assign_role r.body) [
    | none ↦ bad_body w
    | some req ↦
        respond_with w (assign_player_role ports room_id req.player_id (role_of_text req.role))
          (λ assigned. write_json w 200 (room assigned))
  ]

  -- The body is decoded only if it is not empty.
  unfoldable pub start_form : Request Body → Option StartGameRequest
  start_form r =
      if lt_int 0 r.content_length
      then decoder.start_game r.body
      else some (record { scenario_id = "" })

  unfoldable pub handle_start_game : String → Handler
  unfolding start_form
  handle_start_game room_id w r = elim (start_form r) [
    | none ↦ bad_body w
    | some req ↦
        respond_with w (start_game ports rng room_id req.scenario_id)
          (λ begun. write_json w 201 (session begun))
  ]

  unfoldable pub handle_submit_order : String → Handler
  handle_submit_order room_id w r = elim (decoder.submit_order r.body) [
    | none ↦ bad_body w
    | some req ↦
        respond_with w (submit_order ports room_id req.player_id req.order)
          (λ ordered. write_json w 200 (decisions ordered))
  ]

  unfoldable pub handle_advance_week : String → Handler
  handle_advance_week room_id w r =
      respond_with w (advance_game_week ports room_id) (λ played. write_json w 200 (week played))

  -- `snapshotEvent`
  unfoldable pub snapshot_event : String → String → Action (World R S D F) (PlayerRoomEvent F)
  snapshot_event room_id player_id = do
    found ← get_room ports room_id
    seen ← get_player_state ports room_id player_id
    lift (ok (record { kind = "room.snapshot"; state = seen }))

  abbrev pub stream_headers : Writer → List (String × String)
  stream_headers w = set_header "Connection" "keep-alive" (
      set_header "Cache-Control" "no-cache"
        (set_header "Content-Type" "text/event-stream" w.headers))

  -- `handleEvents` up to the loop over the events.
  unfoldable pub handle_events : String → Handler
  unfolding snapshot_event
  handle_events room_id w r =
      if str_eq r.player_id ""
      then answer (write_error w 400 "player_id is required")
      else if not site.has_events
      then answer (write_error w 503 "room events are not configured")
      else if not w.flushes
      then answer (write_error w 500 "streaming is not supported")
      else respond_with w (snapshot_event room_id r.player_id)
          (λ first. record { status = 200; headers = stream_headers w; payload = stream first })

  -- The loop of `handleEvents`: the events that arrive, each with the world in which the player's
  -- state is read. An event for which there is no state is left out.
  unfoldable pub sent_events :
      String → String → List (RoomEvent F × World R S D F) → List (PlayerRoomEvent F)
  sent_events room_id player_id [] = []
  sent_events room_id player_id ((event, world) ∷ rest) =
      let later = sent_events room_id player_id rest in
      elim (get_player_state ports room_id player_id world).0 [
        | ok seen ↦ record { kind = event.kind; state = seen } ∷ later
        | err e ↦ later
        | panic ↦ []
      ]
