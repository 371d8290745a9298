-- ===== src/Http/Routing.antt =====
-- `registerRoutes`, `handleGetRoomResource` and `handleRoomCommand` of internal/interface/http/server.go.
pub mod Reads
pub mod Commands
use text.Mathlib.Text.{◌==◌ as str_eq, starts_with}
use supply_chain_game.Prelude.{◌||◌, Bool, List, ℕ, Option, none, some, String, if◌then◌else◌}
use supply_chain_game.Result.{Result, ok}
use supply_chain_game.Domain.Scenario.{Rand}
use supply_chain_game.Usecase.Ports.{Ports, World, Action, lift}
use supply_chain_game.Usecase.Rooms.{get_room}
use supply_chain_game.Usecase.Games.{
  get_session_by_room, get_weeks, get_analytics, get_pending_decisions, export_session,
}
use supply_chain_game.Usecase.Games.PlayerStates.{get_player_state}
use supply_chain_game.Http.Paths.{parse_room_path}
use supply_chain_game.Http.Answers.{
  room, session, weeks, analytics, decisions, state, bytes, no_payload, answer, Response, Writer,
  set_header, write_json, write_error, write_file,
}
use supply_chain_game.Http.Requests.{Decoder, Request}
use supply_chain_game.Http.Server.{
  Site, Handler, respond_with, handle_health, handle_create_room, handle_join_room,
  handle_assign_role, handle_start_game, handle_submit_order, handle_advance_week, handle_events,
}

module _ {R S D F Body : Type 0} (ports : Ports R S D F) (rng : Rand) (site : Site Body F)
    (decoder : Decoder Body) where
  abbrev not_found : Handler ports rng site decoder
  not_found w r = answer (site.not_found w r)

  unfoldable pub handle_state : String → Handler ports rng site decoder
  handle_state room_id w r =
      if str_eq r.player_id ""
      then answer (write_error w 400 "player_id is required")
      else respond_with w (get_player_state ports room_id r.player_id)
          (λ seen. write_json w 200 (state seen))

  -- The `switch` of `handleGetRoomResource`.
  unfoldable pub get_resource : String → String → Handler ports rng site decoder
  unfolding handle_state
  get_resource room_id action w r =
      if str_eq action ""
      then respond_with w (get_room ports room_id) (λ found. write_json w 200 (room found))
      else if str_eq action "state"
      then handle_state room_id w r
      else if str_eq action "session"
      then respond_with w (get_session_by_room ports room_id)
          (λ found. write_json w 200 (session found))
      else if str_eq action "weeks"
      then respond_with w (get_weeks ports room_id) (λ found. write_json w 200 (weeks found))
      else if str_eq action "analytics"
      then respond_with w (get_analytics ports room_id)
          (λ found. write_json w 200 (analytics found))
      else if str_eq action "decisions"
      then respond_with w (get_pending_decisions ports room_id)
          (λ found. write_json w 200 (decisions found))
      else if str_eq action "export"
      then respond_with w (export_session ports room_id) (λ file. write_file w 200 file)
      else if str_eq action "events"
      then handle_events ports rng site decoder room_id w r
      else not_found w r

  unfoldable pub handle_get_room_resource : Handler ports rng site decoder
  unfolding get_resource
  handle_get_room_resource w r =
      let (room_id, action) = parse_room_path r.path in
      if str_eq room_id "" then not_found w r else get_resource room_id action w r

  -- The `switch` of `handleRoomCommand`.
  unfoldable pub room_command : String → String → Handler ports rng site decoder
  room_command room_id action =
      if str_eq action "players"
      then handle_join_room ports rng site decoder room_id
      else if str_eq action "roles"
      then handle_assign_role ports rng site decoder room_id
      else if str_eq action "start"
      then handle_start_game ports rng site decoder room_id
      else if str_eq action "orders"
      then handle_submit_order ports rng site decoder room_id
      else if str_eq action "next"
      then handle_advance_week ports rng site decoder room_id
      else not_found

  unfoldable pub handle_room_command : Handler ports rng site decoder
  unfolding room_command
  handle_room_command w r =
      let (room_id, action) = parse_room_path r.path in
      if str_eq room_id "" then not_found w r else room_command room_id action w r

  -- `http.Redirect` to the application.
  abbrev pub handle_root : Handler ports rng site decoder
  handle_root w r = answer (record {
    status = 302;
    headers = set_header "Location" "/app" w.headers;
    payload = no_payload;
  })

  unfoldable pub handle_app : Handler ports rng site decoder
  handle_app w r = elim site.index_page [
    | none ↦ answer (write_error w 500 "failed to load app")
    | some index ↦ answer (record {
      status = 200;
      headers = set_header "Content-Type" "text/html; charset=utf-8" w.headers;
      payload = bytes index;
    })
  ]

  unfoldable pub serve_get : Handler ports rng site decoder
  unfolding handle_get_room_resource handle_app
  serve_get w r =
      if starts_with r.path "/rooms/"
      then handle_get_room_resource w r
      else if str_eq r.path "/"
      then handle_root w r
      else if str_eq r.path "/app"
      then handle_app w r
      else if starts_with r.path "/static/"
      then answer (site.static_file w r)
      else if str_eq r.path "/healthz"
      then handle_health ports rng site decoder w r
      else answer (site.unrouted w r)

  unfoldable pub serve_post : Handler ports rng site decoder
  unfolding handle_room_command
  serve_post w r =
      if starts_with r.path "/rooms/"
      then handle_room_command w r
      else if str_eq r.path "/rooms"
      then handle_create_room ports rng site decoder w r
      else answer (site.unrouted w r)

  -- The mux: a route for GET serves HEAD too. Paths are clean, as those of clients are; what the mux
  -- answers by itself is a parameter.
  unfoldable pub serve : Handler ports rng site decoder
  unfolding serve_get serve_post
  serve w r =
      if str_eq r.method "GET" || str_eq r.method "HEAD"
      then serve_get w r
      else if str_eq r.method "POST"
      then serve_post w r
      else answer (site.unrouted w r)
