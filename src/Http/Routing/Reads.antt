-- ===== src/Http/Routing/Reads.antt =====
-- A request that is not a POST changes nothing.
use text.Mathlib.Text.{◌==◌ as str_eq, starts_with}
use supply_chain_game.Prelude.{◌≡◌, refl, ◌||◌, false, not, String, Option-cases, inl, inr}
use supply_chain_game.Result.{ok}
use supply_chain_game.Domain.Scenario.{Rand}
use supply_chain_game.Usecase.Ports.{Ports, lift}
use supply_chain_game.Usecase.Rooms.{get_room}
use supply_chain_game.Usecase.Games.PlayerStates.{get_player_state}
use supply_chain_game.Usecase.Reads.{
  ReadsOnly, if-ReadsOnly, >>=-ReadsOnly, get_room-ReadsOnly, get_session_by_room-ReadsOnly,
  get_weeks-ReadsOnly, get_analytics-ReadsOnly, export_session-ReadsOnly,
  get_pending_decisions-ReadsOnly, get_player_state-ReadsOnly,
}
use supply_chain_game.Http.Paths.{parse_room_path}
use supply_chain_game.Http.Answers.{Writer}
use supply_chain_game.Http.Requests.{Decoder, Request}
use supply_chain_game.Http.Server.{Site, snapshot_event, handle_events}
use supply_chain_game.Http.Routing.{
  handle_state, get_resource, handle_get_room_resource, handle_app, serve_get, serve,
}

module _ {R S D F Body : Type 0} (ports : Ports R S D F) (rng : Rand) (site : Site Body F)
    (decoder : Decoder Body) where
  snapshot_event-ReadsOnly :
      (room_id player_id : String)
      → ReadsOnly (snapshot_event ports rng site decoder room_id player_id)
  unfolding snapshot_event
  snapshot_event-ReadsOnly room_id player_id =
      >>=-ReadsOnly (get_room ports room_id) _ (get_room-ReadsOnly ports room_id) (λ found.
        >>=-ReadsOnly (get_player_state ports room_id player_id)
          (λ seen. lift (ok (record { kind = "room.snapshot"; state = seen })))
          (get_player_state-ReadsOnly ports room_id player_id) (λ seen w. refl))

  handle_events-ReadsOnly :
      (room_id : String) (w : Writer) (r : Request Body)
      → ReadsOnly (handle_events ports rng site decoder room_id w r)
  unfolding handle_events
  handle_events-ReadsOnly room_id w r =
      if-ReadsOnly (str_eq r.player_id "") _ _ (λ world. refl)
        (if-ReadsOnly (not site.has_events) _ _ (λ world. refl)
          (if-ReadsOnly (not w.flushes) _ _ (λ world. refl)
            (λ world. snapshot_event-ReadsOnly room_id r.player_id world)))

  handle_state-ReadsOnly :
      (room_id : String) (w : Writer) (r : Request Body)
      → ReadsOnly (handle_state ports rng site decoder room_id w r)
  unfolding handle_state
  handle_state-ReadsOnly room_id w r =
      if-ReadsOnly (str_eq r.player_id "") _ _ (λ world. refl)
        (λ world. get_player_state-ReadsOnly ports room_id r.player_id world)

  get_resource-ReadsOnly :
      (room_id action : String) (w : Writer) (r : Request Body)
      → ReadsOnly (get_resource ports rng site decoder room_id action w r)
  unfolding get_resource
  get_resource-ReadsOnly room_id action w r =
      if-ReadsOnly (str_eq action "") _ _ (λ world. get_room-ReadsOnly ports room_id world)
        (if-ReadsOnly (str_eq action "state") _ _ (handle_state-ReadsOnly room_id w r) (
          if-ReadsOnly (str_eq action "session") _ _
            (λ world. get_session_by_room-ReadsOnly ports room_id world)
            (if-ReadsOnly (str_eq action "weeks") _ _
              (λ world. get_weeks-ReadsOnly ports room_id world)
              (if-ReadsOnly (str_eq action "analytics") _ _
                (λ world. get_analytics-ReadsOnly ports room_id world)
                (if-ReadsOnly (str_eq action "decisions") _ _
                  (λ world. get_pending_decisions-ReadsOnly ports room_id world)
                  (if-ReadsOnly (str_eq action "export") _ _
                    (λ world. export_session-ReadsOnly ports room_id world)
                    (if-ReadsOnly (str_eq action "events") _ _ (handle_events-ReadsOnly room_id w r)
                      (λ world. refl))))))))

  handle_get_room_resource-ReadsOnly :
      (w : Writer) (r : Request Body)
      → ReadsOnly (handle_get_room_resource ports rng site decoder w r)
  unfolding handle_get_room_resource
  handle_get_room_resource-ReadsOnly w r =
      if-ReadsOnly (str_eq (parse_room_path r.path).0 "") _ _ (λ world. refl)
        (get_resource-ReadsOnly (parse_room_path r.path).0 (parse_room_path r.path).1 w r)

  handle_app-ReadsOnly :
      (w : Writer) (r : Request Body) → ReadsOnly (handle_app ports rng site decoder w r)
  unfolding handle_app
  handle_app-ReadsOnly w r world = elim (Option-cases site.index_page) [
    | inl e ↦ rw (handle_app, e) refl
    | inr (index, e) ↦ rw (handle_app, e) refl
  ]

  serve_get-ReadsOnly :
      (w : Writer) (r : Request Body) → ReadsOnly (serve_get ports rng site decoder w r)
  unfolding serve_get
  serve_get-ReadsOnly w r =
      if-ReadsOnly (starts_with r.path "/rooms/") _ _ (handle_get_room_resource-ReadsOnly w r) (
        if-ReadsOnly (str_eq r.path "/") _ _ (λ world. refl)
          (if-ReadsOnly (str_eq r.path "/app") _ _ (handle_app-ReadsOnly w r) (
            if-ReadsOnly (starts_with r.path "/static/") _ _ (λ world. refl)
              (if-ReadsOnly (str_eq r.path "/healthz") _ _ (λ world. refl) (λ world. refl)))))

  pub serve-ReadsOnly :
      (w : Writer) (r : Request Body)
      → str_eq r.method "POST" ≡ false
      → ReadsOnly (serve ports rng site decoder w r)
  unfolding serve
  serve-ReadsOnly w r no_post =
      if-ReadsOnly (str_eq r.method "GET" || str_eq r.method "HEAD") _ _ (serve_get-ReadsOnly w r)
        (λ world. rw no_post refl)
