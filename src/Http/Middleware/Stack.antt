-- ===== src/Http/Middleware/Stack.antt =====
-- The handler that `main` serves: recovery around logging around CORS around the server.
use text.Mathlib.Text.{◌==◌ as str_eq}
use Prim.Native.String.{◌++◌ as ◌<>◌}
use text.Mathlib.TextPositions.{starts_with-append}
use supply_chain_game.Prelude.{
  ◌≡◌, ◌≢◌, inl, inr, refl, ◌∙◌, true, false, String, List, [], ◌∷◌, Bool-cases,
}
use supply_chain_game.Prelude.Texts.{not_equal, different_of}
use supply_chain_game.Domain.Scenario.{Rand}
use supply_chain_game.Usecase.Ports.{Ports, World}
use supply_chain_game.Http.Paths.RoundTrip.{HasNoSlash, parse_room_path-action}
use supply_chain_game.Http.Answers.{Writer, answered, write_error}
use supply_chain_game.Http.Requests.{Decoder, Request}
use supply_chain_game.Http.Server.{Site, handle_events}
use supply_chain_game.Http.Routing.{serve, serve_get, get_resource, handle_get_room_resource}
use supply_chain_game.Http.Routing.Reads.{serve-ReadsOnly}
use supply_chain_game.Http.Middleware.{
  cors_writer, cors_handler, with_cors, HttpHandler, with_request_logging, with_recovery, recovered,
  api_handler,
}
use supply_chain_game.Http.Middleware.Cors.{cors_writer-flushes}

module _ {W Body F : Type 0} (next : HttpHandler W Body F) (w : Writer) (r : Request Body)
    (state : W) where
  -- The writer that the server sees: it does not flush.
  pub with_cors-reaches :
      (origins : List String)
      → str_eq r.method "OPTIONS" ≡ false
      → (seen : Writer) × (seen.flushes ≡ w.flushes)
        × (with_cors next origins w r state ≡ next seen r state)
  unfolding with_cors cors_handler
  with_cors-reaches [] other = (w, refl, refl)
  with_cors-reaches (origin ∷ rest) other = (
    cors_writer (origin ∷ rest) r.origin w,
    cors_writer-flushes (origin ∷ rest) r.origin w,
    rw other refl,
  )

  with_cors-ReadsOnly :
      (origins : List String)
      → ((seen : Writer) → (next seen r state).1 ≡ state)
      → (with_cors next origins w r state).1 ≡ state
  unfolding with_cors cors_handler
  with_cors-ReadsOnly [] reads = reads w
  with_cors-ReadsOnly (origin ∷ rest) reads = elim (Bool-cases (str_eq r.method "OPTIONS")) [
    | inl preflight ↦ rw preflight refl
    | inr other ↦ rw other (reads (cors_writer (origin ∷ rest) r.origin w))
  ]

-- A request for the events of a room.
abbrev pub for_events : {Body : Type 0} → Request Body → String → Request Body
for_events r room_id = record r {
  method = "GET";
  path = "/rooms/" <> (room_id <> ("/" <> "events"));
}

module _ {R S D F Body : Type 0} (ports : Ports R S D F) (rng : Rand) (site : Site Body F)
    (decoder : Decoder Body) (origins : List String) where
  -- A request by any method but POST, sent to the whole handler, changes nothing: no store, no event,
  -- and neither an identifier nor the clock is drawn on.
  pub api_handler-ReadsOnly :
      (w : Writer) (r : Request Body) (world : World R S D F)
      → str_eq r.method "POST" ≡ false
      → (api_handler (serve ports rng site decoder) origins w r world).1 ≡ world
  unfolding api_handler with_recovery with_request_logging
  api_handler-ReadsOnly w r world no_post =
      with_cors-ReadsOnly (serve ports rng site decoder) (record w { flushes = false }) r world
        origins (λ seen. serve-ReadsOnly ports rng site decoder seen r no_post world)

  deaf_events :
      (w : Writer) (r : Request Body) (room_id : String) (world : World R S D F)
      → r.player_id ≢ ""
      → site.has_events ≡ true
      → w.flushes ≡ false
      → handle_events ports rng site decoder room_id w r world
        ≡ (answered (write_error w 500 "streaming is not supported"), world)
  unfolding handle_events
  deaf_events w r room_id world some_player has_events deaf =
      rw (not_equal some_player, has_events, deaf) refl

  serve-events :
      (w : Writer) (r : Request Body) (room_id : String) (world : World R S D F)
      → HasNoSlash room_id
      → room_id ≢ ""
      → serve ports rng site decoder w (for_events r room_id) world
        ≡ handle_events ports rng site decoder room_id w (for_events r room_id) world
  unfolding serve serve_get handle_get_room_resource get_resource
  serve-events w r room_id world plain some_id =
      rw
        (
          starts_with-append "/rooms/" (room_id <> ("/" <> "events")),
          parse_room_path-action room_id "events" plain
              (refl, (refl, (refl, (refl, (refl, (refl, tt)))))) (different_of refl),
          not_equal some_id,
        )
        refl

  -- A request for the events of a room that names a player, sent to the whole handler where there is
  -- a source of events, the room with no slash and not empty: whatever the writer of net/http can do, the answer is the error 500 "streaming is not
  -- supported", and no event is ever sent.
  pub api_handler-no_stream :
      (w : Writer) (r : Request Body) (room_id : String) (world : World R S D F)
      → HasNoSlash room_id
      → room_id ≢ ""
      → r.player_id ≢ ""
      → site.has_events ≡ true
      → (seen : Writer) × (api_handler
            (serve ports rng site decoder)
            origins
            w
            (for_events r room_id)
            world
          ≡ (answered (write_error seen 500 "streaming is not supported"), world))
  unfolding api_handler with_recovery with_request_logging recovered
  api_handler-no_stream w r room_id world plain some_id some_player has_events =
      let (seen, deaf, reached) =
        with_cors-reaches (serve ports rng site decoder) (record w { flushes = false })
          (for_events r room_id) world origins refl in
      (
        seen,
        rw
            (reached
              ∙ serve-events seen r room_id world plain some_id
              ∙ deaf_events seen (for_events r room_id) room_id world some_player has_events deaf)
            refl,
      )
