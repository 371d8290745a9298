-- ===== src/Http/Tests.antt =====
-- Requests to the services over the stores in memory, at the room of the game of two weeks.
use Prim.Native.String.{◌++◌ as ◌<>◌}
use supply_chain_game.Prelude.{
  ℕ, ◌≡◌, ◌≢◌, ◌⊎◌, refl, [], ◌∷◌, none, some, String, true, if◌then◌else◌,
}
use supply_chain_game.Prelude.Texts.{different_of}
use supply_chain_game.Domain.Role.{factory, distributor, role_eq}
use supply_chain_game.Domain.RoleMap.{insert, lookup}
use supply_chain_game.Domain.Scenario.Tests.{zeros}
use supply_chain_game.Domain.Session.Tests.{session}
use supply_chain_game.Usecase.Decisions.{snapshot}
use supply_chain_game.Usecase.Games.{submit_order}
use supply_chain_game.Usecase.Games.PlayerStates.{playing_state}
use supply_chain_game.Usecase.Games.PlayerStates.View.{playing_state-hides}
use supply_chain_game.Memory.Tests.{ports, before_orders, room, player, decided}
use supply_chain_game.Prelude.Trim.{trim}
use supply_chain_game.Http.Paths.{is_slash, parse_room_path}
use supply_chain_game.Http.Paths.RoundTrip.{HasNoSlash, parse_room_path-action}
use supply_chain_game.Http.Paths.Sound.{parse_room_path_sound}
use supply_chain_game.Http.Answers.{
  Writer, get_header, decisions, answered, write_error, write_json,
}
use supply_chain_game.Http.Requests.{Decoder, Request, SubmitOrderRequest}
use supply_chain_game.Http.Server.{Site, respond_with}
use supply_chain_game.Http.Routing.{serve}
use supply_chain_game.Http.Routing.Commands.{posted, serve-submit_order}
use supply_chain_game.Http.Middleware.{allows_any, cors_writer, api_handler}
use supply_chain_game.Http.Middleware.Cors.{IsGranted, cors_writer-grants}
use supply_chain_game.Http.Middleware.Stack.{
  for_events, api_handler-ReadsOnly, api_handler-no_stream,
}

abbrev six_by_b : SubmitOrderRequest
six_by_b = record { player_id = "b"; order = 6 }

-- A decoder that reads every body as an order of six by the player "b".
abbrev decoder : Decoder ℕ
decoder = record {
  create_room = λ body. none;
  join_room = λ body. none;
  assign_role = λ body. none;
  start_game = λ body. none;
  submit_order = λ body. some six_by_b;
}

abbrev writer : Writer
writer = record { headers = []; flushes = true }

abbrev site : Site ℕ ℕ
site = record {
  has_events = true;
  index_page = none;
  static_file = λ w r. write_error w 404 "no file";
  not_found = λ w r. write_error w 404 "not found";
  unrouted = λ w r. write_error w 405 "no route";
}

abbrev request : String → String → Request ℕ
request method path = record {
  method = method;
  path = path;
  player_id = "b";
  origin = "http://game";
  content_length = 2;
  body = 0;
}

no_slash_in_r1 : HasNoSlash "r1"
no_slash_in_r1 = (refl, (refl, tt))

not_empty_r1 : ◌≢◌ {A = String} "r1" ""
not_empty_r1 = different_of refl

parse_room_path-action_example :
    parse_room_path ("/rooms/" <> ("r1" <> ("/" <> "next"))) ≡ ("r1", "next")
parse_room_path-action_example =
    parse_room_path-action "r1" "next" no_slash_in_r1 (refl, (refl, (refl, (refl, tt))))
      (different_of refl)

next_of_r1 : parse_room_path "/rooms/r1/next" ≡ ("r1", "next")
next_of_r1 =
    parse_room_path-action "r1" "next" no_slash_in_r1 (refl, (refl, (refl, (refl, tt))))
      (different_of refl)

parse_room_path_sound_example :
    ((trim is_slash "/rooms/r1/next" ≡ "rooms" <> ("/" <> "r1")) × (◌≡◌ {A = String} "next" ""))
    ⊎ (trim is_slash "/rooms/r1/next" ≡ "rooms" <> ("/" <> ("r1" <> ("/" <> "next"))))
parse_room_path_sound_example =
    parse_room_path_sound "/rooms/r1/next" "r1" "next" next_of_r1 not_empty_r1

serve-submit_order_example :
    serve ports zeros site decoder writer (posted (request "POST" "") "r1" "orders") before_orders
    ≡ respond_with writer
        (submit_order ports "r1" "b" 6)
        (λ ordered. write_json writer 200 (decisions ordered))
        before_orders
serve-submit_order_example =
    serve-submit_order ports zeros site decoder writer (request "POST" "") "r1" no_slash_in_r1
      not_empty_r1 before_orders six_by_b refl

playing_state-hides_example :
    playing_state ports room
      (player "b" distributor)
      session
      (snapshot (record decided { orders = insert factory 99 decided.orders }))
    ≡ playing_state ports room (player "b" distributor) session (snapshot decided)
unfolding role_eq lookup
playing_state-hides_example =
    playing_state-hides ports room (player "b" distributor) session decided factory 99 refl
      (7, refl)

cors_writer-grants_example :
    (IsGranted ("http://game" ∷ []) "http://game"
      → get_header "Access-Control-Allow-Origin"
          (cors_writer ("http://game" ∷ []) "http://game" writer).headers
        ≡ (if allows_any ("http://game" ∷ []) then "*" else "http://game"))
    × ((IsGranted ("http://game" ∷ []) "http://game" → ⊥)
        → get_header "Access-Control-Allow-Origin"
            (cors_writer ("http://game" ∷ []) "http://game" writer).headers
          ≡ "")
unfolding get_header
cors_writer-grants_example = cors_writer-grants ("http://game" ∷ []) "http://game" writer refl

api_handler-ReadsOnly_example :
    (api_handler
      (serve ports zeros site decoder)
      ("*" ∷ [])
      writer
      (request "GET" "/rooms/r1/export")
      before_orders).1
    ≡ before_orders
api_handler-ReadsOnly_example =
    api_handler-ReadsOnly ports zeros site decoder ("*" ∷ []) writer
      (request "GET" "/rooms/r1/export") before_orders refl

api_handler-no_stream_example :
    (seen : Writer) × (api_handler
        (serve ports zeros site decoder)
        ("*" ∷ [])
        writer
        (for_events (request "GET" "") "r1")
        before_orders
      ≡ (answered (write_error seen 500 "streaming is not supported"), before_orders))
api_handler-no_stream_example =
    api_handler-no_stream ports zeros site decoder ("*" ∷ []) writer (request "GET" "") "r1"
      before_orders no_slash_in_r1 not_empty_r1 (different_of refl) refl
