-- ===== src/Http/Routing/Commands.antt =====
-- From the path of a POST request to the service that it calls.
use Prim.Native.String.{◌++◌ as ◌<>◌}
use text.Mathlib.TextPositions.{starts_with-append}
use supply_chain_game.Prelude.{◌≡◌, ◌≢◌, refl, ◌∙◌, String, some}
use supply_chain_game.Prelude.Texts.{not_equal, different_of}
use supply_chain_game.Domain.Scenario.{Rand}
use supply_chain_game.Usecase.Ports.{Ports, World}
use supply_chain_game.Usecase.Games.{submit_order}
use supply_chain_game.Http.Paths.RoundTrip.{HasNoSlash, parse_room_path-action}
use supply_chain_game.Http.Answers.{Writer, decisions, write_json}
use supply_chain_game.Http.Requests.{Decoder, Request, SubmitOrderRequest}
use supply_chain_game.Http.Server.{Site, respond_with, handle_submit_order}
use supply_chain_game.Http.Routing.{room_command, handle_room_command, serve_post, serve}

-- A request that posts an action to a room.
abbrev pub posted : {Body : Type 0} → Request Body → String → String → Request Body
posted r room_id action = record r {
  method = "POST";
  path = "/rooms/" <> (room_id <> ("/" <> action));
}

orders-ne-empty : ◌≢◌ {A = String} "orders" ""
orders-ne-empty = different_of refl

module _ {R S D F Body : Type 0} (ports : Ports R S D F) (rng : Rand) (site : Site Body F)
    (decoder : Decoder Body) (w : Writer) (r : Request Body) (room_id : String)
    (plain : HasNoSlash room_id) (some_id : room_id ≢ "") (world : World R S D F) where
  serve-room_command :
      (action : String)
      → HasNoSlash action
      → action ≢ ""
      → serve ports rng site decoder w (posted r room_id action) world
        ≡ room_command ports rng site decoder room_id action w (posted r room_id action) world
  unfolding serve serve_post handle_room_command
  serve-room_command action h some_action =
      rw
        (
          starts_with-append "/rooms/" (room_id <> ("/" <> action)),
          parse_room_path-action room_id action plain h some_action,
          not_equal some_id,
        )
        refl

  submit_order-decoded :
      (req : SubmitOrderRequest)
      → decoder.submit_order r.body ≡ some req
      → handle_submit_order ports rng site decoder room_id w (posted r room_id "orders") world
        ≡ respond_with w
            (submit_order ports room_id req.player_id req.order)
            (λ ordered. write_json w 200 (decisions ordered))
            world
  unfolding handle_submit_order
  submit_order-decoded req decoded = rw (handle_submit_order, decoded) refl

  -- An order that is posted to a room, in a body that decodes, is submitted to that room by that
  -- player: the answer is that of the service, and so is what it leaves.
  pub serve-submit_order :
      (req : SubmitOrderRequest)
      → decoder.submit_order r.body ≡ some req
      → serve ports rng site decoder w (posted r room_id "orders") world
        ≡ respond_with w
            (submit_order ports room_id req.player_id req.order)
            (λ ordered. write_json w 200 (decisions ordered))
            world
  unfolding room_command
  serve-submit_order req decoded =
      serve-room_command "orders" (refl, (refl, (refl, (refl, (refl, (refl, tt)))))) orders-ne-empty
      ∙ submit_order-decoded req decoded
