-- ===== src/Http/Requests.antt =====
-- What a request holds, and the bodies that internal/interface/http/server.go decodes.
use supply_chain_game.Prelude.{Option, String}
use supply_chain_game.Word.{GoInt}

pub record CreateRoomRequest : Type 0 where
  pub max_weeks : GoInt

pub record JoinRoomRequest : Type 0 where
  pub name : String

pub record AssignRoleRequest : Type 0 where
  pub player_id : String
  pub role : String

pub record StartGameRequest : Type 0 where
  pub scenario_id : String

pub record SubmitOrderRequest : Type 0 where
  pub player_id : String
  pub order : GoInt

-- encoding/json: what a body decodes to as each of the requests, `none` for an error.
pub record Decoder (Body : Type 0) : Type 0 where
  pub create_room : Body → Option CreateRoomRequest
  pub join_room : Body → Option JoinRoomRequest
  pub assign_role : Body → Option AssignRoleRequest
  pub start_game : Body → Option StartGameRequest
  pub submit_order : Body → Option SubmitOrderRequest

-- `player_id` and `origin` are the query parameter and the header of that name, empty if missing.
pub record Request (Body : Type 0) : Type 0 where
  pub method : String
  pub path : String
  pub player_id : String
  pub origin : String
  pub content_length : GoInt
  pub body : Body
