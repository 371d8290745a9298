-- ===== src/Http/Answers.antt =====
-- `writeJSON`, `writeError`, `writeDomainError` and `writeFile` of internal/interface/http/server.go, and
-- the texts of the errors.
pub mod Statuses
pub mod Headers
use Prim.Native.String.{◌++◌ as ◌<>◌}
use text.Mathlib.Text.{◌==◌ as str_eq}
use supply_chain_game.Prelude.{
  ℕ, Bool, List, [], ◌∷◌, Option, none, some, String, if◌then◌else◌, length,
}
use supply_chain_game.Prelude.Decimal.{itoa}
use supply_chain_game.Result.{
  Error, invalid_max_weeks, empty_player_name, room_full, room_not_found, player_already_in,
  cannot_join_started, player_not_found, invalid_role, role_already_taken, room_not_ready,
  game_already_started, player_role_missing, scenario_demand_empty, invalid_delay, negative_value,
  session_not_active, session_not_found, week_limit_reached, week_not_ready,
  week_decisions_not_found, negative_order, missing_decision, negative_decision,
  demand_max_below_min, demand_change_period_not_positive, goods_pipeline_length,
  order_pipeline_length, production_pipeline_length, unsupported_demand_mode, store_failed,
  id_failed,
}
use supply_chain_game.Domain.Role.{role_text}
use supply_chain_game.Domain.Room.{Room}
use supply_chain_game.Domain.Session.{GameSession, WeekState}
use supply_chain_game.Domain.Analytics.{SessionAnalytics}
use supply_chain_game.Usecase.Decisions.{WeeklyDecisionsSnapshot}
use supply_chain_game.Usecase.Ports.{ExportedFile}
use supply_chain_game.Usecase.Games.PlayerStates.{PlayerGameState}

-- `http.Header`: the names are distinct.
abbrev pub Headers : Type 0
Headers = List (String × String)

-- `header.Get(name)`, which is empty for a missing header.
unfoldable pub get_header : String → Headers → String
get_header name [] = ""
get_header name ((other, value) ∷ rest) = if str_eq other name then value else get_header name rest

-- `header.Set(name, value)`
unfoldable pub set_header : String → String → Headers → Headers
set_header name value [] = (name, value) ∷ []
set_header name value ((other, old) ∷ rest) =
    if str_eq other name then (name, value) ∷ rest else (other, old) ∷ set_header name value rest

-- What an event tells a player, `PlayerRoomEvent`.
pub record PlayerRoomEvent (F : Type 0) : Type 0 where
  pub kind : String
  pub state : PlayerGameState F

-- What an answer carries: a value that is written as JSON, bytes, or nothing.
pub data Payload (F : Type 0) : Type 0 where
  no_payload healthy : Payload F
  message : String → Payload F
  room : Room → Payload F
  session : GameSession → Payload F
  weeks : List WeekState → Payload F
  week : WeekState → Payload F
  analytics : SessionAnalytics F → Payload F
  decisions : WeeklyDecisionsSnapshot → Payload F
  state : PlayerGameState F → Payload F
  bytes : List ℕ → Payload F
  -- A stream of events, with its first event.
  stream : PlayerRoomEvent F → Payload F

pub record Response (F : Type 0) : Type 0 where
  pub status : ℕ
  pub headers : Headers
  pub payload : Payload F

-- How a handler ends: with an answer, or with a panic and the headers that it has set so far.
pub data Outcome (F : Type 0) : Type 0 where
  answered : Response F → Outcome F
  panicked : Headers → Outcome F

-- A handler as net/http sees it, over the state `W` that it may change.
abbrev pub Effect : Type 0 → Type 0 → Type 0
Effect W F = W → Outcome F × W

abbrev pub answer : {W F : Type 0} → Response F → Effect W F
answer response w = (answered response, w)

-- A response writer: the headers that are set so far, and whether it is an `http.Flusher`.
pub record Writer : Type 0 where
  pub headers : Headers
  pub flushes : Bool

module _ {F : Type 0} where
  unfoldable pub write_json : Writer → ℕ → Payload F → Response F
  write_json w status payload = record {
    status = status;
    headers = set_header "Content-Type" "application/json" w.headers;
    payload = payload;
  }

  unfoldable pub write_error : Writer → ℕ → String → Response F
  unfolding write_json
  write_error w status text = write_json w status (message text)

  unfoldable pub write_file : Writer → ℕ → ExportedFile → Response F
  write_file w status file = record {
    status = status;
    headers = set_header "Content-Length" (itoa (length file.content)) (
        set_header "Content-Disposition" ("attachment; filename=\"" <> (file.file_name <> "\""))
          (set_header "Content-Type" file.content_type w.headers));
    payload = bytes file.content;
  }

-- `err.Error()`. The texts of a storage client and of the random source are not the program's.
unfoldable pub error_text : Error → String
error_text scenario_demand_empty = "scenario consumer demand must not be empty"
error_text invalid_delay = "scenario delays must be positive"
error_text negative_value = "scenario values must not be negative"
error_text session_not_active = "game session is not active"
error_text session_not_found = "game session not found"
error_text week_limit_reached = "game session reached max weeks"
error_text (missing_decision role) = "missing decision for role" <> (": " <> role_text role)
error_text (negative_decision role) = "decision must not be negative" <> (": " <> role_text role)
error_text negative_order = "decision must not be negative"
error_text week_not_ready = "not all player decisions are submitted"
error_text week_decisions_not_found = "week decisions not found"
error_text invalid_max_weeks = "max weeks must be positive"
error_text empty_player_name = "player name must not be empty"
error_text room_full = "room already has 4 players"
error_text room_not_found = "room not found"
error_text player_already_in = "player already joined the room"
error_text cannot_join_started = "cannot join a started room"
error_text player_not_found = "player not found"
error_text invalid_role = "invalid role"
error_text role_already_taken = "role already taken"
error_text room_not_ready = "room is not ready to start"
error_text game_already_started = "game already started"
error_text player_role_missing = "player role is not assigned"
error_text demand_max_below_min = "demand_max must be greater than or equal to demand_min"
error_text demand_change_period_not_positive = "demand_change_period must be positive"
error_text (unsupported_demand_mode mode) = "unsupported demand mode: " <> mode
error_text goods_pipeline_length = "initial goods pipeline length must match shipping delay"
error_text order_pipeline_length = "initial order pipeline length must match order delay"
error_text production_pipeline_length =
    "initial production pipeline length must match production delay"
error_text store_failed = "store failed"
error_text id_failed = "identifier failed"

-- The cases of the `switch`: 404, 400 and 409; `none` for any other error.
unfoldable pub domain_status : Error → Option ℕ
domain_status room_not_found = some 404
domain_status session_not_found = some 404
domain_status week_decisions_not_found = some 404
domain_status invalid_max_weeks = some 400
domain_status empty_player_name = some 400
domain_status player_already_in = some 400
domain_status player_not_found = some 400
domain_status invalid_role = some 400
domain_status negative_order = some 400
domain_status (negative_decision role) = some 400
domain_status player_role_missing = some 400
domain_status room_full = some 409
domain_status cannot_join_started = some 409
domain_status role_already_taken = some 409
domain_status room_not_ready = some 409
domain_status game_already_started = some 409
domain_status week_not_ready = some 409
domain_status session_not_active = some 409
domain_status week_limit_reached = some 409
domain_status _ = none

unfoldable pub write_domain_error : {F : Type 0} → Writer → Error → Response F
unfolding write_error domain_status
write_domain_error w e = elim (domain_status e) [
  | some status ↦ write_error w status (error_text e)
  | none ↦ write_error w 500 "internal server error"
]
