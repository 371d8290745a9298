-- ===== src/Http/Middleware.antt =====
-- internal/interface/http/middleware.go and logging.go: what stands around the handlers, and how
-- cmd/api/main.go puts it together.
pub mod Cors
pub mod Stack
use Prim.Native.String.{◌++◌ as ◌<>◌}
use text.Mathlib.Text.{◌==◌ as str_eq, find?}
use supply_chain_game.Prelude.{
  ℕ, ◌+◌, Bool, true, false, not, ◌&&◌, ◌||◌, List, [], ◌∷◌, Option, none, some, String,
  if◌then◌else◌, ◌==◌,
}
use supply_chain_game.Http.Answers.{
  no_payload, Outcome, answered, panicked, Effect, answer, Response, Writer, Headers, get_header,
  set_header, write_error,
}
use supply_chain_game.Http.Requests.{Request}

-- The set `allowed` without `*`, and whether `*` is among the origins.
unfoldable pub allows_any : List String → Bool
allows_any [] = false
allows_any (origin ∷ rest) = if str_eq origin "*" then true else allows_any rest

unfoldable pub is_allowed_origin : String → List String → Bool
is_allowed_origin origin [] = false
is_allowed_origin origin (allowed ∷ rest) =
    if str_eq allowed "*"
    then is_allowed_origin origin rest
    else if str_eq allowed origin
    then true
    else is_allowed_origin origin rest

-- `strings.Contains(s, part)`
abbrev pub contains : String → String → Bool
contains s part = elim (find? s part) [ none ↦ false | some at ↦ true ]

unfoldable pub append_vary : String → String → String
append_vary current value =
    if str_eq current ""
    then value
    else if contains current value
    then current
    else current <> (", " <> value)

-- A handler of net/http.
abbrev pub HttpHandler : Type 0 → Type 0 → Type 0 → Type 0
HttpHandler W Body F = Writer → Request Body → Effect W F

-- The headers that `WithCORS` sets for an origin that may ask.
unfoldable pub cors_headers : List String → String → Headers → Headers
unfolding allows_any append_vary
cors_headers allowed origin headers =
    set_header "Access-Control-Allow-Headers" "Content-Type, Authorization" (
      set_header "Access-Control-Allow-Methods" "GET, POST, OPTIONS" (
        if allows_any allowed
        then set_header "Access-Control-Allow-Origin" "*" headers
        else set_header "Vary" (append_vary (get_header "Vary" headers) "Origin")
            (set_header "Access-Control-Allow-Origin" origin headers)))

unfoldable pub may_ask : List String → String → Bool
unfolding allows_any is_allowed_origin
may_ask allowed origin =
    not (str_eq origin "") && (allows_any allowed || is_allowed_origin origin allowed)

unfoldable pub cors_writer : List String → String → Writer → Writer
unfolding may_ask cors_headers
cors_writer allowed origin w =
    if may_ask allowed origin
    then record w { headers = cors_headers allowed origin w.headers }
    else w

-- What `WithRecovery` answers at the end of the handler.
unfoldable pub recovered : {F : Type 0} → Outcome F → Response F
recovered (answered response) = response
recovered (panicked headers) =
    write_error (record { headers = headers; flushes = false }) 500 "internal server error"

module _ {W Body F : Type 0} where
  unfoldable pub cors_handler : List String → HttpHandler W Body F → HttpHandler W Body F
  unfolding cors_writer
  cors_handler allowed next w r =
      if str_eq r.method "OPTIONS"
      then answer (record {
        status = 204;
        headers = (cors_writer allowed r.origin w).headers;
        payload = no_payload;
      })
      else next (cors_writer allowed r.origin w) r

  unfoldable pub with_cors : HttpHandler W Body F → List String → HttpHandler W Body F
  with_cors next [] = next
  with_cors next (origin ∷ rest) = cors_handler (origin ∷ rest) next

  -- `statusRecorder` embeds an `http.ResponseWriter`: it has the three methods of that interface, and
  -- no `Flush`. What is logged is left out.
  unfoldable pub with_request_logging : HttpHandler W Body F → HttpHandler W Body F
  with_request_logging next w r = next (record w { flushes = false }) r

  unfoldable pub with_recovery : HttpHandler W Body F → HttpHandler W Body F
  unfolding recovered
  with_recovery next w r state =
      let (outcome, after) = next w r state in (answered (recovered outcome), after)

  -- The handler that `main` serves.
  unfoldable pub api_handler : HttpHandler W Body F → List String → HttpHandler W Body F
  api_handler server allowed_origins =
      with_recovery (with_request_logging (with_cors server allowed_origins))
