-- ===== src/Http/StreamTests.antt =====
-- A stream of two events of a game, as text.
use supply_chain_game.Prelude.{ℕ, ◌≡◌, refl, subst, All, List, [], ◌∷◌, Option, some, String}
use supply_chain_game.Prelude.Trim.{split}
use supply_chain_game.Domain.Role.{distributor}
use supply_chain_game.Domain.Session.Tests.{session}
use supply_chain_game.Usecase.Decisions.{snapshot}
use supply_chain_game.Usecase.Games.PlayerStates.{PlayerGameState, playing_state}
use supply_chain_game.Memory.Tests.{ports, room, player, decided}
use supply_chain_game.Http.Answers.{PlayerRoomEvent}
use supply_chain_game.Http.Streams.{write_stream}
use supply_chain_game.Http.Streams.Frames.{is_newline, IsLine, lines_of, write_stream-lines}

abbrev seen : PlayerGameState ℕ
seen = playing_state ports room (player "b" distributor) session (snapshot decided)

abbrev events : List (PlayerRoomEvent ℕ)
events = record { kind = "room"; state = seen } ∷ record { kind = "game"; state = seen } ∷ []

abbrev marshal : PlayerRoomEvent ℕ → Option String
marshal event = some "{}"

kinds : All (λ (event : PlayerRoomEvent ℕ). IsLine event.kind) events
kinds = ((refl, (refl, (refl, (refl, tt)))), ((refl, (refl, (refl, (refl, tt)))), tt))

marshal-IsLine :
    (event : PlayerRoomEvent ℕ) (payload : String) → marshal event ≡ some payload → IsLine payload
marshal-IsLine event payload e =
    let same : "{}" ≡ payload = cc in subst IsLine same (refl, (refl, tt))

write_stream-lines_example :
    split is_newline (write_stream marshal events) ≡ lines_of marshal events
write_stream-lines_example = write_stream-lines marshal events kinds marshal-IsLine
