-- ===== src/Http/Paths.antt =====
-- `parseRoomPath` of internal/interface/http/server.go, with the parts of the package strings that it
-- calls.
pub mod RoundTrip
pub mod Sound
use Prim.Native.Char.{Char, code}
use text.Mathlib.Text.{◌==◌ as str_eq}
use supply_chain_game.Prelude.Trim.{trim, split}
use supply_chain_game.Prelude.{◌≡◌, refl, Bool, List, [], ◌∷◌, String, if◌then◌else◌, ◌==◌}

-- `c == '/'`
abbrev pub is_slash : Char → Bool
is_slash c = code c == b'/'

-- The room and the action, both empty for any other path.
unfoldable pub room_parts : List String → String × String
room_parts (first ∷ room_id ∷ []) = if str_eq first "rooms" then (room_id, "") else ("", "")
room_parts (first ∷ room_id ∷ action ∷ []) =
    if str_eq first "rooms" then (room_id, action) else ("", "")
room_parts _ = ("", "")

unfoldable pub parse_room_path : String → String × String
unfolding trim split room_parts
parse_room_path path = room_parts (split is_slash (trim is_slash path))

state_path : parse_room_path "/rooms/r1/state/" ≡ ("r1", "state")
unfolding parse_room_path
state_path = refl
