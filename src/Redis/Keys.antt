-- ===== src/Redis/Keys.antt =====
-- internal/infrastructure/redis/codec.go: the keys under which the stores keep their values.
pub mod Apart
use Prim.Native.String.{◌++◌ as ◌<>◌}
use supply_chain_game.Prelude.{String}
use supply_chain_game.Word.{GoInt}
use supply_chain_game.Word.Format.{format_int}

unfoldable pub room_key : String → String
room_key room_id = "room:" <> room_id

unfoldable pub session_key : String → String
session_key session_id = "session:" <> session_id

unfoldable pub room_session_key : String → String
room_session_key room_id = "room_session:" <> room_id

unfoldable pub decisions_key : String → GoInt → String
decisions_key room_id week = "decisions:" <> (room_id <> (":" <> format_int week))

unfoldable pub room_events_channel : String → String
room_events_channel room_id = "room_events:" <> room_id
