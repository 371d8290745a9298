-- ===== src/System/Tests.antt =====
-- Identifiers of two bytes.
use Prim.Native.String.{◌++◌ as ◌<>◌}
use supply_chain_game.Prelude.{ℕ, ◌≡◌, refl, All, List, [], ◌∷◌, some, arith}
use supply_chain_game.Prelude.Texts.{different_of}
use supply_chain_game.Result.{ok}
use supply_chain_game.Http.Paths.{parse_room_path}
use supply_chain_game.System.{new_id}
use supply_chain_game.System.Hex.{IsByte, new_id-path}

abbrev buf : List ℕ
buf = 10 ∷ 255 ∷ []

bytes : All IsByte buf
bytes = (omega arith, (omega arith, tt))

made : new_id (some buf) ≡ ok "0aff"
unfolding new_id
made = refl

new_id-path_example : parse_room_path ("/rooms/" <> ("0aff" <> ("/" <> "next"))) ≡ ("0aff", "next")
new_id-path_example =
    new_id-path buf "0aff" "next" bytes made (refl, (refl, (refl, (refl, tt)))) (different_of refl)
