-- ===== src/System.antt =====
-- internal/infrastructure/system/id.go: identifiers. The random bytes of crypto/rand are a parameter.
pub mod Hex
mod Tests
use Prim.Native.Char.{Char}
use supply_chain_game.Prelude.{
  ℕ, ◌/◌, ◌%◌, List, [], ◌∷◌, Option, none, some, String, if◌then◌else◌, ◌==◌, ltb,
}
use supply_chain_game.Prelude.Decimal.{digit}
use supply_chain_game.Result.{Result, ok, err, id_failed}

-- A hexadecimal digit.
unfoldable pub hex_digit : ℕ → Char
unfolding digit
hex_digit d =
    if ltb d 10
    then digit d
    else if d == 10
    then "a"
    else if d == 11
    then "b"
    else if d == 12
    then "c"
    else if d == 13
    then "d"
    else if d == 14
    then "e"
    else "f"

-- `hex.EncodeToString`
unfoldable pub encode_to_string : List ℕ → String
unfolding hex_digit
encode_to_string [] = String.[]
encode_to_string (b ∷ rest) =
    String.◌∷◌ (hex_digit (b / 16)) (String.◌∷◌ (hex_digit (b % 16)) (encode_to_string rest))

-- `NewID`, with the bytes that `rand.Read` gives, or `none` for its error.
unfoldable pub new_id : Option (List ℕ) → Result String
unfolding encode_to_string
new_id none = err id_failed
new_id (some buf) = ok (encode_to_string buf)
