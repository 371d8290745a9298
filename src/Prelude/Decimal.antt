-- ===== src/Prelude/Decimal.antt =====
-- `strconv.Itoa` and the verb `%d`: the decimal digits of a number.
pub mod Read
use Prim.Native.Char.{Char}
use Prim.Native.Nat.{ℕ, zero, suc, ◌/◌, ◌%◌}
use Prim.Native.String.{String}
use supply_chain_game.Prelude.Tests.{◌==◌, if◌then◌else◌, ltb}

-- One digit.
unfoldable pub digit : ℕ → Char
digit d =
    if d == 0
    then "0"
    else if d == 1
    then "1"
    else if d == 2
    then "2"
    else if d == 3
    then "3"
    else if d == 4
    then "4"
    else if d == 5
    then "5"
    else if d == 6
    then "6"
    else if d == 7
    then "7"
    else if d == 8
    then "8"
    else "9"

-- The digits in front of a text, on fuel.
unfoldable pub digits_loop : ℕ → ℕ → String → String
unfolding digit
digits_loop zero n rest = rest
digits_loop (suc fuel) n rest =
    let more = digits_loop fuel (n / 10) (String.◌∷◌ (digit (n % 10)) rest) in
    if ltb n 10 then String.◌∷◌ (digit n) rest else more

-- A word has 20 digits at most.
unfoldable pub itoa : ℕ → String
unfolding digits_loop
itoa n = digits_loop 20 n ""
