-- ===== src/Prelude/Trim.antt =====
-- `strings.Trim`, `strings.TrimSpace` and `strings.Split`, by a test of the characters to cut.
pub mod Laws
use Prim.Native.Char.{Char}
use Prim.Native.String.{String}
use mathlib.Core.Bool.{Bool}
use mathlib.Core.List.{List, [], ◌∷◌}
use supply_chain_game.Prelude.Tests.{if◌then◌else◌}

-- A character in front of the first part.
unfoldable pub cons_part : Char → List String → List String
cons_part c [] = String.◌∷◌ c String.[] ∷ []
cons_part c (part ∷ rest) = String.◌∷◌ c part ∷ rest

module _ (cut : Char → Bool) where
  unfoldable pub trim_left : String → String
  trim_left String.[] = String.[]
  trim_left (String.◌∷◌ c s) = if cut c then trim_left s else String.◌∷◌ c s

  -- A character before a text that has been trimmed on the right.
  unfoldable pub cons_trimmed : Char → String → String
  cons_trimmed c String.[] = if cut c then String.[] else String.◌∷◌ c String.[]
  cons_trimmed c (String.◌∷◌ d s) = String.◌∷◌ c (String.◌∷◌ d s)

  unfoldable pub trim_right : String → String
  unfolding cons_trimmed
  trim_right String.[] = String.[]
  trim_right (String.◌∷◌ c s) = cons_trimmed c (trim_right s)

  unfoldable pub trim : String → String
  unfolding trim_left trim_right
  trim s = trim_right (trim_left s)

  unfoldable pub split : String → List String
  unfolding cons_part
  split String.[] = String.[] ∷ []
  split (String.◌∷◌ c s) = if cut c then String.[] ∷ split s else cons_part c (split s)
