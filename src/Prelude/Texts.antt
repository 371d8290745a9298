-- ===== src/Prelude/Texts.antt =====
-- Tests on texts.
use text.Mathlib.Text.{◌==◌ as str_eq}
use text.Mathlib.TextEquality.{eq_iff}
use Prim.Native.String.{String}
use mathlib.Core.Path.{◌≡◌}
use mathlib.Core.Logic.{◌≢◌, inl, inr}
use mathlib.Core.Bool.{true, false}
use supply_chain_game.Prelude.Tests.{Bool-cases}

pub not_equal : {s t : String} → s ≢ t → str_eq s t ≡ false
not_equal {s} {t} different = elim (Bool-cases (str_eq s t)) [
  | inl hit ↦ absurd (different ((eq_iff s t).0 hit))
  | inr miss ↦ miss
]

pub equal_of : {s t : String} → str_eq s t ≡ true → s ≡ t
equal_of {s} {t} = (eq_iff s t).0

pub different_of : {s t : String} → str_eq s t ≡ false → s ≢ t
different_of {s} {t} miss same = cc ((eq_iff s t).1 same)
