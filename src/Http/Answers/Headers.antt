-- ===== src/Http/Answers/Headers.antt =====
-- A header that is set is read back, and the others stay.
use text.Mathlib.Text.{◌==◌ as str_eq}
use text.Mathlib.TextEquality.{eq_iff}
use text.Mathlib.TextPositions.{eq_refl}
use supply_chain_game.Prelude.{◌≡◌, refl, false, [], ◌∷◌, String, Bool-cases, inl, inr}
use supply_chain_game.Http.Answers.{Headers, get_header, set_header}

pub get_header-set_header :
    (name value : String) (headers : Headers)
    → get_header name (set_header name value headers) ≡ value
unfolding get_header set_header
get_header-set_header name value [] = rw (eq_refl name) refl
get_header-set_header name value ((other, old) ∷ rest) = elim (Bool-cases (str_eq other name)) [
  | inl hit ↦ rw (hit, eq_refl name) refl
  | inr miss ↦ rw (miss, miss) (get_header-set_header name value rest)
]

pub get_header-set_other :
    (name other value : String) (headers : Headers)
    → str_eq other name ≡ false
    → get_header name (set_header other value headers) ≡ get_header name headers
unfolding get_header set_header
get_header-set_other name other value [] differs = rw differs refl
get_header-set_other name other value ((seen, old) ∷ rest) differs =
    elim (Bool-cases (str_eq seen other)) [
      | inl hit ↦ rw (hit, differs, (eq_iff seen other).0 hit, differs) refl
      | inr miss ↦ elim (Bool-cases (str_eq seen name)) [
        | inl found ↦ rw (miss, found) refl
        | inr missed ↦ rw (miss, missed) (get_header-set_other name other value rest differs)
      ]
    ]
