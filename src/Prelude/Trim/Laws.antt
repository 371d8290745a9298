-- ===== src/Prelude/Trim/Laws.antt =====
-- What trimming and splitting leave.
use Prim.Native.Char.{Char}
use Prim.Native.String.{String, ◌++◌ as ◌<>◌}
use text.Mathlib.TextLemmas.{nil-append, cons-append}
use mathlib.Core.Path.{◌≡◌, refl, ap, ◌∙◌}
use mathlib.Core.Logic.{inl, inr}
use mathlib.Core.Bool.{Bool, true, false}
use mathlib.Core.List.{List, [], ◌∷◌}
use supply_chain_game.Prelude.Tests.{Bool-cases}
use supply_chain_game.Prelude.Lists.{All}
use supply_chain_game.Prelude.Trim.{cons_part, trim_left, cons_trimmed, trim_right, trim, split}

-- No character of the text passes the test.
abbrev pub Lacks : (Char → Bool) → String → Type 0
Lacks test String.[] = Unit
Lacks test (String.◌∷◌ c s) = (test c ≡ false) × Lacks test s

module _ (cut test : Char → Bool) where
  trim_left-Lacks : (s : String) → Lacks test s → Lacks test (trim_left cut s)
  unfolding trim_left
  trim_left-Lacks String.[] h = tt
  trim_left-Lacks (String.◌∷◌ c s) (plain, h) = elim (Bool-cases (cut c)) [
    | inl hit ↦ rw hit (trim_left-Lacks s h)
    | inr miss ↦ rw miss (plain, h)
  ]

  cons_trimmed-Lacks :
      (c : Char) (s : String) → test c ≡ false → Lacks test s → Lacks test (cons_trimmed cut c s)
  unfolding cons_trimmed
  cons_trimmed-Lacks c String.[] plain h = elim (Bool-cases (cut c)) [
    | inl hit ↦ rw hit tt
    | inr miss ↦ rw miss (plain, tt)
  ]
  cons_trimmed-Lacks c (String.◌∷◌ d s) plain h = (plain, h)

  trim_right-Lacks : (s : String) → Lacks test s → Lacks test (trim_right cut s)
  unfolding trim_right
  trim_right-Lacks String.[] h = tt
  trim_right-Lacks (String.◌∷◌ c s) (plain, h) =
      cons_trimmed-Lacks c (trim_right cut s) plain (trim_right-Lacks s h)

  pub trim-Lacks : (s : String) → Lacks test s → Lacks test (trim cut s)
  unfolding trim
  trim-Lacks s h = trim_right-Lacks (trim_left cut s) (trim_left-Lacks s h)

module _ (cut : Char → Bool) where
  trim_right-cons_trimmed :
      (c : Char) (r : String)
      → trim_right cut r ≡ r
      → trim_right cut (cons_trimmed cut c r) ≡ cons_trimmed cut c r
  unfolding cons_trimmed trim_right
  trim_right-cons_trimmed c String.[] e = elim (Bool-cases (cut c)) [
    | inl hit ↦ rw hit refl
    | inr miss ↦ rw (miss, miss) refl
  ]
  trim_right-cons_trimmed c (String.◌∷◌ d r) e = ap (cons_trimmed cut c) e

  trim_right_idem : (s : String) → trim_right cut (trim_right cut s) ≡ trim_right cut s
  unfolding trim_right
  trim_right_idem String.[] = refl
  trim_right_idem (String.◌∷◌ c s) =
      trim_right-cons_trimmed c (trim_right cut s) (trim_right_idem s)

  -- A text that does not begin with a character to cut.
  Begins : String → Type 0
  Begins String.[] = Unit
  Begins (String.◌∷◌ c s) = cut c ≡ false

  trim_left-Begins : (s : String) → Begins (trim_left cut s)
  unfolding trim_left Begins
  trim_left-Begins String.[] = tt
  trim_left-Begins (String.◌∷◌ c s) = elim (Bool-cases (cut c)) [
    | inl hit ↦ rw hit (trim_left-Begins s)
    | inr miss ↦ rw miss miss
  ]

  Begins-cons_trimmed : (c : Char) (s : String) → cut c ≡ false → Begins (cons_trimmed cut c s)
  unfolding cons_trimmed Begins
  Begins-cons_trimmed c String.[] plain = rw plain plain
  Begins-cons_trimmed c (String.◌∷◌ d s) plain = plain

  Begins-trim_right : (s : String) → Begins s → Begins (trim_right cut s)
  unfolding trim_right Begins
  Begins-trim_right String.[] h = tt
  Begins-trim_right (String.◌∷◌ c s) plain = Begins-cons_trimmed c (trim_right cut s) plain

  trim_left-plain : (s : String) → Begins s → trim_left cut s ≡ s
  unfolding trim_left Begins
  trim_left-plain String.[] h = refl
  trim_left-plain (String.◌∷◌ c s) plain = rw plain refl

  -- A text that has been trimmed stays as it is.
  pub trim_idem : (s : String) → trim cut (trim cut s) ≡ trim cut s
  unfolding trim
  trim_idem s =
      ap (trim_right cut)
        (trim_left-plain (trim cut s) (Begins-trim_right (trim_left cut s) (trim_left-Begins s)))
      ∙ trim_right_idem (trim_left cut s)

  cons_part-Lacks :
      (c : Char) (parts : List String)
      → cut c ≡ false
      → All (Lacks cut) parts
      → All (Lacks cut) (cons_part c parts)
  unfolding cons_part
  cons_part-Lacks c [] plain h = ((plain, tt), tt)
  cons_part-Lacks c (part ∷ rest) plain (k, h) = ((plain, k), h)

  -- No part has a separator.
  pub split-Lacks : (s : String) → All (Lacks cut) (split cut s)
  unfolding split
  split-Lacks String.[] = (tt, tt)
  split-Lacks (String.◌∷◌ c s) = elim (Bool-cases (cut c)) [
    | inl hit ↦ rw hit (tt, split-Lacks s)
    | inr miss ↦ rw miss (cons_part-Lacks c (split cut s) miss (split-Lacks s))
  ]

  pub split-none : (s : String) → Lacks cut s → split cut s ≡ s ∷ []
  unfolding split cons_part
  split-none String.[] h = refl
  split-none (String.◌∷◌ c s) (plain, h) = rw (plain, split-none s h) refl

  -- The first part ends at the first separator.
  pub split-first :
      (s t : String) (c : Char)
      → cut c ≡ true
      → Lacks cut s
      → split cut (s <> String.◌∷◌ c t) ≡ s ∷ split cut t
  unfolding split cons_part
  split-first String.[] t c hit h = rw (nil-append (String.◌∷◌ c t), hit) refl
  split-first (String.◌∷◌ d s) t c hit (plain, h) =
      rw (cons-append d s (String.◌∷◌ c t), plain, split-first s t c hit h) refl
