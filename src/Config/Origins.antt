-- ===== src/Config/Origins.antt =====
-- The list of origins that `splitCSV` reads.
use Prim.Native.String.{◌++◌ as ◌<>◌}
use text.Mathlib.Text.{◌==◌ as str_eq}
use text.Mathlib.TextLemmas.{append-ne-nil_of_right_ne-nil, cons≢nil}
use supply_chain_game.Prelude.{
  ◌≡◌, ◌≢◌, refl, ap, ◌∙◌, All, List, [], ◌∷◌, String, Bool-cases, inl, inr,
}
use supply_chain_game.Prelude.Texts.{not_equal, different_of}
use supply_chain_game.Prelude.Trim.{trim, split}
use supply_chain_game.Prelude.Trim.Laws.{
  Lacks, trim-Lacks, trim_idem, split-Lacks, split-none, split-first,
}
use supply_chain_game.Config.{is_space, is_comma, kept_parts, split_csv}

-- A text without a comma and without space at its ends, and not empty.
abbrev pub IsEntry : String → Type 0
IsEntry s = (s ≢ "") × (trim is_space s ≡ s) × Lacks is_comma s

kept_parts-IsEntry :
    (parts : List String) → All (Lacks is_comma) parts → All IsEntry (kept_parts parts)
unfolding kept_parts
kept_parts-IsEntry [] h = tt
kept_parts-IsEntry (part ∷ rest) (plain, h) = elim (Bool-cases (str_eq (trim is_space part) "")) [
  | inl empty ↦ rw empty (kept_parts-IsEntry rest h)
  | inr entry ↦ rw entry (
    (different_of entry, trim_idem is_space part, trim-Lacks is_space is_comma part plain),
    kept_parts-IsEntry rest h,
  )
]

-- Each text that `splitCSV` returns is not empty, has no comma, and no space at its ends.
pub split_csv-IsEntry : (value : String) → All IsEntry (split_csv value)
unfolding split_csv
split_csv-IsEntry value = elim (Bool-cases (str_eq value "")) [
  | inl empty ↦ rw empty tt
  | inr some_text ↦
      rw some_text (kept_parts-IsEntry (split is_comma value) (split-Lacks is_comma value))
]

-- Texts with a comma between them.
abbrev pub join_commas : List String → String
join_commas [] = ""
join_commas (s ∷ []) = s
join_commas (s ∷ next ∷ rest) = s <> String.◌∷◌ "," (join_commas (next ∷ rest))

kept_all : (entries : List String) → All IsEntry entries → kept_parts entries ≡ entries
unfolding kept_parts
kept_all [] h = refl
kept_all (s ∷ rest) ((some_text, trimmed, plain), h) =
    rw (trimmed, not_equal some_text, kept_all rest h) refl

split-join :
    (s : String) (rest : List String)
    → All IsEntry (s ∷ rest)
    → split is_comma (join_commas (s ∷ rest)) ≡ s ∷ rest
split-join s [] ((some_text, trimmed, plain), h) = split-none is_comma s plain
split-join s (next ∷ rest) ((some_text, trimmed, plain), h) =
    split-first is_comma s (join_commas (next ∷ rest)) "," refl plain
    ∙ ap (λ parts. s ∷ parts) (split-join next rest h)

join-ne-empty : (s : String) (rest : List String) → s ≢ "" → join_commas (s ∷ rest) ≢ ""
join-ne-empty s [] some_text = some_text
join-ne-empty s (next ∷ rest) some_text = append-ne-nil_of_right_ne-nil s cons≢nil

-- Such texts, written with commas between them, are read back.
pub split_csv-join_commas :
    (entries : List String) → All IsEntry entries → split_csv (join_commas entries) ≡ entries
unfolding split_csv
split_csv-join_commas [] h = refl
split_csv-join_commas (s ∷ rest) h =
    rw (not_equal (join-ne-empty s rest h.0.0))
      (ap kept_parts (split-join s rest h) ∙ kept_all (s ∷ rest) h)
