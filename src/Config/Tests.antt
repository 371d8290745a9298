-- ===== src/Config/Tests.antt =====
-- Lists of origins.
use supply_chain_game.Prelude.{◌≡◌, refl, All, [], ◌∷◌}
use supply_chain_game.Prelude.Texts.{different_of}
use supply_chain_game.Prelude.Trim.{trim, split}
use supply_chain_game.Config.{is_space, split_csv}
use supply_chain_game.Config.Origins.{
  IsEntry, join_commas, split_csv-IsEntry, split_csv-join_commas,
}

two_origins : split_csv " http://a,, http://b " ≡ "http://a" ∷ "http://b" ∷ []
unfolding split_csv is_space trim split
two_origins = refl

split_csv-IsEntry_example : All IsEntry (split_csv " http://a,, http://b ")
split_csv-IsEntry_example = split_csv-IsEntry " http://a,, http://b "

a-IsEntry : IsEntry "a"
unfolding is_space trim
a-IsEntry = (different_of refl, refl, (refl, tt))

split_csv-join_commas_example : split_csv (join_commas ("a" ∷ "a" ∷ [])) ≡ "a" ∷ "a" ∷ []
split_csv-join_commas_example = split_csv-join_commas ("a" ∷ "a" ∷ []) (a-IsEntry, (a-IsEntry, tt))
