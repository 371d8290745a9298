-- ===== src/Domain/Scenario/Tests.antt =====
-- The scenario's check and demand at concrete inputs.
use supply_chain_game.Prelude.{◌≡◌, ◌↔◌, refl, List, [], ◌∷◌, arith}
use supply_chain_game.Word.{GoInt, lt_int, le_int}
use supply_chain_game.Result.{ok, err, production_pipeline_length}
use supply_chain_game.Domain.Scenario.{
  Scenario, Rand, fixed, random_blocks, validate, validate_demand, validate_non_negative_slice,
  materialize_demand, normalized_demand_mode,
}
use supply_chain_game.Domain.Scenario.Validity.{IsValid, AreWords, validate_iff}
use supply_chain_game.Domain.Scenario.Materialize.{
  IsPlayable, IsSmall, Keeps, materialize_demand-Keeps,
}

-- A source that always draws 0.
abbrev pub zeros : Rand
zeros = record {
  Source = Unit;
  new_source = λ _. tt;
  intn = λ s n. (0, s);
  intn-lt = λ s n pos small. pos;
}

-- The scenario of the repository (infrastructure/memory), and one with a fixed demand.
abbrev beer_game : Scenario
beer_game = record {
  id = "default-beer-game";
  initial_inventory = 12;
  initial_backlog = 0;
  initial_pipeline_goods = 4 ∷ 4 ∷ [];
  initial_pipeline_orders = 4 ∷ [];
  consumer_demand = [];
  shipping_delay = 2;
  order_delay = 1;
  production_delay = 2;
  holding_cost = 1;
  backlog_cost = 2;
  demand_mode = random_blocks;
  demand_min = 8;
  demand_max = 20;
  demand_change_period = 5;
}

abbrev fixed_game : Scenario
fixed_game = record beer_game { demand_mode = fixed; consumer_demand = 5 ∷ 9 ∷ [] }

beer_game-AreWords : AreWords beer_game
beer_game-AreWords = omega arith

fixed_game-IsValid : IsValid fixed_game
unfolding normalized_demand_mode
fixed_game-IsValid = ground arith

fixed_game-IsSmall : IsSmall fixed_game 4
fixed_game-IsSmall = omega arith

-- A production delay other than the shipping delay is always refused.
production_delay-refused :
    validate (record beer_game { production_delay = 3 }) ≡ err production_pipeline_length
unfolding validate validate_demand validate_non_negative_slice lt_int le_int
production_delay-refused = refl

validate_iff_example : (validate beer_game ≡ ok tt) ↔ IsValid beer_game
validate_iff_example = validate_iff beer_game beer_game-AreWords

materialize_demand-Keeps_example :
    (demand : List GoInt) × (materialize_demand zeros fixed_game 4 77
      ≡ ok (record fixed_game { consumer_demand = demand }))
    × IsPlayable demand 4
    × Keeps (normalized_demand_mode fixed) fixed_game demand 4
materialize_demand-Keeps_example =
    materialize_demand-Keeps zeros fixed_game 4 77 fixed_game-IsValid fixed_game-IsSmall
      (omega arith)
