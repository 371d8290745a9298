-- ===== src/Domain/Scenario.antt =====
-- `Scenario` of internal/domain/scenario.go: its check, the demand of a week, and the demand that
-- is worked out in advance when a game starts. The random source of math/rand is a parameter.
pub mod Demand
pub mod Fill
pub mod Blocks
pub mod Validity
pub mod Materialize
pub mod Tests
use supply_chain_game.Prelude.{
  ℕ, zero, suc, ◌+◌, ◌-◌, ◌≤◌, ◌<◌, ◌≡◌, Bool, true, false, not, ◌||◌, List, [], ◌∷◌, ◌++◌, String,
  ◌==◌, if◌then◌else◌, length, take, replicate,
}
use supply_chain_game.Word.{GoInt, IsNonNeg, add_int, sub_int, lt_int, le_int}
use supply_chain_game.Result.{
  Result, ok, err, panic, store, ◌>>=◌, ◌>>◌, reject_if, index, invalid_max_weeks,
  scenario_demand_empty, invalid_delay, negative_value, demand_max_below_min,
  demand_change_period_not_positive, unsupported_demand_mode, goods_pipeline_length,
  order_pipeline_length, production_pipeline_length,
}

-- The Go type is a string: its two constants, the empty string, and any other text.
pub data DemandMode : Type 0 where
  fixed random_blocks unset : DemandMode
  other_mode : String → DemandMode

pub record Scenario : Type 0 where
  pub id : String
  pub initial_inventory : GoInt
  pub initial_backlog : GoInt
  pub initial_pipeline_goods : List GoInt
  pub initial_pipeline_orders : List GoInt
  pub consumer_demand : List GoInt
  pub shipping_delay : GoInt
  pub order_delay : GoInt
  pub production_delay : GoInt
  pub holding_cost : GoInt
  pub backlog_cost : GoInt
  pub demand_mode : DemandMode
  pub demand_min : GoInt
  pub demand_max : GoInt
  pub demand_change_period : GoInt

-- `rand.New(rand.NewSource(seed))` and `Intn`, with the range that its documentation promises.
pub record Rand : Type 1 where
  pub Source : Type 0
  pub new_source : GoInt → Source
  pub intn : Source → GoInt → GoInt × Source
  pub intn-lt : (s : Source) (n : GoInt) → 0 < n → IsNonNeg n → (intn s n).0 < n

unfoldable pub normalized_demand_mode : DemandMode → DemandMode
normalized_demand_mode unset = fixed
normalized_demand_mode mode = mode

unfoldable pub validate_non_negative_slice : List GoInt → Result (Unit {0})
validate_non_negative_slice [] = ok tt
validate_non_negative_slice (value ∷ rest) =
    if lt_int value 0 then err negative_value else validate_non_negative_slice rest

-- The `switch` of `Validate`.
unfoldable pub validate_demand : DemandMode → Scenario → Result (Unit {0})
unfolding validate_non_negative_slice
validate_demand fixed s = do
  reject_if (length s.consumer_demand == 0) scenario_demand_empty
  validate_non_negative_slice s.consumer_demand
validate_demand random_blocks s = do
  reject_if (lt_int s.demand_min 0 || lt_int s.demand_max 0) negative_value
  reject_if (lt_int s.demand_max s.demand_min) demand_max_below_min
  reject_if (le_int s.demand_change_period 0) demand_change_period_not_positive
validate_demand unset s = err (unsupported_demand_mode "")
validate_demand (other_mode mode) s = err (unsupported_demand_mode mode)

unfoldable pub validate : Scenario → Result (Unit {0})
unfolding normalized_demand_mode
validate s = do
  reject_if
      (lt_int s.initial_inventory 0
        || lt_int s.initial_backlog 0
        || lt_int s.holding_cost 0
        || lt_int s.backlog_cost 0)
      negative_value
  reject_if (le_int s.shipping_delay 0 || le_int s.order_delay 0 || le_int s.production_delay 0)
      invalid_delay
  validate_non_negative_slice s.initial_pipeline_goods
  validate_non_negative_slice s.initial_pipeline_orders
  validate_demand (normalized_demand_mode s.demand_mode) s
  reject_if (not (length s.initial_pipeline_goods == s.shipping_delay)) goods_pipeline_length
  reject_if (not (length s.initial_pipeline_orders == s.order_delay)) order_pipeline_length
  reject_if (not (length s.initial_pipeline_goods == s.production_delay)) production_pipeline_length

-- The demand of a list, past its end that of the last entry. An empty list panics.
unfoldable pub demand_of : List GoInt → GoInt → Result GoInt
demand_of demand week =
    if le_int week 0
    then ok 0
    else if le_int week (length demand)
    then index demand (sub_int week 1)
    else index demand (sub_int (length demand) 1)

unfoldable pub demand_for_week : Scenario → GoInt → Result GoInt
demand_for_week s week = demand_of s.consumer_demand week

-- `for len(result) < maxWeeks { result = append(result, last) }`, with fuel.
unfoldable pub extend_loop : ℕ → List GoInt → GoInt → GoInt → List GoInt
extend_loop zero result last max_weeks = result
extend_loop (suc fuel) result last max_weeks =
    let more = extend_loop fuel (result ++ last ∷ []) last max_weeks in
    if lt_int (length result) max_weeks then more else result

-- Each round adds an entry, so `max_weeks` rounds are enough.
unfoldable pub extend_demand : List GoInt → GoInt → Result (List GoInt)
unfolding extend_loop
extend_demand values max_weeks =
    if le_int max_weeks (length values) then ok (take max_weeks values) else (do
      last ← index values (sub_int (length values) 1)
      ok (extend_loop max_weeks values last max_weeks))

-- `for ; i < end; i++ { demand[i] = value }`, with fuel.
unfoldable pub fill : ℕ → GoInt → GoInt → GoInt → List GoInt → Result (List GoInt)
fill zero i stop value demand = ok demand
fill (suc fuel) i stop value demand =
    let more = (do written ← store demand i value; fill fuel (add_int i 1) stop value written) in
    if lt_int i stop then more else ok demand

-- `end`: the first week after the block, at most `maxWeeks`.
unfoldable pub block_end : GoInt → GoInt → GoInt → GoInt
block_end start period max_weeks =
    if lt_int max_weeks (add_int start period) then max_weeks else add_int start period

module _ (rng : Rand) where
  open rng use {Source, new_source, intn}

  -- `rng.Intn(n)`, which panics unless n is positive.
  draw : Source → GoInt → Result (GoInt × Source)
  draw source n = if le_int n 0 then panic else ok (intn source n)

  -- The value of a block, and the source after it.
  unfoldable pub block_value : Source → GoInt → GoInt → Result (GoInt × Source)
  unfolding draw
  block_value source lo hi =
      if lt_int lo hi
      then (do drawn ← draw source (add_int (sub_int hi lo) 1); ok (add_int lo drawn.0, drawn.1))
      else ok (lo, source)

  -- `for start := 0; start < maxWeeks; start += changePeriod`, with fuel.
  unfoldable pub block_loop :
      ℕ → Source → GoInt → GoInt → GoInt → GoInt → GoInt → List GoInt → Result (List GoInt)
  block_loop zero source start max_weeks lo hi period demand = ok demand
  block_loop (suc fuel) source start max_weeks lo hi period demand =
      let rest = (do
        drawn ← block_value source lo hi
        filled ← fill max_weeks start (block_end start period max_weeks) drawn.0 demand
        block_loop fuel drawn.1 (add_int start period) max_weeks lo hi period filled) in
      if lt_int start max_weeks then rest else ok demand

  -- A period is at least one week, so `max_weeks` blocks are enough.
  unfoldable pub generate_random_block_demand :
      GoInt → GoInt → GoInt → GoInt → GoInt → Result (List GoInt)
  unfolding block_loop block_value block_end fill
  generate_random_block_demand max_weeks lo hi period seed =
      block_loop max_weeks (new_source seed) 0 max_weeks lo hi period (replicate max_weeks 0)

  materialize_mode : DemandMode → Scenario → GoInt → GoInt → Result Scenario
  unfolding extend_demand generate_random_block_demand
  materialize_mode fixed s max_weeks seed = do
    demand ← extend_demand s.consumer_demand max_weeks
    ok (record s { consumer_demand = demand })
  materialize_mode random_blocks s max_weeks seed = do
    demand ←
        generate_random_block_demand max_weeks s.demand_min s.demand_max s.demand_change_period seed
    ok (record s { consumer_demand = demand })
  materialize_mode _ s max_weeks seed = ok s

  unfoldable pub materialize_demand : Scenario → GoInt → GoInt → Result Scenario
  unfolding materialize_mode normalized_demand_mode
  materialize_demand s max_weeks seed = do
    validate s
    reject_if (le_int max_weeks 0) invalid_max_weeks
    materialize_mode (normalized_demand_mode s.demand_mode) s max_weeks seed
