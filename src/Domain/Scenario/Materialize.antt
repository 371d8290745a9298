-- ===== src/Domain/Scenario/Materialize.antt =====
-- `MaterializeDemand`: the scenario that a game is played with.
use supply_chain_game.Prelude.{
  ◌-◌, ◌≤◌, ◌<◌, ◌^◌, ◌≡◌, ◌∙◌, subst, List, arith, le→leb, length, All, get_elem?-lt,
  All-get_elem?, All-of_get_elem?,
}
use supply_chain_game.Word.{GoInt, IsNonNeg, le_int-zero}
use supply_chain_game.Result.{ok}
use supply_chain_game.Domain.Scenario.{
  Scenario, Rand, DemandMode, fixed, random_blocks, unset, other_mode, normalized_demand_mode,
  demand_of, materialize_mode, materialize_demand,
}
use supply_chain_game.Domain.Scenario.Demand.{
  extend_demand-Extends, Extends-demand_of, Extends-All, demand_of-index,
}
use supply_chain_game.Domain.Scenario.Blocks.{IsBetween, generate_random_block_demand-IsBetween}
use supply_chain_game.Domain.Scenario.Validity.{IsValid, DemandIsValid, validate_complete}

-- Room for the slices and for one more than the greatest demand, which every run-time list has.
pub record IsSmall (s : Scenario) (max_weeks : GoInt) : Type 0 where
  pub weeks : max_weeks < 2 ^ 62
  pub demand : IsNonNeg (length s.consumer_demand)
  pub highest : s.demand_max < 2 ^ 63 - 1

-- The demand of every week of the game is worked out and is not negative.
pub record IsPlayable (demand : List GoInt) (max_weeks : GoInt) : Type 0 where
  pub weeks : length demand ≡ max_weeks
  pub amounts : All IsNonNeg demand

-- What each mode promises of the demand that it makes.
abbrev pub Keeps : DemandMode → Scenario → List GoInt → GoInt → Type 0
Keeps fixed s demand max_weeks =
    (week : GoInt)
    → 0 < week
    → week ≤ max_weeks
    → demand_of demand week ≡ demand_of s.consumer_demand week
Keeps random_blocks s demand max_weeks = All (IsBetween s.demand_min s.demand_max) demand
Keeps unset s demand max_weeks = ⊥
Keeps (other_mode m) s demand max_weeks = ⊥

module _ (rng : Rand) where
  materialize_mode-Keeps :
      (mode : DemandMode) (s : Scenario) (max_weeks seed : GoInt)
      → DemandIsValid mode s
      → IsSmall s max_weeks
      → 0 < max_weeks
      → (demand : List GoInt) × (materialize_mode rng mode s max_weeks seed
          ≡ ok (record s { consumer_demand = demand }))
        × IsPlayable demand max_weeks
        × Keeps mode s demand max_weeks
  unfolding materialize_mode
  materialize_mode-Keeps fixed s m seed v small pos =
      let (demand, e, x) =
        extend_demand-Extends s.consumer_demand m v.0 small.demand (omega arith) in
      (
        demand,
        rw e,
        record {
          weeks = x.length_eq;
          amounts = Extends-All IsNonNeg s.consumer_demand demand m x v.0 v.1;
        },
        λ week p q.
            Extends-demand_of s.consumer_demand demand m week x v.0 small.demand (omega arith) p q,
      )
  materialize_mode-Keeps random_blocks s m seed v small pos =
      let (demand, e, len, all) =
        generate_random_block_demand-IsBetween rng m s.demand_min s.demand_max
          s.demand_change_period seed v.0 small.highest v.2.0 v.2.1 small.weeks in
      (
        demand,
        rw e,
        record {
          weeks = len;
          amounts = All-of_get_elem? IsNonNeg demand λ i a e.
              let b = All-get_elem? (IsBetween s.demand_min s.demand_max) demand i all e in
              omega arith;
        },
        all,
      )
  materialize_mode-Keeps unset s m seed v small pos = absurd v
  materialize_mode-Keeps (other_mode mode) s m seed v small pos = absurd v

  -- A valid scenario whose highest demand is below 2 ^ 63 - 1, and whose demand fits the memory, is
  -- materialized for any positive number of weeks below 2 ^ 62: the result is the scenario with a
  -- demand for each week, none negative. A fixed demand is that of the scenario, week by
  -- week; a random demand lies between the scenario's bounds.
  pub materialize_demand-Keeps :
      (s : Scenario) (max_weeks seed : GoInt)
      → IsValid s
      → IsSmall s max_weeks
      → 0 < max_weeks
      → (demand : List GoInt) × (materialize_demand rng s max_weeks seed
          ≡ ok (record s { consumer_demand = demand }))
        × IsPlayable demand max_weeks
        × Keeps (normalized_demand_mode s.demand_mode) s demand max_weeks
  unfolding materialize_demand
  materialize_demand-Keeps s m seed v small pos =
      let (demand, e, playable, keeps) =
        materialize_mode-Keeps (normalized_demand_mode s.demand_mode) s m seed v.demand small pos in
      (
        demand,
        rw (validate_complete s v, le_int-zero m (omega (arith, small.weeks)))
            (ground (arith, e, small.weeks)),
        playable,
        keeps,
      )

-- In every week of the game a materialized demand is there: reading it does not panic, and gives
-- one of its entries.
pub demand_of-IsPlayable {κ} :
    (P : GoInt → Type κ) (demand : List GoInt) (max_weeks week : GoInt)
    → IsPlayable demand max_weeks
    → All P demand
    → IsNonNeg max_weeks
    → 0 < week
    → week ≤ max_weeks
    → (amount : GoInt) × (demand_of demand week ≡ ok amount) × P amount
demand_of-IsPlayable P demand m week p all hm hw le =
    let len : length demand ≡ m = p.weeks in
    let (amount, e) = get_elem?-lt demand (week - 1) (omega arith) in
    (
      amount,
      demand_of-index demand week (omega arith) (omega arith) hw (omega arith)
          ∙ rw (le→leb week (length demand) (omega arith), e),
      All-get_elem? P demand (week - 1) all e,
    )

DemandIsValid-IsPlayable :
    (mode : DemandMode) (s : Scenario) (demand : List GoInt) (max_weeks : GoInt)
    → DemandIsValid mode s
    → IsPlayable demand max_weeks
    → 0 < max_weeks
    → DemandIsValid mode (record s { consumer_demand = demand })
DemandIsValid-IsPlayable fixed s demand m v playable pos =
    (omega (arith, playable.weeks), playable.amounts)
DemandIsValid-IsPlayable random_blocks s demand m v playable pos = v
DemandIsValid-IsPlayable unset s demand m v playable pos = absurd v
DemandIsValid-IsPlayable (other_mode text) s demand m v playable pos = absurd v

-- What is materialized is a valid scenario again.
pub materialize_demand-IsValid :
    (rng : Rand) (s after : Scenario) (max_weeks seed : GoInt)
    → IsValid s
    → IsSmall s max_weeks
    → 0 < max_weeks
    → materialize_demand rng s max_weeks seed ≡ ok after
    → IsValid after × IsPlayable after.consumer_demand max_weeks
materialize_demand-IsValid rng s after m seed v small pos e =
    let (demand, made, playable, keeps) = materialize_demand-Keeps rng s m seed v small pos in
    let same : record s { consumer_demand = demand } ≡ after = cc in
    subst (λ (x : Scenario). IsValid x × IsPlayable x.consumer_demand m) same
      (
        record {
          inventory = v.inventory;
          backlog = v.backlog;
          holding = v.holding;
          lateness = v.lateness;
          shipping = v.shipping;
          ordering = v.ordering;
          production = v.production;
          goods = v.goods;
          orders = v.orders;
          demand =
              DemandIsValid-IsPlayable (normalized_demand_mode s.demand_mode) s demand m v.demand
                playable pos;
          goods_length = v.goods_length;
          orders_length = v.orders_length;
          production_length = v.production_length;
        },
        playable,
      )
