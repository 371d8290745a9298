-- ===== src/Domain/Scenario/Validity.antt =====
-- `Validate`: the scenarios that it accepts, described without the order of its checks.
use supply_chain_game.Prelude.{
  ◌≤◌, ◌<◌, ◌≡◌, ◌↔◌, refl, false, not, ◌||◌, List, [], ◌∷◌, arith, ◌==◌, length, All,
}
use supply_chain_game.Word.{
  GoInt, IsWord, IsNonNeg, lt_int, le_int, lt_int-zero, le_int-zero, lt_int-small,
}
use supply_chain_game.Result.{Error, ok, reject_if, >>-eq-ok, reject_if-eq-ok}
use supply_chain_game.Domain.Scenario.{
  Scenario, DemandMode, fixed, random_blocks, unset, other_mode, normalized_demand_mode,
  validate_non_negative_slice, validate_demand, validate,
}

abbrev pub IsPositive : GoInt → Type 0
IsPositive a = (0 < a) × IsNonNeg a

-- Every number of the scenario is a word, as every Go `int` is.
pub record AreWords (s : Scenario) : Type 0 where
  pub inventory : IsWord s.initial_inventory
  pub backlog : IsWord s.initial_backlog
  pub goods : All IsWord s.initial_pipeline_goods
  pub orders : All IsWord s.initial_pipeline_orders
  pub demand : All IsWord s.consumer_demand
  pub shipping : IsWord s.shipping_delay
  pub ordering : IsWord s.order_delay
  pub production : IsWord s.production_delay
  pub holding : IsWord s.holding_cost
  pub lateness : IsWord s.backlog_cost
  pub lowest : IsWord s.demand_min
  pub highest : IsWord s.demand_max
  pub period : IsWord s.demand_change_period

-- What each demand mode asks for.
abbrev pub DemandIsValid : DemandMode → Scenario → Type 0
DemandIsValid fixed s = (0 < length s.consumer_demand) × All IsNonNeg s.consumer_demand
DemandIsValid random_blocks s =
    (s.demand_min ≤ s.demand_max) × IsNonNeg s.demand_max × IsPositive s.demand_change_period
DemandIsValid unset s = ⊥
DemandIsValid (other_mode m) s = ⊥

pub record IsValid (s : Scenario) : Type 0 where
  pub inventory : IsNonNeg s.initial_inventory
  pub backlog : IsNonNeg s.initial_backlog
  pub holding : IsNonNeg s.holding_cost
  pub lateness : IsNonNeg s.backlog_cost
  pub shipping : IsPositive s.shipping_delay
  pub ordering : IsPositive s.order_delay
  pub production : IsPositive s.production_delay
  pub goods : All IsNonNeg s.initial_pipeline_goods
  pub orders : All IsNonNeg s.initial_pipeline_orders
  pub demand : DemandIsValid (normalized_demand_mode s.demand_mode) s
  pub goods_length : length s.initial_pipeline_goods ≡ s.shipping_delay
  pub orders_length : length s.initial_pipeline_orders ≡ s.order_delay
  pub production_length : length s.initial_pipeline_goods ≡ s.production_delay

slice-ok :
    (xs : List GoInt) → All IsWord xs → validate_non_negative_slice xs ≡ ok tt → All IsNonNeg xs
unfolding validate_non_negative_slice
slice-ok [] w h = tt
slice-ok (x ∷ xs) w h = ground (arith, lt_int-zero x w.0, slice-ok xs w.1)

slice-accepts : (xs : List GoInt) → All IsNonNeg xs → validate_non_negative_slice xs ≡ ok tt
unfolding validate_non_negative_slice
slice-accepts [] h = refl
slice-accepts (x ∷ xs) h = ground (arith, lt_int-zero x, slice-accepts xs h.1)

demand-ok :
    (mode : DemandMode) (s : Scenario)
    → AreWords s
    → validate_demand mode s ≡ ok tt
    → DemandIsValid mode s
unfolding validate_demand
demand-ok fixed s w h =
    let (a, b) = >>-eq-ok (reject_if (length s.consumer_demand == 0) _) _ h in
    (
      ground (arith, reject_if-eq-ok (length s.consumer_demand == 0) _ a),
      slice-ok s.consumer_demand w.demand b,
    )
demand-ok random_blocks s w h = ground (
  arith,
  lt_int-zero s.demand_min,
  lt_int-zero s.demand_max,
  lt_int-small s.demand_max s.demand_min,
  le_int-zero s.demand_change_period,
)
demand-ok unset s w h = cc
demand-ok (other_mode m) s w h = cc

demand-accepts :
    (mode : DemandMode) (s : Scenario) → DemandIsValid mode s → validate_demand mode s ≡ ok tt
unfolding validate_demand
demand-accepts fixed s v = rw (slice-accepts s.consumer_demand v.1) (ground arith)
demand-accepts random_blocks s v = ground (
  arith,
  lt_int-zero s.demand_min,
  lt_int-zero s.demand_max,
  lt_int-small s.demand_max s.demand_min,
  le_int-zero s.demand_change_period,
)
demand-accepts unset s v = absurd v
demand-accepts (other_mode m) s v = absurd v

-- The four checks of amounts, and the three of delays, as orders.
amounts-ok :
    (s : Scenario)
    → AreWords s
    → (lt_int s.initial_inventory 0
        || lt_int s.initial_backlog 0
        || lt_int s.holding_cost 0
        || lt_int s.backlog_cost 0)
      ≡ false
    → IsNonNeg s.initial_inventory
      × IsNonNeg s.initial_backlog
      × IsNonNeg s.holding_cost
      × IsNonNeg s.backlog_cost
amounts-ok s w h = ground (
  arith,
  lt_int-zero s.initial_inventory,
  lt_int-zero s.initial_backlog,
  lt_int-zero s.holding_cost,
  lt_int-zero s.backlog_cost,
)

delays-ok :
    (s : Scenario)
    → AreWords s
    → (le_int s.shipping_delay 0 || le_int s.order_delay 0 || le_int s.production_delay 0) ≡ false
    → IsPositive s.shipping_delay × IsPositive s.order_delay × IsPositive s.production_delay
delays-ok s w h =
    ground (
      arith,
      le_int-zero s.shipping_delay,
      le_int-zero s.order_delay,
      le_int-zero s.production_delay,
    )

-- `if a != b { return e }` passes on equal numbers.
differs-ok : (a b : GoInt) (e : Error) → reject_if (not (a == b)) e ≡ ok tt → a ≡ b
differs-ok a b e h = ground arith

-- What the check accepts is valid.
pub validate_sound : (s : Scenario) → AreWords s → validate s ≡ ok tt → IsValid s
unfolding validate
validate_sound s w h0 =
    let (a, h1) = >>-eq-ok (reject_if _ _) _ h0 in
    let (d, h2) = >>-eq-ok (reject_if _ _) _ h1 in
    let (g, h3) = >>-eq-ok (validate_non_negative_slice s.initial_pipeline_goods) _ h2 in
    let (o, h4) = >>-eq-ok (validate_non_negative_slice s.initial_pipeline_orders) _ h3 in
    let (m, h5) = >>-eq-ok (validate_demand (normalized_demand_mode s.demand_mode) s) _ h4 in
    let (l, h6) = >>-eq-ok (reject_if _ _) _ h5 in
    let (k, n) = >>-eq-ok (reject_if _ _) _ h6 in
    let amounts = amounts-ok s w (reject_if-eq-ok _ _ a) in
    let delays = delays-ok s w (reject_if-eq-ok _ _ d) in
    record {
      inventory = amounts.0;
      backlog = amounts.1;
      holding = amounts.2;
      lateness = amounts.3;
      shipping = delays.0;
      ordering = delays.1;
      production = delays.2;
      goods = slice-ok s.initial_pipeline_goods w.goods g;
      orders = slice-ok s.initial_pipeline_orders w.orders o;
      demand = demand-ok (normalized_demand_mode s.demand_mode) s w m;
      goods_length = differs-ok _ _ _ l;
      orders_length = differs-ok _ _ _ k;
      production_length = differs-ok _ _ _ n;
    }

amounts-accept :
    (s : Scenario)
    → IsValid s
    → (lt_int s.initial_inventory 0
        || lt_int s.initial_backlog 0
        || lt_int s.holding_cost 0
        || lt_int s.backlog_cost 0)
      ≡ false
amounts-accept s v = ground (
  arith,
  lt_int-zero s.initial_inventory,
  lt_int-zero s.initial_backlog,
  lt_int-zero s.holding_cost,
  lt_int-zero s.backlog_cost,
)

delays-accept :
    (s : Scenario)
    → IsValid s
    → (le_int s.shipping_delay 0 || le_int s.order_delay 0 || le_int s.production_delay 0) ≡ false
delays-accept s v =
    ground (
      arith,
      le_int-zero s.shipping_delay,
      le_int-zero s.order_delay,
      le_int-zero s.production_delay,
    )

-- Every valid scenario is accepted.
pub validate_complete : (s : Scenario) → IsValid s → validate s ≡ ok tt
unfolding validate
validate_complete s v =
    rw
      (
        amounts-accept s v,
        delays-accept s v,
        slice-accepts s.initial_pipeline_goods v.goods,
        slice-accepts s.initial_pipeline_orders v.orders,
        demand-accepts (normalized_demand_mode s.demand_mode) s v.demand,
      )
      (ground arith)

-- A scenario whose numbers are words passes `Validate` exactly when it is valid.
pub validate_iff : (s : Scenario) → AreWords s → (validate s ≡ ok tt) ↔ IsValid s
validate_iff s w = (validate_sound s w, validate_complete s)
