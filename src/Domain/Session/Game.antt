-- ===== src/Domain/Session/Game.antt =====
-- The week of a game, as the callers of `AdvanceWeek` see it.
use supply_chain_game.Prelude.{◌+◌, ◌≤◌, ◌<◌, ◌≡◌, refl, sym, ap, ◌∙◌, subst, [], ◌∷◌, ◌++◌}
use supply_chain_game.Word.{GoInt, Time}
use supply_chain_game.Result.{Result, ok}
use supply_chain_game.Domain.Role.{
  Role, factory, distributor, wholesaler, retailer, IsKnown, is_known_role,
}
use supply_chain_game.Domain.Scenario.{demand_for_week}
use supply_chain_game.Domain.RoleMap.{RoleMap, get_or_zero}
use supply_chain_game.Domain.Session.{
  queue_of, GameSession, NodeState, WeekState, must_node, node_by_role, advance_week,
}
use supply_chain_game.Domain.Session.Queues.{
  received, cycle, ship_goods-distributor, ship_goods-wholesaler, ship_goods-retailer,
  place_orders-factory, place_orders-distributor, place_orders-wholesaler,
}
use supply_chain_game.Domain.Session.Node.{Serves}
use supply_chain_game.Domain.Session.Week.{
  week_result, served, must_node-next_session, served_nodes, node_by_role-served,
}
use supply_chain_game.Domain.Session.Totals.{goods_total, served-Serves, goods_total-next_session}
use supply_chain_game.Domain.Session.Invariant.{IsValid, Limits, IsWithin, AreDecided}
use supply_chain_game.Domain.Session.Bounds.{demand-at-hand}
use supply_chain_game.Domain.Session.Advance.{
  following, fits, following-IsValid, following-IsWithin, advance_week-following,
}

abbrev session_of : GameSession → Result (WeekState × GameSession) → GameSession
session_of s (ok (_, s')) = s'
session_of s _ = s

-- The session that a call returns.
second :
    {w w' : WeekState} {s s' : GameSession}
    → ◌≡◌ {A = Result (WeekState × GameSession)} (ok (w, s)) (ok (w', s'))
    → s ≡ s'
second {s = s} e = ap (session_of s) e

-- A session that a week can be played on, and its orders.
pub record IsReady (l : Limits) (s : GameSession) (decisions : RoleMap) : Type 0 where
  pub valid : IsValid s
  pub within : IsWithin l s
  pub decided : AreDecided l decisions
  pub running : s.current_week < s.max_weeks

-- What a week does to a session, apart from the loop and the maps of the code.
pub record Plays (s s' : GameSession) (decisions : RoleMap) (demand : GoInt) : Type 0 where
  -- every node serves what arrives
  pub serves :
      (role : Role)
      → IsKnown role
      → Serves
          (must_node s role)
          (must_node s' role)
          ((received s demand).goods role)
          ((received s demand).orders role)
  -- what a node ships enters the queue to the next node
  pub from_factory :
      queue_of s'.goods_pipelines distributor
      ≡ cycle (queue_of s.goods_pipelines distributor) (must_node s' factory).actual_shipment
  pub from_distributor :
      queue_of s'.goods_pipelines wholesaler
      ≡ cycle (queue_of s.goods_pipelines wholesaler) (must_node s' distributor).actual_shipment
  pub from_wholesaler :
      queue_of s'.goods_pipelines retailer
      ≡ cycle (queue_of s.goods_pipelines retailer) (must_node s' wholesaler).actual_shipment
  -- what a node orders enters the queue to the node before it, the factory's production
  pub retailer_orders :
      queue_of s'.order_pipelines wholesaler
      ≡ cycle (queue_of s.order_pipelines wholesaler) (get_or_zero retailer decisions)
  pub wholesaler_orders :
      queue_of s'.order_pipelines distributor
      ≡ cycle (queue_of s.order_pipelines distributor) (get_or_zero wholesaler decisions)
  pub distributor_orders :
      queue_of s'.order_pipelines factory
      ≡ cycle (queue_of s.order_pipelines factory) (get_or_zero distributor decisions)
  pub produces : s'.production_queue ≡ cycle s.production_queue (get_or_zero factory decisions)
  -- no goods appear or vanish on the way
  pub conserves :
      goods_total s' + (must_node s' retailer).actual_shipment
      ≡ goods_total s + get_or_zero factory decisions

module _ (l : Limits) (s : GameSession) (decisions : RoleMap) (now : Time)
    (r : IsReady l s decisions) where
  -- The demand of the week to come.
  abbrev demand : GoInt
  demand = (demand-at-hand l s r.valid r.within r.running).0

  small : demand ≤ l.cap
  small = (demand-at-hand l s r.valid r.within r.running).2

  abbrev after : GameSession
  after = following l s decisions demand now r.valid r.within r.decided small r.running

  succeeds :
      advance_week s decisions now
      ≡ ok (week_result s decisions demand now (s.current_week + 1), after)
  succeeds =
      advance_week-following l s decisions demand now r.valid r.within r.decided small r.running
        (demand-at-hand l s r.valid r.within r.running).1

  -- Within its limits a valid session that is not over accepts a decision of each role: the week is
  -- played, the session stays valid and within its limits, and the week is added to its history.
  pub advance_week_succeeds :
      (w : WeekState) × (s' : GameSession) × (advance_week s decisions now ≡ ok (w, s'))
      × IsValid s'
      × IsWithin l s'
      × (s'.current_week ≡ s.current_week + 1)
      × (s'.max_weeks ≡ s.max_weeks)
      × (s'.history ≡ s.history ++ w ∷ [])
  advance_week_succeeds = (
    week_result s decisions demand now (s.current_week + 1),
    after,
    succeeds,
    following-IsValid l s decisions demand now r.valid r.within r.decided small r.running,
    following-IsWithin l s decisions demand now r.valid r.within r.decided small r.running,
    refl,
    refl,
    refl,
  )

  node-after :
      (role : Role) (k : IsKnown role) → must_node after role ≡ served s decisions demand role
  node-after = must_node-next_session s decisions demand now (s.current_week + 1)

  Serves-after :
      (role : Role)
      → IsKnown role
      → Serves
          (must_node s role)
          (must_node after role)
          ((received s demand).goods role)
          ((received s demand).orders role)
  Serves-after role k = rw (node-after role k) (
      served-Serves s decisions demand
        (fits l s decisions demand now r.valid r.within r.decided small r.running) role k)

  shipped-after :
      (role : Role)
      → IsKnown role
      → (node_by_role (served_nodes s decisions demand) role).actual_shipment
        ≡ (must_node after role).actual_shipment
  shipped-after role k = rw (node-after role k, node_by_role-served s decisions demand role k)

  Plays-after : Plays s after decisions demand
  unfolding is_known_role
  Plays-after = record {
    serves = Serves-after;
    from_factory =
        ship_goods-distributor s demand (served_nodes s decisions demand)
        ∙ ap (cycle (queue_of s.goods_pipelines distributor)) (shipped-after factory refl);
    from_distributor =
        ship_goods-wholesaler s demand (served_nodes s decisions demand)
        ∙ ap (cycle (queue_of s.goods_pipelines wholesaler)) (shipped-after distributor refl);
    from_wholesaler =
        ship_goods-retailer s demand (served_nodes s decisions demand)
        ∙ ap (cycle (queue_of s.goods_pipelines retailer)) (shipped-after wholesaler refl);
    retailer_orders = place_orders-wholesaler s demand decisions;
    wholesaler_orders = place_orders-distributor s demand decisions;
    distributor_orders = place_orders-factory s demand decisions;
    produces = refl;
    conserves =
        subst
          (λ (n : NodeState).
            goods_total after + n.actual_shipment ≡ goods_total s + get_or_zero factory decisions)
          (sym (node-after retailer refl))
          (goods_total-next_session s decisions demand
            (fits l s decisions demand now r.valid r.within r.decided small r.running) now
            (s.current_week + 1));
  }

  -- On a valid session within its limits, with weeks left and decisions within the cap, whatever
  -- `AdvanceWeek` returns is the week that `Plays` describes, for the demand of the week: each node
  -- serves what arrives, goods and orders move on by one place, none are lost.
  pub advance_week-Plays :
      (w : WeekState) (s' : GameSession)
      → advance_week s decisions now ≡ ok (w, s')
      → (arrived : GoInt) × (demand_for_week s.scenario (s.current_week + 1) ≡ ok arrived)
        × Plays s s' decisions arrived
  advance_week-Plays w s' e =
      let same : after ≡ s' = second (sym succeeds ∙ e) in
      (
        demand,
        (demand-at-hand l s r.valid r.within r.running).1,
        subst (λ (t : GameSession). Plays s t decisions demand) same Plays-after,
      )
