-- ===== src/Domain/Session/Week.antt =====
-- `AdvanceWeek` past its checks, as one explicit state.
use supply_chain_game.Prelude.{not, ◌≡◌, refl, List, [], ◌∷◌, ◌++◌, if◌then◌else◌}
use supply_chain_game.Word.{GoInt, Time, add_int, le_int}
use supply_chain_game.Result.{
  ok, reject_if, session_not_active, week_limit_reached, >>-eq-ok, >>=-eq-ok,
}
use supply_chain_game.Domain.Role.{
  Role, factory, distributor, wholesaler, retailer, role_eq, all_roles, is_known_role, IsKnown,
  unassigned, unknown,
}
use supply_chain_game.Domain.Room.{finished}
use supply_chain_game.Domain.Scenario.{demand_for_week}
use supply_chain_game.Domain.RoleMap.{RoleMap, get_or_zero}
use supply_chain_game.Domain.Session.{
  GameSession, NodeState, WeekState, node_by_role, must_node, next_node, advance_nodes,
  place_orders, ship_goods, play_week, advance_week, check_decisions, is_active,
}
use supply_chain_game.Domain.Session.Queues.{received, receive-received, cycle}

module _ (s : GameSession) (decisions : RoleMap) (demand : GoInt) where
  -- A node after the week.
  abbrev pub served : Role → NodeState
  served role =
      next_node s.scenario (must_node s role) role ((received s demand).goods role)
        ((received s demand).orders role) (get_or_zero role decisions)

  abbrev pub served_nodes : List NodeState
  served_nodes = served factory ∷ served distributor ∷ served wholesaler ∷ served retailer ∷ []

  -- The sum of the week's costs, as the loop adds them up.
  abbrev pub served_cost : GoInt
  served_cost =
      add_int
        (add_int (add_int (add_int 0 (served factory).weekly_cost) (served distributor).weekly_cost)
          (served wholesaler).weekly_cost)
        (served retailer).weekly_cost

  advance_nodes-served :
      advance_nodes s (received s demand) decisions all_roles [] 0 ≡ (served_nodes, served_cost)
  unfolding advance_nodes
  advance_nodes-served = refl

  -- Each node is found under its role.
  pub node_by_role-served :
      (role : Role) → IsKnown role → node_by_role served_nodes role ≡ served role
  unfolding node_by_role next_node role_eq is_known_role
  node_by_role-served factory k = refl
  node_by_role-served distributor k = refl
  node_by_role-served wholesaler k = refl
  node_by_role-served retailer k = refl
  node_by_role-served unassigned k = cc
  node_by_role-served (unknown t) k = cc

  module _ (now : Time) (next_week : GoInt) where
    abbrev pub week_result : WeekState
    week_result = record { week = next_week; nodes = served_nodes; total_cost = served_cost }

    abbrev pub next_session : GameSession
    next_session = record s {
      status = if le_int s.max_weeks next_week then finished else s.status;
      current_week = next_week;
      nodes = served_nodes;
      goods_pipelines = ship_goods (received s demand).goods_left served_nodes;
      order_pipelines = place_orders (received s demand).orders_left decisions;
      production_queue = cycle s.production_queue (get_or_zero factory decisions);
      history = s.history ++ week_result ∷ [];
      updated_at = now;
    }

    pub play_week-next_session :
        play_week s decisions now next_week demand ≡ (week_result, next_session)
    unfolding play_week received
    play_week-next_session = rw receive-received (rw advance_nodes-served refl)

    pub must_node-next_session :
        (role : Role) → IsKnown role → must_node next_session role ≡ served role
    unfolding must_node
    must_node-next_session role k = node_by_role-served role k

-- A call of `AdvanceWeek` that succeeds has played the week after its checks.
pub advance_week-play_week :
    (s : GameSession) (decisions : RoleMap) (now : Time) (week : WeekState) (s' : GameSession)
    → advance_week s decisions now ≡ ok (week, s')
    → (demand : GoInt) × (play_week s decisions now (add_int s.current_week 1) demand ≡ (week, s'))
unfolding advance_week
advance_week-play_week s decisions now week s' e =
    let (x, e1) = >>-eq-ok (reject_if (not (is_active s.status)) session_not_active) _ e in
    let (y, e2) =
      >>-eq-ok (reject_if (le_int s.max_weeks s.current_week) week_limit_reached) _ e1 in
    let (z, e3) = >>-eq-ok (check_decisions all_roles decisions) _ e2 in
    let (demand, known, e4) =
      >>=-eq-ok (demand_for_week s.scenario (add_int s.current_week 1))
        (λ x. ok (play_week s decisions now (add_int s.current_week 1) x)) e3 in
    (demand, cc)
