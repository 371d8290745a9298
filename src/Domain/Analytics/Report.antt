-- ===== src/Domain/Analytics/Report.antt =====
-- `CalculateSessionAnalytics` as a report on the history, without its loops and maps.
use supply_chain_game.Prelude.{◌≡◌, refl, [], ◌∷◌, List, map, length, ◌<◌, arith}
use supply_chain_game.Word.{GoInt}
use supply_chain_game.Domain.Role.{Role, retailer, all_roles}
use supply_chain_game.Domain.Session.{GameSession, WeekState}
use supply_chain_game.Domain.Analytics.{
  Floats, NodeAnalytics, SessionAnalytics, Gathered, nothing_gathered, gather_weeks, sum_ints,
  average_ints, variance_ints, bullwhip, role_analytics, analyse_roles, analyse_history,
  no_analytics, calculate_session_analytics,
}
use supply_chain_game.Domain.Analytics.Series.{picked, nodes_of, gathered_of, gather_weeks_lem}

module _ {Float : Type 0} (floats : Floats Float) where
  -- The figures of a role: sums, mean and variance of its own values in the history.
  abbrev pub figures : List WeekState → Role → NodeAnalytics Float
  figures weeks role = record {
    role = role;
    total_cost = sum_ints (picked (λ n. n.weekly_cost) role (nodes_of weeks));
    average_inventory = average_ints floats (picked (λ n. n.inventory) role (nodes_of weeks));
    total_backlog = sum_ints (picked (λ n. n.backlog) role (nodes_of weeks));
    total_orders = sum_ints (picked (λ n. n.placed_order) role (nodes_of weeks));
    order_variance = variance_ints floats (picked (λ n. n.placed_order) role (nodes_of weeks));
  }

  abbrev pub report : List WeekState → SessionAnalytics Float
  report weeks =
      let demand_variance : Float =
        variance_ints floats (picked (λ n. n.incoming_order) retailer (nodes_of weeks)) in
      record {
        total_weeks = length weeks;
        total_cost = sum_ints (map (λ w. w.total_cost) weeks);
        demand_variance = demand_variance;
        node_analytics = map (figures weeks) all_roles;
        order_variance = map (λ role. (role, (figures weeks role).order_variance)) all_roles;
        bullwhip_effect =
            map
              (λ role. (role, bullwhip floats (figures weeks role).order_variance demand_variance))
              all_roles;
      }

  -- The end of the function, from what has been gathered.
  abbrev concluded : GoInt → Gathered → SessionAnalytics Float
  concluded total_weeks g =
      analyse_roles floats g (variance_ints floats g.demand) all_roles
        (record (no_analytics floats total_weeks) {
          total_cost = g.total_cost;
          demand_variance = variance_ints floats g.demand;
        })

  analyse_history-concluded :
      (weeks : List WeekState)
      → 0 < length weeks
      → analyse_history floats weeks
        ≡ concluded (length weeks) (gather_weeks weeks nothing_gathered)
  unfolding analyse_history
  analyse_history-concluded [] h = absurd (omega (arith, h))
  analyse_history-concluded (week ∷ rest) h = refl

  concluded-report :
      (weeks : List WeekState) → concluded (length weeks) (gathered_of weeks) ≡ report weeks
  unfolding analyse_roles role_analytics
  concluded-report weeks = refl

  pub analyse_history-report :
      (weeks : List WeekState) → 0 < length weeks → analyse_history floats weeks ≡ report weeks
  analyse_history-report weeks played =
      rw (analyse_history-concluded weeks played, gather_weeks_lem weeks) (concluded-report weeks)

  -- Once a week has been played the analytics are the report on the history: the sum of the weeks'
  -- costs, and for each role the figures of its own nodes, with the bullwhip effect as the ratio of
  -- the variance of its orders to that of the demand at the retailer.
  pub calculate_session_analytics_lem :
      (session : GameSession)
      → 0 < length session.history
      → calculate_session_analytics floats session ≡ report session.history
  unfolding calculate_session_analytics
  calculate_session_analytics_lem session played = analyse_history-report session.history played
