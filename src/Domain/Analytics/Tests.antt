-- ===== src/Domain/Analytics/Tests.antt =====
-- The analytics of a game of two weeks, with rounded numbers for floating-point ones.
use supply_chain_game.Prelude.{ℕ, ◌+◌, ◌-◌, ◌*◌, ◌/◌, ◌≡◌, refl, [], ◌∷◌, ltb, map, arith}
use supply_chain_game.Word.{GoInt, add_int}
use supply_chain_game.Result.{ok, ◌>>=◌}
use supply_chain_game.Domain.Role.{Role, factory, distributor, wholesaler, retailer, role_eq}
use supply_chain_game.Domain.Session.{
  GameSession, NodeState, WeekState, new_game_session, empty_node,
}
use supply_chain_game.Domain.Session.Play.{play_weeks, IsOver}
use supply_chain_game.Domain.Session.Tests.{
  two_weeks, moves, two_weeks-IsStartable, orders-AreDecided, limits, session,
}
use supply_chain_game.Domain.Session.Begin.{new_game-IsOver}
use supply_chain_game.Domain.Analytics.{
  Floats, sum_ints, calculate_session_analytics, analyse_history, analyse_roles, gather_weeks,
  gather_nodes, gather_node, append_at, add_at, variance_ints, square_loop, average_ints, sum_loop,
  role_analytics, bullwhip,
}
use supply_chain_game.Domain.Analytics.Report.{report, calculate_session_analytics_lem}
use supply_chain_game.Domain.Analytics.Costs.{calculate_session_analytics-costs}

-- Whole numbers stand for the floating-point ones.
abbrev pub whole : Floats ℕ
whole = record {
  nought = 0;
  of_int = λ n. n;
  plus = λ a b. a + b;
  minus = λ a b. a - b;
  times = λ a b. a * b;
  over = λ a b. a / b;
  is_positive = λ a. ltb 0 a;
}

-- The end of the game, with the proof that the moves lead there.
finished_game :
    (end : GameSession) × ((new_game_session "s1" "r1" two_weeks 2 3 >>= play_weeks moves) ≡ ok end)
    × IsOver limits end
finished_game =
    new_game-IsOver "s1" "r1" two_weeks 2 3 30 two_weeks-IsStartable moves
      (orders-AreDecided, (orders-AreDecided, tt)) refl

calculate_session_analytics-costs_example :
    sum_ints
      (map (λ n. n.total_cost) (calculate_session_analytics whole finished_game.0).node_analytics)
    ≡ (calculate_session_analytics whole finished_game.0).total_cost
calculate_session_analytics-costs_example =
    calculate_session_analytics-costs whole "s1" "r1" two_weeks 2 3 moves finished_game.0
      finished_game.1

abbrev node : Role → GoInt → NodeState
node role cost = record (empty_node role) {
  placed_order = cost;
  incoming_order = 5;
  weekly_cost = cost;
}

abbrev week : GoInt → WeekState
week n = record {
  week = n;
  nodes = node factory 4 ∷ node distributor 3 ∷ node wholesaler 2 ∷ node retailer n ∷ [];
  total_cost = 9 + n;
}

abbrev pub played : GameSession
played = record session { history = week 1 ∷ week 5 ∷ [] }

-- The retailer ordered 1 and 5, with a mean of 3. As subtraction of whole numbers stops at 0, only
-- the 5 counts: 2 squared, over 2.
retailer_variance :
    (calculate_session_analytics whole played).order_variance
    ≡ (factory, 0) ∷ (distributor, 0) ∷ (wholesaler, 0) ∷ (retailer, 2) ∷ []
unfolding calculate_session_analytics analyse_history analyse_roles gather_weeks gather_nodes
    gather_node append_at add_at role_eq variance_ints square_loop average_ints sum_ints sum_loop
    add_int role_analytics bullwhip
retailer_variance = refl

calculate_session_analytics_lem_example :
    calculate_session_analytics whole played ≡ report whole (week 1 ∷ week 5 ∷ [])
calculate_session_analytics_lem_example = calculate_session_analytics_lem whole played (omega arith)
