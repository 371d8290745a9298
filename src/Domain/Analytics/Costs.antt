-- ===== src/Domain/Analytics/Costs.antt =====
-- The costs of a game add up, however they are counted, also where the sums wrap round.
use supply_chain_game.Prelude.{
  ℕ, ◌+◌, ◌%◌, ◌^◌, ◌<◌, ◌≡◌, refl, ap, ◌∙◌, List, [], ◌∷◌, ◌++◌, map, arith, sum, sum-append,
  String, subst,
}
use supply_chain_game.Word.{GoInt, Time, add_int, le_int}
use supply_chain_game.Result.{ok, reject_if, invalid_max_weeks, ◌>>=◌, >>-eq-ok, >>=-eq-ok}
use supply_chain_game.Domain.Role.{Role, factory, distributor, wholesaler, retailer, role_eq}
use supply_chain_game.Domain.RoleMap.{RoleMap}
use supply_chain_game.Domain.Scenario.{Scenario, validate}
use supply_chain_game.Domain.Session.{
  GameSession, NodeState, WeekState, advance_week, play_week, next_node, new_game_session,
}
use supply_chain_game.Domain.Session.Week.{
  served_nodes, served_cost, play_week-next_session, advance_week-play_week,
}
use supply_chain_game.Domain.Session.Play.{Moves, play_weeks}
use supply_chain_game.Domain.Analytics.{
  Floats, sum_ints, sum_loop, analyse_history, calculate_session_analytics,
}
use supply_chain_game.Domain.Analytics.Series.{picked, picked-append, nodes_of}
use supply_chain_game.Domain.Analytics.Report.{report, analyse_history-report}

sum_loop-sum :
    (total : GoInt) (values : List GoInt)
    → sum_loop total values % 2 ^ 64 ≡ (total + sum values) % 2 ^ 64
unfolding sum_loop add_int
sum_loop-sum total [] = omega arith
sum_loop-sum total (value ∷ rest) = omega (arith, sum_loop-sum (add_int total value) rest)

sum_loop-IsWord :
    (total : GoInt) (values : List GoInt) → total < 2 ^ 64 → sum_loop total values < 2 ^ 64
unfolding sum_loop add_int
sum_loop-IsWord total [] h = h
sum_loop-IsWord total (value ∷ rest) h = sum_loop-IsWord (add_int total value) rest (omega arith)

-- The sum of words is the sum of the numbers, wrapped round once.
sum_ints-sum : (values : List GoInt) → sum_ints values ≡ sum values % 2 ^ 64
unfolding sum_ints
sum_ints-sum values = omega (arith, sum_loop-sum 0 values, sum_loop-IsWord 0 values (omega arith))

-- The costs of the nodes of each role, summed.
costs_by_role : List NodeState → ℕ
costs_by_role nodes =
    sum (picked (λ n. n.weekly_cost) factory nodes)
    + sum (picked (λ n. n.weekly_cost) distributor nodes)
    + sum (picked (λ n. n.weekly_cost) wholesaler nodes)
    + sum (picked (λ n. n.weekly_cost) retailer nodes)

sum-picked-append :
    (role : Role) (xs ys : List NodeState)
    → sum (picked (λ n. n.weekly_cost) role (xs ++ ys))
      ≡ sum (picked (λ n. n.weekly_cost) role xs) + sum (picked (λ n. n.weekly_cost) role ys)
sum-picked-append role xs ys =
    ap sum (picked-append (λ n. n.weekly_cost) role xs ys)
    ∙ sum-append (picked (λ n. n.weekly_cost) role xs) (picked (λ n. n.weekly_cost) role ys)

costs_by_role-append :
    (xs ys : List NodeState) → costs_by_role (xs ++ ys) ≡ costs_by_role xs + costs_by_role ys
unfolding costs_by_role
costs_by_role-append xs ys = omega (
  arith,
  sum-picked-append factory xs ys,
  sum-picked-append distributor xs ys,
  sum-picked-append wholesaler xs ys,
  sum-picked-append retailer xs ys,
)

-- The cost of each week is that of its nodes.
AreCosted : List WeekState → Type 0
AreCosted [] = Unit
AreCosted (week ∷ rest) = (week.total_cost ≡ costs_by_role week.nodes % 2 ^ 64) × AreCosted rest

AreCosted-snoc :
    (weeks : List WeekState) (week : WeekState)
    → AreCosted weeks
    → week.total_cost ≡ costs_by_role week.nodes % 2 ^ 64
    → AreCosted (weeks ++ week ∷ [])
unfolding AreCosted
AreCosted-snoc [] week h e = (e, tt)
AreCosted-snoc (first ∷ rest) week h e = (h.0, AreCosted-snoc rest week h.1 e)

week_costs :
    (weeks : List WeekState)
    → AreCosted weeks
    → sum (map (λ w. w.total_cost) weeks) % 2 ^ 64 ≡ costs_by_role (nodes_of weeks) % 2 ^ 64
unfolding AreCosted costs_by_role
week_costs [] h = refl
week_costs (week ∷ rest) h =
    omega (arith, h.0, week_costs rest h.1, costs_by_role-append week.nodes (nodes_of rest))

costs_by_role-served :
    (s : GameSession) (decisions : RoleMap) (demand : GoInt)
    → served_cost s decisions demand ≡ costs_by_role (served_nodes s decisions demand) % 2 ^ 64
unfolding costs_by_role next_node role_eq add_int
costs_by_role-served s decisions demand = omega arith

week_result-costs :
    (s : GameSession) (decisions : RoleMap) (now : Time) (next_week demand : GoInt)
    → (play_week s decisions now next_week demand).0.total_cost
      ≡ costs_by_role (play_week s decisions now next_week demand).0.nodes % 2 ^ 64
week_result-costs s decisions now next_week demand =
    rw (play_week-next_session s decisions demand now next_week)
      (costs_by_role-served s decisions demand)

play_week-history :
    (s : GameSession) (decisions : RoleMap) (now : Time) (next_week demand : GoInt)
    → (play_week s decisions now next_week demand).1.history
      ≡ s.history ++ (play_week s decisions now next_week demand).0 ∷ []
unfolding play_week
play_week-history s decisions now next_week demand = refl

-- A week that is played is costed, and stands at the end of the history.
advance_week-AreCosted :
    (s : GameSession) (decisions : RoleMap) (now : Time) (week : WeekState) (s' : GameSession)
    → advance_week s decisions now ≡ ok (week, s')
    → AreCosted s.history
    → AreCosted s'.history
advance_week-AreCosted s decisions now week s' e h =
    let (demand, played) = advance_week-play_week s decisions now week s' e in
    subst (λ (p : WeekState × GameSession). AreCosted p.1.history) played
      (rw (play_week-history s decisions now (add_int s.current_week 1) demand) (
        AreCosted-snoc s.history (play_week s decisions now (add_int s.current_week 1) demand).0 h
          (week_result-costs s decisions now (add_int s.current_week 1) demand)))

play_weeks-AreCosted :
    (moves : Moves) (s end : GameSession)
    → play_weeks moves s ≡ ok end
    → AreCosted s.history
    → AreCosted end.history
unfolding play_weeks
play_weeks-AreCosted [] s end e h =
    let same : s ≡ end = cc in subst (λ (x : GameSession). AreCosted x.history) same h
play_weeks-AreCosted ((decisions, now) ∷ rest) s end e h =
    let ((week, s'), first, others) =
      >>=-eq-ok (advance_week s decisions now) (λ r. play_weeks rest r.1) e in
    play_weeks-AreCosted rest s' end others (advance_week-AreCosted s decisions now week s' first h)

new_game_session-history :
    (id room_id : String) (scenario : Scenario) (max_weeks : GoInt) (now : Time) (s : GameSession)
    → new_game_session id room_id scenario max_weeks now ≡ ok s
    → s.history ≡ []
unfolding new_game_session
new_game_session-history id room_id scenario max_weeks now s e =
    let (x, e1) = >>-eq-ok (reject_if (le_int max_weeks 0) invalid_max_weeks) _ e in
    let (y, e2) = >>-eq-ok (validate scenario) _ e1 in cc

module _ {Float : Type 0} (floats : Floats Float) where
  report-costs :
      (weeks : List WeekState)
      → AreCosted weeks
      → sum_ints (map (λ n. n.total_cost) (report floats weeks).node_analytics)
        ≡ (report floats weeks).total_cost
  unfolding costs_by_role
  report-costs weeks h = omega (
    arith,
    week_costs weeks h,
    sum_ints-sum (map (λ n. n.total_cost) (report floats weeks).node_analytics),
    sum_ints-sum (map (λ w. w.total_cost) weeks),
    sum_ints-sum (picked (λ n. n.weekly_cost) factory (nodes_of weeks)),
    sum_ints-sum (picked (λ n. n.weekly_cost) distributor (nodes_of weeks)),
    sum_ints-sum (picked (λ n. n.weekly_cost) wholesaler (nodes_of weeks)),
    sum_ints-sum (picked (λ n. n.weekly_cost) retailer (nodes_of weeks)),
  )

  -- With no week played there is nothing to add; else the analytics are the report.
  analyse_history-costs :
      (weeks : List WeekState)
      → AreCosted weeks
      → sum_ints (map (λ n. n.total_cost) (analyse_history floats weeks).node_analytics)
        ≡ (analyse_history floats weeks).total_cost
  analyse_history-costs [] h = unfold analyse_history sum_ints in refl
  analyse_history-costs (week ∷ rest) h =
      rw (analyse_history-report floats (week ∷ rest) (omega arith)) (report-costs (week ∷ rest) h)

  -- After any weeks of a new game the total cost of the analytics is the sum of the roles' costs,
  -- wrap-around included.
  pub calculate_session_analytics-costs :
      (id room_id : String) (scenario : Scenario) (max_weeks : GoInt) (now : Time) (moves : Moves)
      (end : GameSession)
      → (new_game_session id room_id scenario max_weeks now >>= play_weeks moves) ≡ ok end
      → sum_ints (map (λ n. n.total_cost) (calculate_session_analytics floats end).node_analytics)
        ≡ (calculate_session_analytics floats end).total_cost
  unfolding AreCosted calculate_session_analytics
  calculate_session_analytics-costs id room_id scenario max_weeks now moves end e =
      let (begun, made, played) =
        >>=-eq-ok (new_game_session id room_id scenario max_weeks now) (play_weeks moves) e in
      analyse_history-costs end.history (
        play_weeks-AreCosted moves begun end played
          (rw (new_game_session-history id room_id scenario max_weeks now begun made) tt))
