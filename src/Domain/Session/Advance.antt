-- ===== src/Domain/Session/Advance.antt =====
-- `AdvanceWeek` on a valid session within its limits: it succeeds, and the next session is valid
-- and within its limits.
use supply_chain_game.Prelude.{
  ℕ, suc, ◌+◌, ◌*◌, ◌≤◌, ◌<◌, ◌≡◌, refl, ap, ◌∙◌, List, [], ◌∷◌, ◌++◌, arith, length, length-append,
  true, false, leb, le→leb,
}
use supply_chain_game.Word.{GoInt, Time, add_int, le_int, le_int-small, add_int-small}
use supply_chain_game.Result.{ok}
use supply_chain_game.Domain.Role.{
  Role, factory, distributor, wholesaler, retailer, IsKnown, is_known_role, all_roles,
}
use supply_chain_game.Domain.Scenario.{demand_for_week}
use supply_chain_game.Domain.Scenario.Validity.{IsPositive}
use supply_chain_game.Domain.Room.{GameStatus, waiting, active, finished}
use supply_chain_game.Domain.RoleMap.{RoleMap, get_or_zero}
use supply_chain_game.Domain.Session.{
  queue_of, GameSession, WeekState, must_node, check_decisions, advance_week, play_week, is_active,
  next_node,
}
use supply_chain_game.Domain.Session.Queues.{
  cycle, All-cycle, length-cycle, place_orders-factory, place_orders-distributor,
  place_orders-wholesaler, ship_goods-distributor, ship_goods-wholesaler, ship_goods-retailer,
}
use supply_chain_game.Domain.Session.Week.{
  served_nodes, next_session, week_result, play_week-next_session, must_node-next_session,
}
use supply_chain_game.Domain.Session.Totals.{
  goods_total, Fits, served-Serves, goods_total-next_session,
}
use supply_chain_game.Domain.Session.Invariant.{IsValid, Limits, IsWithin, AreDecided, IsNumbered}
use supply_chain_game.Domain.Session.Bounds.{
  get_or_zero-decided, check_decisions-decided, orders-le-cap, scale_mono, IsWithin-Fits,
}

length-kept :
    (queue : List GoInt) (x n : GoInt)
    → IsPositive n
    → length queue ≡ n
    → length (cycle queue x) ≡ n
length-kept [] x n p h = absurd (omega arith)
length-kept (y ∷ queue) x n p h = length-cycle (y ∷ queue) x (length queue) refl ∙ h

leb-gt : (a b : ℕ) → b < a → leb a b ≡ false
leb-gt a b h = ground arith

-- The next week goes to the end of a numbered history.
IsNumbered-snoc :
    (n : ℕ) (history : List WeekState) (w : WeekState)
    → IsNumbered n history
    → w.week ≡ n + length history
    → IsNumbered n (history ++ w ∷ [])
IsNumbered-snoc n [] w h e = (omega arith, tt)
IsNumbered-snoc n (x ∷ rest) w h e = (h.0, IsNumbered-snoc (suc n) rest w h.1 (omega arith))

active-status : (status : GameStatus) → status ≡ active → is_active status ≡ true
active-status waiting e = cc
active-status active e = refl
active-status finished e = cc

-- `AdvanceWeek` when nothing stands in the way.
advance_week-checked :
    (s : GameSession) (decisions : RoleMap) (demand : GoInt) (now : Time)
    → s.status ≡ active
    → le_int s.max_weeks s.current_week ≡ false
    → check_decisions all_roles decisions ≡ ok tt
    → add_int s.current_week 1 ≡ s.current_week + 1
    → demand_for_week s.scenario (s.current_week + 1) ≡ ok demand
    → advance_week s decisions now ≡ ok (play_week s decisions now (s.current_week + 1) demand)
unfolding advance_week
advance_week-checked s decisions demand now run early given next_week known =
    rw (active-status s.status run, early, given, next_week, known)

-- A week before the last leaves a valid session, whatever the decisions and the numbers are.
pub next_session-IsValid :
    (s : GameSession) (decisions : RoleMap) (demand : GoInt) (now : Time)
    → IsValid s
    → s.current_week < s.max_weeks
    → IsValid (next_session s decisions demand now (s.current_week + 1))
unfolding next_node
next_session-IsValid s decisions demand now v running = record {
  roles = refl;
  weeks = v.weeks;
  in_time = omega arith;
  running = λ h.
      rw
        (
          le_int-small s.max_weeks (s.current_week + 1) v.weeks.1 (omega arith),
          leb-gt s.max_weeks (s.current_week + 1) h,
        )
        (v.running running);
  ended = λ h. rw (
    le_int-small s.max_weeks (s.current_week + 1) v.weeks.1 (omega arith),
    le→leb s.max_weeks (s.current_week + 1) (omega arith),
  );
  numbered = IsNumbered-snoc 1 s.history _ v.numbered (omega (arith, v.history_length));
  history_length = omega (arith, length-append s.history (_ ∷ []), v.history_length);
  playable = v.playable;
  delays = v.delays;
  to_distributor =
      rw (ship_goods-distributor s demand (served_nodes s decisions demand))
        (length-kept _ _ _ v.delays.0 v.to_distributor);
  to_wholesaler =
      rw (ship_goods-wholesaler s demand (served_nodes s decisions demand))
        (length-kept _ _ _ v.delays.0 v.to_wholesaler);
  to_retailer =
      rw (ship_goods-retailer s demand (served_nodes s decisions demand))
        (length-kept _ _ _ v.delays.0 v.to_retailer);
  by_distributor =
      rw (place_orders-factory s demand decisions) (length-kept _ _ _ v.delays.1 v.by_distributor);
  by_wholesaler =
      rw (place_orders-distributor s demand decisions)
        (length-kept _ _ _ v.delays.1 v.by_wholesaler);
  by_retailer =
      rw (place_orders-wholesaler s demand decisions) (length-kept _ _ _ v.delays.1 v.by_retailer);
  production = length-kept _ _ _ v.delays.2 v.production;
}

module _ (l : Limits) (s : GameSession) (decisions : RoleMap) (demand : GoInt) (now : Time)
    (v : IsValid s) (w : IsWithin l s) (d : AreDecided l decisions) (small : demand ≤ l.cap)
    (running : s.current_week < s.max_weeks) where
  abbrev pub following : GameSession
  following = next_session s decisions demand now (s.current_week + 1)

  abbrev pub fits : Fits s demand
  fits = IsWithin-Fits l s demand w small running

  order-le-cap : (role : Role) → IsKnown role → get_or_zero role decisions ≤ l.cap
  order-le-cap role k =
      let (order, e, b) = d.decided role k in
      omega (arith, get_or_zero-decided decisions role order e)

  total-grows : goods_total following ≤ l.goods + (s.current_week + 1) * l.cap
  unfolding is_known_role
  total-grows = omega (
    arith,
    goods_total-next_session s decisions demand fits now (s.current_week + 1),
    order-le-cap factory refl,
    w.total,
  )

  debt-grows :
      (role : Role)
      → IsKnown role
      → (must_node following role).backlog ≤ l.debt + (s.current_week + 1) * l.cap
  debt-grows role k =
      rw (must_node-next_session s decisions demand now (s.current_week + 1) role k) (
        omega (
          arith,
          (served-Serves s decisions demand fits role k).owed,
          orders-le-cap l s demand role w small,
          w.debts role k,
        ))

  pub following-IsWithin : IsWithin l following
  unfolding is_known_role
  following-IsWithin = record {
    total = total-grows;
    debts = debt-grows;
    to_factory = rw (place_orders-factory s demand decisions) (
        All-cycle (λ x. x ≤ l.cap) (queue_of s.order_pipelines factory) _ w.to_factory
          (order-le-cap distributor refl));
    to_distributor = rw (place_orders-distributor s demand decisions) (
        All-cycle (λ x. x ≤ l.cap) (queue_of s.order_pipelines distributor) _ w.to_distributor
          (order-le-cap wholesaler refl));
    to_wholesaler = rw (place_orders-wholesaler s demand decisions) (
        All-cycle (λ x. x ≤ l.cap) (queue_of s.order_pipelines wholesaler) _ w.to_wholesaler
          (order-le-cap retailer refl));
    demand = w.demand;
    goods_room = w.goods_room;
    debt_room = w.debt_room;
  }

  pub following-IsValid : IsValid following
  following-IsValid = next_session-IsValid s decisions demand now v running

  -- The checks of `AdvanceWeek` pass.
  pub advance_week-following :
      demand_for_week s.scenario (s.current_week + 1) ≡ ok demand
      → advance_week s decisions now
        ≡ ok (week_result s decisions demand now (s.current_week + 1), following)
  unfolding is_known_role
  advance_week-following e =
      advance_week-checked s decisions demand now (v.running running)
        (le_int-small s.max_weeks s.current_week v.weeks.1 (omega arith)
          ∙ leb-gt s.max_weeks s.current_week running)
        (check_decisions-decided all_roles l decisions d
          (omega (arith, w.goods_room, scale_mono 1 s.max_weeks l.cap (omega arith)))
          (refl, (refl, (refl, (refl, tt)))))
        (add_int-small s.current_week 1 (omega arith)) e
      ∙ ap ok (play_week-next_session s decisions demand now (s.current_week + 1))
