-- ===== src/Domain/Session/Bounds.antt =====
-- What a session within its limits offers to a week of internal/domain/game_session.go.
use supply_chain_game.Prelude.{
  ℕ, ◌+◌, ◌*◌, ◌≤◌, ◌<◌, ◌^◌, ◌≡◌, refl, List, [], ◌∷◌, arith, All, some,
}
use supply_chain_game.Word.{GoInt, lt_int-small}
use supply_chain_game.Result.{ok}
use supply_chain_game.Domain.Role.{
  Role, factory, distributor, wholesaler, retailer, unassigned, unknown, IsKnown, is_known_role,
}
use supply_chain_game.Domain.Scenario.{demand_for_week}
use supply_chain_game.Domain.Scenario.Materialize.{demand_of-IsPlayable}
use supply_chain_game.Domain.RoleMap.{RoleMap, lookup, get_or_zero}
use supply_chain_game.Domain.Session.{queue_of, GameSession, must_node, check_decisions}
use supply_chain_game.Domain.Session.Queues.{received, head_or_zero, head-le-sum}
use supply_chain_game.Domain.Session.Totals.{goods_total, Fits}
use supply_chain_game.Domain.Session.Invariant.{IsValid, Limits, IsWithin, AreDecided}

pub get_or_zero-decided :
    (decisions : RoleMap) (role : Role) (order : GoInt)
    → lookup role decisions ≡ some order
    → get_or_zero role decisions ≡ order
unfolding get_or_zero
get_or_zero-decided decisions role order e = rw (e, get_or_zero)

pub check_decisions-decided :
    (roles : List Role) (l : Limits) (decisions : RoleMap)
    → AreDecided l decisions
    → l.cap < 2 ^ 63
    → All IsKnown roles
    → check_decisions roles decisions ≡ ok tt
unfolding check_decisions
check_decisions-decided [] l decisions d h k = refl
check_decisions-decided (role ∷ rest) l decisions d h k =
    let (order, e, b) = d.decided role k.0 in
    rw (e, check_decisions, lt_int-small order 0 (omega arith) (omega arith))
      (ground (arith, check_decisions-decided rest l decisions d h k.1))

-- The week's demand is at hand, and within the cap.
pub demand-at-hand :
    (l : Limits) (s : GameSession)
    → IsValid s
    → IsWithin l s
    → s.current_week < s.max_weeks
    → (demand : GoInt) × (demand_for_week s.scenario (s.current_week + 1) ≡ ok demand)
      × (demand ≤ l.cap)
unfolding demand_for_week
demand-at-hand l s v w h =
    demand_of-IsPlayable (λ x. x ≤ l.cap) s.scenario.consumer_demand s.max_weeks
      (s.current_week + 1) v.playable w.demand v.weeks.1 (omega arith) (omega arith)

head-le-cap : (queue : List GoInt) (cap : ℕ) → All (λ v. v ≤ cap) queue → head_or_zero queue ≤ cap
head-le-cap [] cap h = omega arith
head-le-cap (x ∷ xs) cap h = h.0

-- Every order that arrives is within the cap.
pub orders-le-cap :
    (l : Limits) (s : GameSession) (demand : GoInt) (role : Role)
    → IsWithin l s
    → demand ≤ l.cap
    → (received s demand).orders role ≤ l.cap
unfolding received
orders-le-cap l s demand factory w h =
    head-le-cap (queue_of s.order_pipelines factory) l.cap w.to_factory
orders-le-cap l s demand distributor w h =
    head-le-cap (queue_of s.order_pipelines distributor) l.cap w.to_distributor
orders-le-cap l s demand wholesaler w h =
    head-le-cap (queue_of s.order_pipelines wholesaler) l.cap w.to_wholesaler
orders-le-cap l s demand retailer w h = h
orders-le-cap l s demand unassigned w h = omega arith
orders-le-cap l s demand (unknown t) w h = omega arith

-- What a node has and gets is part of the goods of the game.
goods-le-total :
    (s : GameSession) (demand : GoInt) (role : Role)
    → IsKnown role
    → (must_node s role).inventory + (received s demand).goods role ≤ goods_total s
unfolding received goods_total is_known_role
goods-le-total s demand factory k = omega (arith, head-le-sum s.production_queue)
goods-le-total s demand distributor k =
    omega (arith, head-le-sum (queue_of s.goods_pipelines distributor))
goods-le-total s demand wholesaler k =
    omega (arith, head-le-sum (queue_of s.goods_pipelines wholesaler))
goods-le-total s demand retailer k =
    omega (arith, head-le-sum (queue_of s.goods_pipelines retailer))
goods-le-total s demand unassigned k = cc
goods-le-total s demand (unknown t) k = cc

pub scale_mono : (a b c : ℕ) → a ≤ b → a * c ≤ b * c
scale_mono a b c h = grind arith

-- Within its limits no sum of the week overflows.
pub IsWithin-Fits :
    (l : Limits) (s : GameSession) (demand : GoInt)
    → IsWithin l s
    → demand ≤ l.cap
    → s.current_week < s.max_weeks
    → Fits s demand
IsWithin-Fits l s demand w h running role k =
    let grows = scale_mono (s.current_week + 1) s.max_weeks l.cap (omega arith) in
    (
      omega (arith, goods-le-total s demand role k, w.total, w.goods_room),
      omega (arith, orders-le-cap l s demand role w h, w.debts role k, w.debt_room),
    )
