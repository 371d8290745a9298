-- ===== src/Domain/Session/Totals.antt =====
-- The goods of a game: what the nodes keep, what is on its way, and what is being produced.
use supply_chain_game.Prelude.{ℕ, ◌+◌, ◌≡◌, refl, ap, arith, sum}
use supply_chain_game.Word.{GoInt, Time, IsNonNeg}
use supply_chain_game.Domain.Role.{
  Role, factory, distributor, wholesaler, retailer, is_known_role, IsKnown,
}
use supply_chain_game.Domain.RoleMap.{RoleMap, get_or_zero}
use supply_chain_game.Domain.Session.{queue_of, GameSession, NodeState, must_node, next_node}
use supply_chain_game.Domain.Session.Queues.{
  received, sum-cycle, ship_goods-distributor, ship_goods-wholesaler, ship_goods-retailer,
}
use supply_chain_game.Domain.Session.Node.{Serves, next_node-Serves}
use supply_chain_game.Domain.Session.Week.{
  served, served_nodes, next_session, must_node-next_session, node_by_role-served,
}

-- What the nodes keep.
unfoldable pub stock : GameSession → ℕ
stock s =
    (must_node s factory).inventory
    + (must_node s distributor).inventory
    + (must_node s wholesaler).inventory
    + (must_node s retailer).inventory

-- What is on its way from a node to the next.
unfoldable pub in_transit : GameSession → ℕ
in_transit s =
    sum (queue_of s.goods_pipelines distributor)
    + sum (queue_of s.goods_pipelines wholesaler)
    + sum (queue_of s.goods_pipelines retailer)

unfoldable pub goods_total : GameSession → ℕ
unfolding stock in_transit
goods_total s = stock s + in_transit s + sum s.production_queue

-- The sums of the week stay in a word.
abbrev pub Fits : GameSession → GoInt → Type 0
Fits s demand =
    (role : Role)
    → IsKnown role
    → IsNonNeg ((must_node s role).inventory + (received s demand).goods role)
      × IsNonNeg ((received s demand).orders role + (must_node s role).backlog)

module _ (s : GameSession) (decisions : RoleMap) (demand : GoInt) (fits : Fits s demand) where
  pub served-Serves :
      (role : Role) (k : IsKnown role)
      → Serves
          (must_node s role)
          (served s decisions demand role)
          ((received s demand).goods role)
          ((received s demand).orders role)
  served-Serves role k =
      let (g, o) = fits role k in
      next_node-Serves s.scenario (must_node s role) role _ _ (get_or_zero role decisions) g o

  -- No goods are lost and none appear: beside what the factory starts to produce and what the
  -- retailer sells, the total is the same.
  pub goods_total-next_session :
      (now : Time) (next_week : GoInt)
      → goods_total (next_session s decisions demand now next_week)
          + (served s decisions demand retailer).actual_shipment
        ≡ goods_total s + get_or_zero factory decisions
  unfolding goods_total received is_known_role must_node next_node get_or_zero
  goods_total-next_session now w = omega (
    arith,
    ap (λ (n : NodeState). n.inventory)
        (must_node-next_session s decisions demand now w factory refl),
    ap (λ (n : NodeState). n.inventory)
        (must_node-next_session s decisions demand now w distributor refl),
    ap (λ (n : NodeState). n.inventory)
        (must_node-next_session s decisions demand now w wholesaler refl),
    ap (λ (n : NodeState). n.inventory)
        (must_node-next_session s decisions demand now w retailer refl),
    (served-Serves factory refl).kept,
    (served-Serves distributor refl).kept,
    (served-Serves wholesaler refl).kept,
    (served-Serves retailer refl).kept,
    ap sum (ship_goods-distributor s demand (served_nodes s decisions demand)),
    ap sum (ship_goods-wholesaler s demand (served_nodes s decisions demand)),
    ap sum (ship_goods-retailer s demand (served_nodes s decisions demand)),
    ap (λ (n : NodeState). n.actual_shipment) (node_by_role-served s decisions demand factory refl),
    ap (λ (n : NodeState). n.actual_shipment)
        (node_by_role-served s decisions demand distributor refl),
    ap (λ (n : NodeState). n.actual_shipment)
        (node_by_role-served s decisions demand wholesaler refl),
    sum-cycle (queue_of s.goods_pipelines distributor)
        (served s decisions demand factory).actual_shipment,
    sum-cycle (queue_of s.goods_pipelines wholesaler)
        (served s decisions demand distributor).actual_shipment,
    sum-cycle (queue_of s.goods_pipelines retailer)
        (served s decisions demand wholesaler).actual_shipment,
    sum-cycle s.production_queue (get_or_zero factory decisions),
  )
