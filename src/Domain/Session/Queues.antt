-- ===== src/Domain/Session/Queues.antt =====
-- The queues of a week, role by role: each gives its head and takes one entry at its end.
use supply_chain_game.Prelude.{
  sym, subst, ℕ, suc, ◌+◌, ◌≤◌, ◌≡◌, refl, ap, List, [], ◌∷◌, ◌++◌, arith, length, length-append,
  sum, sum-append, All, All-append,
}
use supply_chain_game.Word.{GoInt}
use supply_chain_game.Domain.Role.{
  Role, factory, distributor, wholesaler, retailer, unassigned, unknown, role_eq, is_known_role,
  IsKnown,
}
use supply_chain_game.Domain.RoleMap.{RoleMap, get_or_zero}
use supply_chain_game.Domain.Session.{
  GameSession, NodeState, Pipelines, Incoming, by_role, put, queue_of, shift_slice, shift_entry,
  shift_pipeline, receive, place_orders, ship_goods, node_by_role,
}

-- The head of a queue, 0 if there is none, and the queue after a week that adds `v`.
abbrev pub head_or_zero : List GoInt → GoInt
head_or_zero [] = 0
head_or_zero (x ∷ xs) = x

abbrev pub tail_of : List GoInt → List GoInt
tail_of [] = []
tail_of (x ∷ xs) = xs

abbrev pub cycle : List GoInt → GoInt → List GoInt
cycle queue v = tail_of queue ++ v ∷ []

pub shift_slice_lem : (queue : List GoInt) → shift_slice queue ≡ (head_or_zero queue, tail_of queue)
unfolding shift_slice
shift_slice_lem [] = refl
shift_slice_lem (x ∷ xs) = refl

put-same :
    (pipelines : Pipelines) (role : Role)
    → IsKnown role
    → put pipelines role (queue_of pipelines role) ≡ pipelines
unfolding put is_known_role role_eq
put-same pipelines factory k = refl
put-same pipelines distributor k = refl
put-same pipelines wholesaler k = refl
put-same pipelines retailer k = refl
put-same pipelines unassigned k = cc
put-same pipelines (unknown s) k = cc

shift_entry_lem :
    (pipelines : Pipelines) (role : Role) (queue : List GoInt)
    → IsKnown role
    → queue_of pipelines role ≡ queue
    → shift_entry pipelines role queue ≡ (head_or_zero queue, put pipelines role (tail_of queue))
unfolding shift_entry
shift_entry_lem pipelines role [] k e =
    ap (λ (p : Pipelines). (0, p))
      (sym (subst (λ queue. put pipelines role queue ≡ pipelines) e (put-same pipelines role k)))
shift_entry_lem pipelines role (x ∷ xs) k e = refl

shift_pipeline_lem :
    (role : Role)
    → IsKnown role
    → (pipelines : Pipelines)
    → shift_pipeline pipelines role ≡ (
      head_or_zero (queue_of pipelines role),
      put pipelines role (tail_of (queue_of pipelines role)),
    )
unfolding shift_pipeline
shift_pipeline_lem role k pipelines =
    shift_entry_lem pipelines role (queue_of pipelines role) k refl

-- What a week receives: the head of each queue, and the consumers' demand at the retailer.
unfoldable pub received : GameSession → GoInt → Incoming
received s demand = record {
  goods =
      by_role (head_or_zero s.production_queue)
        (head_or_zero (queue_of s.goods_pipelines distributor))
        (head_or_zero (queue_of s.goods_pipelines wholesaler))
        (head_or_zero (queue_of s.goods_pipelines retailer));
  orders =
      by_role (head_or_zero (queue_of s.order_pipelines factory))
        (head_or_zero (queue_of s.order_pipelines distributor))
        (head_or_zero (queue_of s.order_pipelines wholesaler)) demand;
  goods_left =
      put
        (put (put s.goods_pipelines distributor (tail_of (queue_of s.goods_pipelines distributor)))
          wholesaler (tail_of (queue_of s.goods_pipelines wholesaler)))
        retailer (tail_of (queue_of s.goods_pipelines retailer));
  orders_left =
      put
        (put (put s.order_pipelines wholesaler (tail_of (queue_of s.order_pipelines wholesaler)))
          distributor (tail_of (queue_of s.order_pipelines distributor)))
        factory (tail_of (queue_of s.order_pipelines factory));
  production_left = tail_of s.production_queue;
}

pub receive-received : (s : GameSession) (demand : GoInt) → receive s demand ≡ received s demand
unfolding receive received put role_eq is_known_role
receive-received s demand = simp (
  shift_pipeline_lem factory refl,
  shift_pipeline_lem distributor refl,
  shift_pipeline_lem wholesaler refl,
  shift_pipeline_lem retailer refl,
  shift_slice_lem,
)

-- The queues after the week, role by role.
pub ship_goods-distributor :
    (s : GameSession) (demand : GoInt) (nodes : List NodeState)
    → queue_of (ship_goods (received s demand).goods_left nodes) distributor
      ≡ cycle (queue_of s.goods_pipelines distributor) (node_by_role nodes factory).actual_shipment
unfolding ship_goods received put role_eq
ship_goods-distributor s demand nodes = refl

pub ship_goods-wholesaler :
    (s : GameSession) (demand : GoInt) (nodes : List NodeState)
    → queue_of (ship_goods (received s demand).goods_left nodes) wholesaler
      ≡ cycle
          (queue_of s.goods_pipelines wholesaler)
          (node_by_role nodes distributor).actual_shipment
unfolding ship_goods received put role_eq
ship_goods-wholesaler s demand nodes = refl

pub ship_goods-retailer :
    (s : GameSession) (demand : GoInt) (nodes : List NodeState)
    → queue_of (ship_goods (received s demand).goods_left nodes) retailer
      ≡ cycle (queue_of s.goods_pipelines retailer) (node_by_role nodes wholesaler).actual_shipment
unfolding ship_goods received put role_eq
ship_goods-retailer s demand nodes = refl

pub place_orders-factory :
    (s : GameSession) (demand : GoInt) (decisions : RoleMap)
    → queue_of (place_orders (received s demand).orders_left decisions) factory
      ≡ cycle (queue_of s.order_pipelines factory) (get_or_zero distributor decisions)
unfolding place_orders received put role_eq
place_orders-factory s demand decisions = refl

pub place_orders-distributor :
    (s : GameSession) (demand : GoInt) (decisions : RoleMap)
    → queue_of (place_orders (received s demand).orders_left decisions) distributor
      ≡ cycle (queue_of s.order_pipelines distributor) (get_or_zero wholesaler decisions)
unfolding place_orders received put role_eq
place_orders-distributor s demand decisions = refl

pub place_orders-wholesaler :
    (s : GameSession) (demand : GoInt) (decisions : RoleMap)
    → queue_of (place_orders (received s demand).orders_left decisions) wholesaler
      ≡ cycle (queue_of s.order_pipelines wholesaler) (get_or_zero retailer decisions)
unfolding place_orders received put role_eq
place_orders-wholesaler s demand decisions = refl

pub length-cycle :
    (queue : List GoInt) (v : GoInt) (n : ℕ) → length queue ≡ suc n → length (cycle queue v) ≡ suc n
length-cycle [] v n h = absurd (omega arith)
length-cycle (x ∷ xs) v n h = omega (arith, length-append xs (v ∷ []))

-- A queue gives up its head and gets the new entry.
pub sum-cycle :
    (queue : List GoInt) (v : GoInt) → sum (cycle queue v) + head_or_zero queue ≡ sum queue + v
sum-cycle [] v = omega arith
sum-cycle (x ∷ xs) v = omega (arith, sum-append xs (v ∷ []))

pub head-le-sum : (queue : List GoInt) → head_or_zero queue ≤ sum queue
head-le-sum [] = omega arith
head-le-sum (x ∷ xs) = omega arith

pub All-cycle {κ} :
    (P : GoInt → Type κ) (queue : List GoInt) (v : GoInt)
    → All P queue
    → P v
    → All P (cycle queue v)
All-cycle P [] v h p = (p, tt)
All-cycle P (x ∷ xs) v h p = All-append P xs (v ∷ []) h.1 (p, tt)
