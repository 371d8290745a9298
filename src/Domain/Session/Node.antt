-- ===== src/Domain/Session/Node.antt =====
-- One node's week: what it ships, what it still owes, what it keeps.
use supply_chain_game.Prelude.{ℕ, ◌+◌, ◌-◌, ◌*◌, ◌<◌, ◌^◌, ◌≡◌, arith, min, ◌⊎◌}
use supply_chain_game.Word.{
  GoInt, IsNonNeg, add_int, sub_int, mul_int, add_int-small, sub_int-small, lt_int-small,
  mul_int-small, sub_int,
}
use supply_chain_game.Domain.Role.{Role}
use supply_chain_game.Domain.Scenario.{Scenario}
use supply_chain_game.Domain.Session.{NodeState, next_node, min_int, max_int}

-- The week of a node whose stock and debt fit a word: it ships as much of what is owed as it has;
-- nothing is lost, and it never owes goods and keeps goods at once.
pub record Serves (prev next : NodeState) (goods order : ℕ) : Type 0 where
  pub shipped : next.actual_shipment ≡ min (prev.inventory + goods) (order + prev.backlog)
  pub kept : next.inventory + next.actual_shipment ≡ prev.inventory + goods
  pub owed : next.backlog + next.actual_shipment ≡ order + prev.backlog
  pub no_waste : (next.inventory ≡ 0) ⊎ (next.backlog ≡ 0)

min_int-small : (a b : GoInt) → IsNonNeg a → IsNonNeg b → min_int a b ≡ min a b
unfolding min_int
min_int-small a b h k = rw (lt_int-small a b h k) (ground arith)

max_int-zero : (a : GoInt) → IsNonNeg a → max_int a 0 ≡ a
unfolding max_int
max_int-zero a h = rw (lt_int-small 0 a (omega arith) h) (ground arith)

-- The three amounts, in the order in which the code computes them.
module _ (a r : ℕ) (ha : IsNonNeg a) (hr : IsNonNeg r) where
  left-lem : sub_int a (min_int a r) ≡ a - min a r
  left-lem = rw (min_int-small a r ha hr) (sub_int-small a (min a r) (omega arith) ha)

  due-lem : max_int (sub_int r (min_int a r)) 0 ≡ r - min a r
  due-lem =
      rw (min_int-small a r ha hr, sub_int-small r (min a r) (omega arith) hr)
        (max_int-zero (r - min a r) (omega arith))

pub next_node-Serves :
    (scenario : Scenario) (prev : NodeState) (role : Role) (goods order placed : GoInt)
    → IsNonNeg (prev.inventory + goods)
    → IsNonNeg (order + prev.backlog)
    → Serves prev (next_node scenario prev role goods order placed) goods order
unfolding next_node
next_node-Serves scenario prev role goods order placed ha hr =
    rw (add_int-small prev.inventory goods ha, add_int-small order prev.backlog hr)
      (let a = prev.inventory + goods in
        let r = order + prev.backlog in
        record {
          shipped = min_int-small a r ha hr;
          kept = omega (arith, min_int-small a r ha hr, left-lem a r ha hr);
          owed = omega (arith, min_int-small a r ha hr, due-lem a r ha hr);
          no_waste = omega (arith, left-lem a r ha hr, due-lem a r ha hr);
        })

cost_lem :
    (kept holding owed lateness : GoInt)
    → kept * holding + owed * lateness < 2 ^ 63
    → add_int (mul_int kept holding) (mul_int owed lateness) ≡ kept * holding + owed * lateness
cost_lem kept holding owed lateness h =
    rw (mul_int-small kept holding (omega arith), mul_int-small owed lateness (omega arith))
      (add_int-small (kept * holding) (owed * lateness) h)

-- The week's cost of a node, where it fits a word: holding what it keeps, and owing what it owes.
pub next_node-cost :
    (scenario : Scenario) (prev : NodeState) (role : Role) (goods order placed : GoInt)
    → let next = next_node scenario prev role goods order placed in
      next.inventory * scenario.holding_cost + next.backlog * scenario.backlog_cost < 2 ^ 63
      → next.weekly_cost
        ≡ next.inventory * scenario.holding_cost + next.backlog * scenario.backlog_cost
unfolding next_node
next_node-cost scenario prev role goods order placed h = cost_lem _ _ _ _ h
