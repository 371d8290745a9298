-- ===== src/Domain/Session/Invariant.antt =====
-- What holds of every session between two calls, and the limits within which no number overflows.
use supply_chain_game.Prelude.{
  ℕ, suc, ◌+◌, ◌*◌, ◌≤◌, ◌<◌, ◌≡◌, List, [], ◌∷◌, map, length, All, some,
}
use supply_chain_game.Word.{GoInt, IsNonNeg}
use supply_chain_game.Domain.Role.{
  Role, factory, distributor, wholesaler, retailer, IsKnown, all_roles,
}
use supply_chain_game.Domain.Scenario.Validity.{IsPositive}
use supply_chain_game.Domain.Scenario.Materialize.{IsPlayable}
use supply_chain_game.Domain.Room.{active, finished}
use supply_chain_game.Domain.RoleMap.{RoleMap, lookup}
use supply_chain_game.Domain.Session.{queue_of, GameSession, WeekState, must_node}
use supply_chain_game.Domain.Session.Totals.{goods_total}

-- The weeks of a history, from `n` on without a gap.
abbrev pub IsNumbered : ℕ → List WeekState → Type 0
IsNumbered n [] = Unit
IsNumbered n (w ∷ rest) = (w.week ≡ n) × IsNumbered (suc n) rest

-- One node for each role, in order; every queue as long as its delay; a history of all weeks so
-- far; active before the last week, finished after it.
pub record IsValid (s : GameSession) : Type 0 where
  pub roles : map (λ n. n.role) s.nodes ≡ all_roles
  pub weeks : IsPositive s.max_weeks
  pub in_time : s.current_week ≤ s.max_weeks
  pub running : s.current_week < s.max_weeks → s.status ≡ active
  pub ended : s.current_week ≡ s.max_weeks → s.status ≡ finished
  pub numbered : IsNumbered 1 s.history
  pub history_length : length s.history ≡ s.current_week
  pub playable : IsPlayable s.scenario.consumer_demand s.max_weeks
  pub delays :
      IsPositive s.scenario.shipping_delay
      × IsPositive s.scenario.order_delay
      × IsPositive s.scenario.production_delay
  pub to_distributor : length (queue_of s.goods_pipelines distributor) ≡ s.scenario.shipping_delay
  pub to_wholesaler : length (queue_of s.goods_pipelines wholesaler) ≡ s.scenario.shipping_delay
  pub to_retailer : length (queue_of s.goods_pipelines retailer) ≡ s.scenario.shipping_delay
  pub by_distributor : length (queue_of s.order_pipelines factory) ≡ s.scenario.order_delay
  pub by_wholesaler : length (queue_of s.order_pipelines distributor) ≡ s.scenario.order_delay
  pub by_retailer : length (queue_of s.order_pipelines wholesaler) ≡ s.scenario.order_delay
  pub production : length s.production_queue ≡ s.scenario.production_delay

-- Limits of a game: `goods` in the beginning, `debt` of each node in the beginning, and `cap` for
-- every order and every week's demand.
pub record Limits : Type 0 where
  pub goods : ℕ
  pub debt : ℕ
  pub cap : ℕ

-- Goods and debts have grown by at most `cap` a week, and would fit a word in the last week.
pub record IsWithin (l : Limits) (s : GameSession) : Type 0 where
  pub total : goods_total s ≤ l.goods + s.current_week * l.cap
  pub debts :
      (role : Role) → IsKnown role → (must_node s role).backlog ≤ l.debt + s.current_week * l.cap
  pub to_factory : All (λ v. v ≤ l.cap) (queue_of s.order_pipelines factory)
  pub to_distributor : All (λ v. v ≤ l.cap) (queue_of s.order_pipelines distributor)
  pub to_wholesaler : All (λ v. v ≤ l.cap) (queue_of s.order_pipelines wholesaler)
  pub demand : All (λ v. v ≤ l.cap) s.scenario.consumer_demand
  pub goods_room : IsNonNeg (l.goods + s.max_weeks * l.cap)
  pub debt_room : IsNonNeg (l.debt + s.max_weeks * l.cap)

-- A decision within the cap for each of the four roles.
pub record AreDecided (l : Limits) (decisions : RoleMap) : Type 0 where
  pub decided :
      (role : Role)
      → IsKnown role
      → (order : GoInt) × (lookup role decisions ≡ some order) × (order ≤ l.cap)
