-- ===== src/Domain/Session/Begin.antt =====
-- `NewGameSession`, and a whole game from its first week to its last.
use supply_chain_game.Prelude.{
  ℕ, ◌+◌, ◌*◌, ◌≤◌, ◌≡◌, refl, ap, ◌∙◌, [], ◌∷◌, arith, length, All, sum, String,
}
use supply_chain_game.Word.{GoInt, Time, IsNonNeg, le_int-zero}
use supply_chain_game.Result.{ok, ◌>>=◌}
use supply_chain_game.Domain.Role.{
  Role, factory, distributor, wholesaler, retailer, unassigned, unknown, IsKnown, is_known_role,
  role_eq,
}
use supply_chain_game.Domain.Scenario.{Scenario}
use supply_chain_game.Domain.Scenario.Validity.{IsPositive, validate_complete}
use supply_chain_game.Domain.Scenario.Validity
use supply_chain_game.Domain.Scenario.Materialize.{IsPlayable}
use supply_chain_game.Domain.Room.{active}
use supply_chain_game.Domain.Session.{
  GameSession, new_game_session, must_node, initial_nodes, initial_pipelines,
}
use supply_chain_game.Domain.Session.Totals.{goods_total}
use supply_chain_game.Domain.Session.Invariant.{IsValid, Limits, IsWithin, AreDecided}
use supply_chain_game.Domain.Session.Play.{Moves, play_weeks, IsOver, play_weeks-IsOver}

-- The limits of a new game, for orders and demands of `cap` at most.
abbrev pub initial_limits : Scenario → ℕ → Limits
initial_limits scenario cap = record {
  goods = 4 * scenario.initial_inventory + 4 * sum scenario.initial_pipeline_goods;
  debt = scenario.initial_backlog;
  cap = cap;
}

-- A scenario with a demand for every week, within the cap, whose totals fit a word to the end.
pub record IsStartable (scenario : Scenario) (max_weeks : GoInt) (cap : ℕ) : Type 0 where
  pub valid : Validity.IsValid scenario
  pub playable : IsPlayable scenario.consumer_demand max_weeks
  pub weeks : IsPositive max_weeks
  pub orders : All (λ v. v ≤ cap) scenario.initial_pipeline_orders
  pub demand : All (λ v. v ≤ cap) scenario.consumer_demand
  pub goods_room : IsNonNeg ((initial_limits scenario cap).goods + max_weeks * cap)
  pub debt_room : IsNonNeg (scenario.initial_backlog + max_weeks * cap)

-- The session that `NewGameSession` builds.
abbrev pub fresh : String → String → Scenario → GoInt → Time → GameSession
fresh id room_id scenario max_weeks now = record {
  id = id;
  room_id = room_id;
  status = active;
  current_week = 0;
  max_weeks = max_weeks;
  scenario = scenario;
  nodes = initial_nodes id scenario (factory ∷ distributor ∷ wholesaler ∷ retailer ∷ []);
  goods_pipelines =
      initial_pipelines distributor wholesaler retailer scenario.initial_pipeline_goods;
  order_pipelines =
      initial_pipelines factory distributor wholesaler scenario.initial_pipeline_orders;
  production_queue = scenario.initial_pipeline_goods;
  history = [];
  created_at = now;
  updated_at = now;
}

-- A valid scenario with a demand for each of a positive number of weeks makes a valid session.
module _ (id room_id : String) (scenario : Scenario) (max_weeks : GoInt) (now : Time)
    (valid : Validity.IsValid scenario) (weeks : IsPositive max_weeks) where
  pub new_game_session-fresh :
      new_game_session id room_id scenario max_weeks now
      ≡ ok (fresh id room_id scenario max_weeks now)
  unfolding new_game_session
  new_game_session-fresh =
      rw (validate_complete scenario valid, le_int-zero max_weeks (omega (arith, weeks)))
        (ground (arith, weeks))

  pub fresh_session-IsValid :
      IsPlayable scenario.consumer_demand max_weeks
      → IsValid (fresh id room_id scenario max_weeks now)
  unfolding initial_pipelines initial_nodes role_eq
  fresh_session-IsValid playable = record {
    roles = refl;
    weeks = weeks;
    in_time = omega arith;
    running = λ _. refl;
    ended = λ e. absurd (omega (arith, weeks));
    numbered = tt;
    history_length = refl;
    playable = playable;
    delays = (valid.shipping, valid.ordering, valid.production);
    to_distributor = valid.goods_length;
    to_wholesaler = valid.goods_length;
    to_retailer = valid.goods_length;
    by_distributor = valid.orders_length;
    by_wholesaler = valid.orders_length;
    by_retailer = valid.orders_length;
    production = valid.production_length;
  }

module _ (id room_id : String) (scenario : Scenario) (max_weeks : GoInt) (now : Time) (cap : ℕ)
    (h : IsStartable scenario max_weeks cap) where
  abbrev pub begun : GameSession
  begun = fresh id room_id scenario max_weeks now

  pub made : new_game_session id room_id scenario max_weeks now ≡ ok begun
  made = new_game_session-fresh id room_id scenario max_weeks now h.valid h.weeks

  pub fresh-IsValid : IsValid begun
  fresh-IsValid = fresh_session-IsValid id room_id scenario max_weeks now h.valid h.weeks h.playable

  initial_debt :
      (role : Role) → IsKnown role → (must_node begun role).backlog ≤ scenario.initial_backlog
  unfolding must_node initial_nodes role_eq is_known_role
  initial_debt factory k = omega arith
  initial_debt distributor k = omega arith
  initial_debt wholesaler k = omega arith
  initial_debt retailer k = omega arith
  initial_debt unassigned k = cc
  initial_debt (unknown t) k = cc

  initial_goods : goods_total begun ≤ (initial_limits scenario cap).goods
  unfolding goods_total must_node initial_nodes initial_pipelines role_eq
  initial_goods = omega arith

  pub fresh-IsWithin : IsWithin (initial_limits scenario cap) begun
  unfolding initial_pipelines role_eq
  fresh-IsWithin = record {
    total = omega (arith, initial_goods);
    debts = λ role k. omega (arith, initial_debt role k);
    to_factory = h.orders;
    to_distributor = h.orders;
    to_wholesaler = h.orders;
    demand = h.demand;
    goods_room = h.goods_room;
    debt_room = h.debt_room;
  }

  -- A startable scenario makes a valid session within the limits of the game.
  new_game_session-IsValid :
      (session : GameSession) × (new_game_session id room_id scenario max_weeks now ≡ ok session)
      × IsValid session
      × IsWithin (initial_limits scenario cap) session
      × (session.current_week ≡ 0)
  new_game_session-IsValid = (begun, made, fresh-IsValid, fresh-IsWithin, refl)

  -- A new game with a startable scenario ends after its number of weeks, for any decisions within
  -- the cap: no call fails, and the session is then finished and valid, with a history of every week
  -- and with its goods, orders and debts within the limits, and refuses every move.
  pub new_game-IsOver :
      (moves : Moves)
      → All (λ move. AreDecided (initial_limits scenario cap) move.0) moves
      → length moves ≡ max_weeks
      → (end : GameSession) × ((new_game_session id room_id scenario max_weeks now
            >>= play_weeks moves)
          ≡ ok end)
        × IsOver (initial_limits scenario cap) end
  new_game-IsOver moves d len =
      let (end, e, over) =
        play_weeks-IsOver (initial_limits scenario cap) moves begun fresh-IsValid fresh-IsWithin d
          (omega arith) in
      (end, ap (λ r. r >>= play_weeks moves) made ∙ e, over)
