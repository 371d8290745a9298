-- ===== src/Domain/Session/Play.antt =====
-- Whole games: `AdvanceWeek` of internal/domain/game_session.go, called week after week.
use supply_chain_game.Prelude.{◌+◌, ◌≡◌, refl, List, [], ◌∷◌, arith, length, All}
use supply_chain_game.Word.{Time}
use supply_chain_game.Result.{Result, ok, err, ◌>>=◌, session_not_active}
use supply_chain_game.Domain.Room.{finished}
use supply_chain_game.Domain.RoleMap.{RoleMap}
use supply_chain_game.Domain.Session.{GameSession, WeekState, advance_week}
use supply_chain_game.Domain.Session.Invariant.{IsValid, Limits, IsWithin, AreDecided}
use supply_chain_game.Domain.Session.Game.{IsReady, advance_week_succeeds}

-- The moves of a game: the decisions of each week, and the time of the call.
abbrev pub Moves : Type 0
Moves = List (RoleMap × Time)

-- One call of `AdvanceWeek` after the other, up to the first error.
unfoldable pub play_weeks : Moves → GameSession → Result GameSession
play_weeks [] s = ok s
play_weeks ((decisions, now) ∷ rest) s = advance_week s decisions now >>= λ r. play_weeks rest r.1

-- A game that is over: no move is accepted any more.
pub record IsOver (l : Limits) (s : GameSession) : Type 0 where
  pub valid : IsValid s
  pub within : IsWithin l s
  pub finished_status : s.status ≡ finished
  pub all_weeks : length s.history ≡ s.max_weeks
  pub refuses :
      (decisions : RoleMap) (now : Time) → advance_week s decisions now ≡ err session_not_active

advance_week-finished :
    (s : GameSession) (decisions : RoleMap) (now : Time)
    → s.status ≡ finished
    → advance_week s decisions now ≡ err session_not_active
unfolding advance_week
advance_week-finished s decisions now e = rw e

pub play_weeks-cons :
    (decisions : RoleMap) (now : Time) (rest : Moves) (s s' end : GameSession) (w : WeekState)
    → advance_week s decisions now ≡ ok (w, s')
    → play_weeks rest s' ≡ ok end
    → play_weeks ((decisions, now) ∷ rest) s ≡ ok end
unfolding play_weeks
play_weeks-cons decisions now rest s s' end w e ee = rw (e, ee)

pub ended-IsOver :
    (l : Limits) (s : GameSession)
    → IsValid s
    → IsWithin l s
    → s.current_week ≡ s.max_weeks
    → IsOver l s
ended-IsOver l s v w h = record {
  valid = v;
  within = w;
  finished_status = v.ended h;
  all_weeks = omega (arith, v.history_length);
  refuses = λ decisions now. advance_week-finished s decisions now (v.ended h);
}

-- A decision of each role for each week that is left brings a game to its end, whatever the
-- decisions are within the cap.
pub play_weeks-IsOver :
    (l : Limits) (moves : Moves) (s : GameSession)
    → IsValid s
    → IsWithin l s
    → All (λ move. AreDecided l move.0) moves
    → s.current_week + length moves ≡ s.max_weeks
    → (s' : GameSession) × (play_weeks moves s ≡ ok s') × IsOver l s'
unfolding play_weeks
play_weeks-IsOver l [] s v w d h = (s, refl, ended-IsOver l s v w (omega arith))
play_weeks-IsOver l ((decisions, now) ∷ rest) s v w d h =
    let ready : IsReady l s decisions = record {
      valid = v;
      within = w;
      decided = d.0;
      running = omega arith;
    } in
    let (week, s', e, v', w', c, m, _) = advance_week_succeeds l s decisions now ready in
    let (end, ee, over) = play_weeks-IsOver l rest s' v' w' d.1 (omega arith) in
    (end, play_weeks-cons decisions now rest s s' end week e ee, over)
