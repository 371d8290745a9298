-- ===== src/Domain/Session/Kept.antt =====
-- `AdvanceWeek` of internal/domain/game_session.go on any decisions: whatever it returns is a valid
-- session of the same room, also where numbers wrap around.
use supply_chain_game.Prelude.{◌+◌, ◌<◌, ◌≡◌, refl, sym, ap, ◌∙◌, subst, not, arith}
use supply_chain_game.Word.{Time, add_int, le_int, le_int-small, add_int-small}
use supply_chain_game.Result.{
  ok, reject_if, >>-eq-ok, reject_if-eq-ok, session_not_active, week_limit_reached,
}
use supply_chain_game.Domain.RoleMap.{RoleMap}
use supply_chain_game.Domain.Session.{GameSession, WeekState, advance_week, play_week, is_active}
use supply_chain_game.Domain.Session.Week.{
  next_session, play_week-next_session, advance_week-play_week,
}
use supply_chain_game.Domain.Session.Invariant.{IsValid}
use supply_chain_game.Domain.Session.Advance.{next_session-IsValid}

-- The check of the weeks that a call has passed.
advance_week-early :
    (s : GameSession) (decisions : RoleMap) (now : Time) (week : WeekState) (s' : GameSession)
    → IsValid s
    → advance_week s decisions now ≡ ok (week, s')
    → s.current_week < s.max_weeks
unfolding advance_week
advance_week-early s decisions now week s' v e =
    let (x, e1) = >>-eq-ok (reject_if (not (is_active s.status)) session_not_active) _ e in
    let (y, e2) =
      >>-eq-ok (reject_if (le_int s.max_weeks s.current_week) week_limit_reached) _ e1 in
    ground (
      arith,
      reject_if-eq-ok (le_int s.max_weeks s.current_week) _ y,
      le_int-small s.max_weeks s.current_week v.weeks.1 (omega (arith, v.in_time, v.weeks)),
    )

-- What stays from week to week.
pub record Continues (s s' : GameSession) : Type 0 where
  pub valid : IsValid s'
  pub id : s'.id ≡ s.id
  pub room_id : s'.room_id ≡ s.room_id
  pub max_weeks : s'.max_weeks ≡ s.max_weeks
  pub next : s'.current_week ≡ s.current_week + 1

pub advance_week-Continues :
    (s : GameSession) (decisions : RoleMap) (now : Time) (week : WeekState) (s' : GameSession)
    → IsValid s
    → advance_week s decisions now ≡ ok (week, s')
    → Continues s s'
advance_week-Continues s decisions now week s' v e =
    let early = advance_week-early s decisions now week s' v e in
    let (demand, played) = advance_week-play_week s decisions now week s' e in
    let added : add_int s.current_week 1 ≡ s.current_week + 1 =
      add_int-small s.current_week 1 (omega (arith, v.weeks)) in
    let made : next_session s decisions demand now (s.current_week + 1) ≡ s' =
      ap (λ (p : WeekState × GameSession). p.1)
        (sym (play_week-next_session s decisions demand now (s.current_week + 1))
          ∙ ap (λ next. play_week s decisions now next demand) (sym added)
          ∙ played) in
    subst (Continues s) made (record {
      valid = next_session-IsValid s decisions demand now v early;
      id = refl;
      room_id = refl;
      max_weeks = refl;
      next = refl;
    })
