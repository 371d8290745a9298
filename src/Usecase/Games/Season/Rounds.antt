-- ===== src/Usecase/Games/Season/Rounds.antt =====
-- Whole games over the stores: round after round until the last week.
use supply_chain_game.Prelude.{
  ◌+◌, ◌<◌, ◌≡◌, ◌≢◌, inl, inr, refl, ap, List, [], ◌∷◌, All, String, arith, map, true, subst,
  length, sym, ◌∙◌,
}
use supply_chain_game.Word.{Time, IsWord, IsNonNeg, add_int-small}
use supply_chain_game.Result.{ok, err, week_decisions_not_found}
use supply_chain_game.Domain.Role.{Role}
use supply_chain_game.Domain.RoleMap.{RoleMap, lookup}
use supply_chain_game.Domain.Room.{Room, role_of_player}
use supply_chain_game.Domain.Session.{GameSession, WeekState, advance_week, is_active}
use supply_chain_game.Domain.Session.Invariant.{IsValid, IsWithin, Limits, AreDecided}
use supply_chain_game.Domain.Session.Game.{IsReady, advance_week_succeeds}
use supply_chain_game.Domain.Session.Bounds.{scale_mono}
use supply_chain_game.Domain.Session.Play.{Moves, play_weeks, play_weeks-cons, IsOver, ended-IsOver}
use supply_chain_game.Usecase.Decisions.{WeeklyDecisions}
use supply_chain_game.Usecase.Decisions.Filled.{empty-IsCounted, filled-four}
use supply_chain_game.Usecase.Ports.{Ports, World}
use supply_chain_game.Usecase.Contracts.{AreReliable}
use supply_chain_game.Usecase.Games.{current_playable_week, or_no_decisions, no_decisions}
use supply_chain_game.Usecase.Games.Weeks.{AtWeek, Leaves, advance_game_week_lem}
use supply_chain_game.Usecase.Games.Season.{
  Round, gathered, IsRound, InPlay, play_round, play_season,
}
use supply_chain_game.Usecase.Games.Season.Submissions.{
  AreGathered, gathered-AreGathered, Collects, Submitted, submit_all-Submitted,
}

-- The limits leave room for one order.
cap-IsNonNeg : (l : Limits) (s : GameSession) → IsValid s → IsWithin l s → IsNonNeg l.cap
cap-IsNonNeg l s v w =
    omega (arith, v.weeks, w.goods_room, scale_mono 1 s.max_weeks l.cap (omega (arith, v.weeks)))

-- An active session is played in the week after the current one.
playable-active :
    (s : GameSession)
    → IsValid s
    → s.current_week < s.max_weeks
    → current_playable_week s ≡ s.current_week + 1
unfolding current_playable_week
playable-active s v h =
    rw (v.running h, add_int-small s.current_week 1 (omega (arith, v.weeks))) refl

empty-AreGathered : (l : Limits) → AreGathered l []
unfolding lookup
empty-AreGathered l = record { counted = empty-IsCounted; capped = λ role order found. cc }

IsRound-AreDecided :
    (l : Limits) (round : Round) → IsRound l round → AreDecided l (gathered round [])
IsRound-AreDecided l round r = record {
  decided = λ role known.
      let (order, found) = r.complete role known in
      (
        order,
        found,
        (gathered-AreGathered l round [] r.each (empty-AreGathered l)).capped role order found,
      );
}

length-gathered : (l : Limits) (round : Round) → IsRound l round → length (gathered round []) ≡ 4
length-gathered l round r =
    filled-four (gathered round [])
      (gathered-AreGathered l round [] r.each (empty-AreGathered l)).counted r.complete

no_orders_yet :
    {R S D F : Type 0} (ports : Ports R S D F) (room_id : String) (w : World R S D F) (room : Room)
    (session : GameSession)
    → AtWeek ports room_id w room session
    → ports.decision_store.get_by_room_and_week room_id (current_playable_week session) w.decisions
      ≡ err week_decisions_not_found
    → Collects ports room_id room session w (no_decisions room_id (current_playable_week session) 0)
unfolding or_no_decisions
no_orders_yet ports room_id w room session at missing = record {
  at = at;
  so_far = rw missing refl;
  none_or_stored = inl refl;
  keyed_room = refl;
  keyed_week = refl;
}

-- A round that is played leads to the next week of as many.
advance_week-next :
    (l : Limits) (s : GameSession) (decisions : RoleMap) (now : Time)
    → IsReady l s decisions
    → (w : WeekState) (s' : GameSession) → advance_week s decisions now ≡ ok (w, s')
    → (s'.current_week ≡ s.current_week + 1) × (s'.max_weeks ≡ s.max_weeks)
advance_week-next l s decisions now ready w s' e =
    let (w2, s2, e2, valid, within, next, weeks, history) =
      advance_week_succeeds l s decisions now ready in
    let same : s2 ≡ s' = cc in (rw (← same) next, rw (← same) weeks)

-- A player's role is read off the players alone.
role_of_player-players :
    (r r' : Room) (player_id : String)
    → r.players ≡ r'.players
    → role_of_player r player_id ≡ role_of_player r' player_id
unfolding role_of_player
role_of_player-players r r' player_id e = rw e refl

-- With an order in it, what has been gathered is in the store.
collected-stored :
    {R S D F : Type 0} {ports : Ports R S D F} {room_id : String} {room : Room}
    {session : GameSession} (w : World R S D F) (after : WeeklyDecisions)
    → Collects ports room_id room session w after
    → length after.orders ≡ 4
    → ports.decision_store.get_by_room_and_week room_id (current_playable_week session) w.decisions
      ≡ ok after
collected-stored w after c four = elim c.none_or_stored [
  | inl nothing ↦ absurd (omega (arith, four, ap length nothing))
  | inr stored ↦ stored
]

module _ {R S D F : Type 0} (ports : Ports R S D F) (reliable : AreReliable ports)
    (room_id : String) (seats : Role → String) where
  -- What a round does.
  pub record RoundPlayed (l : Limits) (w w' : World R S D F) (session : GameSession) (round : Round)
      : Type 0 where
    pub time : Time
    pub week : WeekState
    pub session' : GameSession
    pub answers : play_round ports room_id seats round w ≡ (ok tt, w')
    pub plays : advance_week session (gathered round []) time ≡ ok (week, session')
    pub next : session'.current_week ≡ session.current_week + 1
    pub weeks : session'.max_weeks ≡ session.max_weeks
    pub in_play : InPlay ports room_id seats l w' session'

  -- What a week leaves is in play again.
  Leaves-InPlay :
      (l : Limits) (w mid w' : World R S D F) (session session' : GameSession)
      (after : WeeklyDecisions) (p : InPlay ports room_id seats l w session)
      (s : Submitted ports room_id p.room session w mid after)
      → Leaves ports reliable room_id mid p.room session s.collects.at after w' session'
      → current_playable_week session ≡ session.current_week + 1
      → session'.current_week ≡ session.current_week + 1
      → IsValid session'
      → IsWithin l session'
      → InPlay ports room_id seats l w' session'
  Leaves-InPlay l w mid w' session session' after p s leaves playable next valid within = record {
    room = leaves.room';
    at = record {
      in_store = leaves.room_saved;
      of_room = leaves.session_saved;
      room_key = leaves.room_key;
      session_key = leaves.session_key;
    };
    seated = λ role known.
        role_of_player-players leaves.room' p.room (seats role) leaves.players
        ∙ p.seated role known;
    agrees = leaves.status;
    valid = valid;
    within = within;
    quiet = λ week word later.
        let other : current_playable_week session ≢ week = λ same. omega arith in
        leaves.others_left week (omega arith) word other
        ∙ s.later week word other
        ∙ p.quiet week word (omega arith);
  }

  module _ (l : Limits) (session : GameSession) (round : Round) (r : IsRound l round)
      (running : session.current_week < session.max_weeks) (w : World R S D F)
      (p : InPlay ports room_id seats l w session) where
    play-RoundPlayed : (w' : World R S D F) × RoundPlayed l w w' session round
    unfolding play_round
    play-RoundPlayed =
        let playable = playable-active session p.valid running in
        let word : IsWord (current_playable_week session) =
          omega (arith, playable, p.valid.weeks) in
        let missing = p.quiet (current_playable_week session) word (omega (arith, playable)) in
        let is_running : is_active session.status ≡ true = rw (p.valid.running running) refl in
        let (after, mid, submitted, orders, s) =
          submit_all-Submitted ports room_id p.room session reliable is_running word seats p.seated
            l round w (no_decisions room_id (current_playable_week session) 0)
            (cap-IsNonNeg l session p.valid p.within) r.each
            (no_orders_yet ports room_id w p.room session p.at missing) in
        let four : length after.orders ≡ 4 = rw orders (length-gathered l round r) in
        let stored = collected-stored mid after s.collects four in
        let ready : IsReady l session after.orders = record {
          valid = p.valid;
          within = p.within;
          decided = subst (AreDecided l) (sym orders) (IsRound-AreDecided l round r);
          running = running;
        } in
        let (week, session', w', plays, answers, valid, within, leaves) =
          advance_game_week_lem ports reliable room_id mid p.room session s.collects.at after l
            ready stored four in
        let (next, weeks) = advance_week-next l session after.orders _ ready week session' plays in
        (
          w',
          record {
            time = ports.surroundings.time_at mid.times_read;
            week = week;
            session' = session';
            answers = rw (submitted, answers) refl;
            plays = rw (← orders) plays;
            next = next;
            weeks = weeks;
            in_play =
                Leaves-InPlay l w mid w' session session' after p s leaves playable next valid
                  within;
          },
        )

  -- Round after round, with a decision of each role within the cap in each, no call fails, until the
  -- session that the stores hold is over. It is the session to which `AdvanceWeek` of the domain
  -- leads, with the last order of each role in each week.
  pub play_season-IsOver :
      (l : Limits) (rounds : List Round) (w : World R S D F) (session : GameSession)
      → InPlay ports room_id seats l w session
      → All (IsRound l) rounds
      → session.current_week + length rounds ≡ session.max_weeks
      → (w' : World R S D F) × (end : GameSession) × (moves : Moves) × (play_season ports room_id
            seats rounds w
          ≡ (ok tt, w'))
        × InPlay ports room_id seats l w' end
        × IsOver l end
        × (end.max_weeks ≡ session.max_weeks)
        × (map (λ move. move.0) moves ≡ map (λ round. gathered round []) rounds)
        × (play_weeks moves session ≡ ok end)
  unfolding play_season play_weeks
  play_season-IsOver l [] w session p each h = (
    w,
    session,
    [],
    refl,
    p,
    ended-IsOver l session p.valid p.within (omega arith),
    refl,
    refl,
    refl,
  )
  play_season-IsOver l (round ∷ rest) w session p (here, each) h =
      let (mid, done) = play-RoundPlayed l session round here (omega arith) w p in
      let (w', end, moves, answers, in_play, over, weeks, same, played) =
        play_season-IsOver l rest mid done.session' done.in_play each
          (omega (arith, done.next, done.weeks)) in
      (
        w',
        end,
        (gathered round [], done.time) ∷ moves,
        rw (done.answers) answers,
        in_play,
        over,
        weeks ∙ done.weeks,
        ap (λ later. gathered round [] ∷ later) same,
        play_weeks-cons (gathered round []) done.time moves session done.session' end done.week
            done.plays played,
      )
