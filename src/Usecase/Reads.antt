-- ===== src/Usecase/Reads.antt =====
-- Calls that only read, with or without a result that may fail: the world after them is the world before.
use supply_chain_game.Prelude.{◌≡◌, refl, ◌∙◌, Bool, true, false, String, if◌then◌else◌}
use supply_chain_game.Result.{Result, ok, err, panic}
use supply_chain_game.Domain.Room.{Room, Player, is_waiting}
use supply_chain_game.Usecase.Ports.{
  Ports, Action, continue, ◌>>=◌, lift, room_by_id, session_by_room,
}
use supply_chain_game.Usecase.Rooms.{get_room}
use supply_chain_game.Usecase.Games.{
  get_pending_decisions, get_session_by_room, get_weeks, get_analytics, export_session,
}
use supply_chain_game.Usecase.Games.PlayerStates.{
  find_player, get_player_state, found_player_state, playing_state,
}

abbrev pub ReadsOnly {ℓ} : {W : Type 0} {B : Type ℓ} → (W → B × W) → Type 0
ReadsOnly m = (w : _) → (m w).1 ≡ w

continue-reads {ℓ κ} :
    {W : Type 0} {A : Type ℓ} {B : Type κ} (p : Result A × W) (f : A → Action W B)
    → ((a : A) → ReadsOnly (f a))
    → (continue p f).1 ≡ p.1
continue-reads (ok a, w) f reads = reads a w
continue-reads (err e, w) f reads = refl
continue-reads (panic, w) f reads = refl

pub >>=-ReadsOnly {ℓ κ} :
    {W : Type 0} {A : Type ℓ} {B : Type κ} (m : Action W A) (f : A → Action W B)
    → ReadsOnly m
    → ((a : A) → ReadsOnly (f a))
    → ReadsOnly (m >>= f)
>>=-ReadsOnly m f first then_reads w = continue-reads (m w) f then_reads ∙ first w

pub if-ReadsOnly {ℓ} :
    {W : Type 0} {A : Type ℓ} (c : Bool) (m n : W → A × W)
    → ReadsOnly m
    → ReadsOnly n
    → ReadsOnly (if c then m else n)
if-ReadsOnly true m n h k = h
if-ReadsOnly false m n h k = k

module _ {R S D F : Type 0} (ports : Ports R S D F) where
  pub get_room-ReadsOnly : (room_id : String) → ReadsOnly (get_room ports room_id)
  unfolding get_room
  get_room-ReadsOnly room_id w = refl

  pub get_session_by_room-ReadsOnly :
      (room_id : String) → ReadsOnly (get_session_by_room ports room_id)
  unfolding get_session_by_room
  get_session_by_room-ReadsOnly room_id w = refl

  pub get_weeks-ReadsOnly : (room_id : String) → ReadsOnly (get_weeks ports room_id)
  unfolding get_weeks
  get_weeks-ReadsOnly room_id =
      >>=-ReadsOnly (session_by_room ports room_id) _ (λ w. refl) (λ session w. refl)

  pub get_analytics-ReadsOnly : (room_id : String) → ReadsOnly (get_analytics ports room_id)
  unfolding get_analytics
  get_analytics-ReadsOnly room_id =
      >>=-ReadsOnly (session_by_room ports room_id) _ (λ w. refl) (λ session w. refl)

  pub export_session-ReadsOnly : (room_id : String) → ReadsOnly (export_session ports room_id)
  unfolding export_session
  export_session-ReadsOnly room_id =
      >>=-ReadsOnly (session_by_room ports room_id) _ (λ w. refl) (λ session w. refl)

  pub get_pending_decisions-ReadsOnly :
      (room_id : String) → ReadsOnly (get_pending_decisions ports room_id)
  unfolding get_pending_decisions
  get_pending_decisions-ReadsOnly room_id =
      >>=-ReadsOnly (session_by_room ports room_id) _ (λ w. refl) (λ session w. refl)

  found_player_state-ReadsOnly :
      (room : Room) (room_id : String) (player : Player)
      → ReadsOnly (found_player_state ports room room_id player)
  unfolding found_player_state
  found_player_state-ReadsOnly room room_id player =
      if-ReadsOnly (is_waiting room.status) _ _ (λ w. refl)
        (>>=-ReadsOnly (session_by_room ports room_id) _ (λ w. refl)
          (λ session.
            >>=-ReadsOnly (get_pending_decisions ports room_id)
              (λ decisions. lift (ok (playing_state ports room player session decisions)))
              (get_pending_decisions-ReadsOnly room_id) (λ decisions w. refl)))

  pub get_player_state-ReadsOnly :
      (room_id player_id : String) → ReadsOnly (get_player_state ports room_id player_id)
  unfolding get_player_state
  get_player_state-ReadsOnly room_id player_id =
      >>=-ReadsOnly (room_by_id ports room_id) _ (λ w. refl)
        (λ room.
          >>=-ReadsOnly (lift (find_player player_id room.players))
            (λ player. found_player_state ports room room_id player) (λ w. refl)
            (λ player. found_player_state-ReadsOnly room room_id player))
