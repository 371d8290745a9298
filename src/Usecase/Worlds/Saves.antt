-- ===== src/Usecase/Worlds/Saves.antt =====
-- What a write to the stores keeps of a sound world.
use text.Mathlib.Text.{◌==◌ as str_eq}
use supply_chain_game.Prelude.{
  ℕ, suc, ◌≡◌, ◌≢◌, inl, inr, sym, ap, ◌∙◌, subst, List, [], ◌∷◌, All, String, arith, Bool-cases,
  false, ltb, ◌⊎◌,
}
use supply_chain_game.Prelude.Texts.{equal_of, not_equal, different_of}
use supply_chain_game.Result.{Result, ok}
use supply_chain_game.Domain.Room.{Room, Player, waiting, active, finished}
use supply_chain_game.Domain.Room.Invariant.{ids}
use supply_chain_game.Domain.Session.{GameSession}
use supply_chain_game.Domain.Session.Invariant.{IsValid}
use supply_chain_game.Usecase.Ports.{Ports, Surroundings, World}
use supply_chain_game.Usecase.Contracts.{AreReliable}
use supply_chain_game.Usecase.Worlds.{IsIssued, AreFresh, Agree, RoomHolds, Sound, IsSound}

-- One answer is one value.
pub same_answer : {A : Type 0} {a b : A} (r : Result A) → r ≡ ok a → r ≡ ok b → a ≡ b
same_answer r e h = cc

pub IsIssued-suc :
    (u : Surroundings) (n : ℕ) (id : String) → IsIssued u n id → IsIssued u (suc n) id
IsIssued-suc u n id (k, less, made) = (k, omega arith, made)

pub AllIssued-suc :
    (u : Surroundings) (n : ℕ) (xs : List String)
    → All (IsIssued u n) xs
    → All (IsIssued u (suc n)) xs
AllIssued-suc u n [] h = tt
AllIssued-suc u n (x ∷ xs) h = (IsIssued-suc u n x h.0, AllIssued-suc u n xs h.1)

-- The identifier that comes next is none of those before.
pub IsIssued-fresh :
    (u : Surroundings) (n : ℕ) (id old : String)
    → AreFresh u
    → u.id_at n ≡ ok id
    → IsIssued u n old
    → old ≢ id
IsIssued-fresh u n id old fresh named (k, less, made) same =
    let e : k ≡ n = fresh k n id (made ∙ ap ok same) named in absurd (omega arith)

-- A session that has begun is not waiting.
pub session-not_waiting : (s : GameSession) → IsValid s → s.status ≢ waiting
session-not_waiting s v e = elim (Bool-cases (ltb s.current_week s.max_weeks)) [
  | inl early ↦ let a : s.status ≡ active = v.running (ground arith) in cc
  | inr late ↦ let b : s.status ≡ finished = v.ended (ground (arith, v.in_time)) in cc
]

module _ {R S D F : Type 0} (ports : Ports R S D F) (reliable : AreReliable ports) where
  pub RoomHolds-suc :
      (n : ℕ) (id : String) (room : Room)
      → RoomHolds ports n id room
      → RoomHolds ports (suc n) id room
  RoomHolds-suc n id room h = record {
    valid = h.valid;
    key = h.key;
    weeks = h.weeks;
    issued = IsIssued-suc ports.surroundings n id h.issued;
    players = AllIssued-suc ports.surroundings n (ids room.players) h.players;
  }

  -- Another identifier is made.
  pub Sound-suc :
      (r : R) (s : S) (n : ℕ) → Sound ports reliable r s n → Sound ports reliable r s (suc n)
  Sound-suc r s n sound = record {
    each_room = λ id room e. RoomHolds-suc n id room (sound.each_room id room e);
    each_session = λ room_id session_id e.
        let h = sound.each_session room_id session_id e in
        record {
          session = h.session;
          stored = h.stored;
          key = h.key;
          room_key = h.room_key;
          issued = IsIssued-suc ports.surroundings n session_id h.issued;
          valid = h.valid;
          room = h.room;
          room_stored = h.room_stored;
          agrees = h.agrees;
        };
  }

  -- A room that waits has no session.
  pub waiting-no_session :
      (r : R) (s : S) (n : ℕ) (id session_id : String) (room : Room)
      → Sound ports reliable r s n
      → ports.room_store.get_by_id id r ≡ ok room
      → room.status ≡ waiting
      → reliable.sessions.id_of_room id s ≢ ok session_id
  waiting-no_session r s n id session_id room sound stored waits e =
      let h = sound.each_session id session_id e in
      let same : h.room ≡ room = same_answer _ h.room_stored stored in
      session-not_waiting h.session h.valid (sym h.agrees.status ∙ ap (λ x. x.status) same ∙ waits)

  saved_or_other :
      (r : R) (room found : Room) (id : String)
      → ports.room_store.get_by_id id (ports.room_store.save room r).1 ≡ ok found
      → ((room.id ≡ id) × (room ≡ found))
        ⊎ ((str_eq room.id id ≡ false) × (ports.room_store.get_by_id id r ≡ ok found))
  saved_or_other r room found id e = elim (Bool-cases (str_eq room.id id)) [
    | inl same ↦ inl (
      equal_of same,
      same_answer _
          (subst
            (λ (key : String).
              ports.room_store.get_by_id key (ports.room_store.save room r).1 ≡ ok room)
            (equal_of same) (reliable.rooms.saved room r))
          e,
    )
    | inr other ↦ inr (other, sym (reliable.rooms.others room r id other) ∙ e)
  ]

  -- A room is saved that has no session.
  pub Sound-save_room :
      (r : R) (s : S) (n : ℕ) (room : Room)
      → Sound ports reliable r s n
      → RoomHolds ports n room.id room
      → ((session_id : String) → reliable.sessions.id_of_room room.id s ≢ ok session_id)
      → Sound ports reliable (ports.room_store.save room r).1 s n
  Sound-save_room r s n room sound holds alone = record {
    each_room = λ id found e. elim (saved_or_other r room found id e) [
      | inl (key, same) ↦
          subst (RoomHolds ports n id) same (subst (λ x. RoomHolds ports n x room) key holds)
      | inr (other, before) ↦ sound.each_room id found before
    ];
    each_session = λ room_id session_id e.
        let h = sound.each_session room_id session_id e in
        let other : str_eq room.id room_id ≡ false =
          not_equal (λ (same : room.id ≡ room_id). alone session_id (rw same e)) in
        record {
          session = h.session;
          stored = h.stored;
          key = h.key;
          room_key = h.room_key;
          issued = h.issued;
          valid = h.valid;
          room = h.room;
          room_stored = reliable.rooms.others room r room_id other ∙ h.room_stored;
          agrees = h.agrees;
        };
  }

  -- The players are written that a stored room is to have.
  pub Sound-write_players :
      (r : R) (s : S) (n : ℕ) (id : String) (room : Room) (players : List Player)
      → Sound ports reliable r s n
      → ports.room_store.get_by_id id r ≡ ok room
      → RoomHolds ports n id (record room { players = players })
      → Sound ports reliable (ports.room_store.write_players id players r) s n
  Sound-write_players r s n id room players sound stored holds = record {
    each_room = λ other found e. elim (reliable.rooms.shared id players r other) [
      | inl unchanged ↦ sound.each_room other found (sym unchanged ∙ e)
      | inr (seen, before, written, key) ↦
          let seen_room : room ≡ seen = same_answer _ stored (rw key before) in
          let now : record room { players = players } ≡ found =
            ap (λ (x : Room). record x { players = players }) seen_room ∙ same_answer _ written e in
          subst (RoomHolds ports n other) now
            (subst (λ x. RoomHolds ports n x (record room { players = players })) key holds)
    ];
    each_session = λ room_id session_id e.
        let h = sound.each_session room_id session_id e in
        elim (reliable.rooms.shared id players r room_id) [
          | inl unchanged ↦ record {
            session = h.session;
            stored = h.stored;
            key = h.key;
            room_key = h.room_key;
            issued = h.issued;
            valid = h.valid;
            room = h.room;
            room_stored = unchanged ∙ h.room_stored;
            agrees = h.agrees;
          }
          | inr (seen, before, written, key) ↦
              let same : h.room ≡ seen = same_answer _ h.room_stored before in
              let agrees : Agree seen h.session = subst (λ x. Agree x h.session) same h.agrees in
              record {
                session = h.session;
                stored = h.stored;
                key = h.key;
                room_key = h.room_key;
                issued = h.issued;
                valid = h.valid;
                room = record seen { players = players };
                room_stored = written;
                agrees = record {
                  status = agrees.status;
                  week = agrees.week;
                  weeks = agrees.weeks;
                };
              }
        ];
  }

  -- A room is saved with its session, whose identifier no other room has.
  pub Sound-save_both :
      (r : R) (s : S) (n : ℕ) (room : Room) (session : GameSession)
      → Sound ports reliable r s n
      → RoomHolds ports n room.id room
      → session.room_id ≡ room.id
      → IsValid session
      → IsIssued ports.surroundings n session.id
      → Agree room session
      → ((other session_id : String)
          → other ≢ room.id
          → reliable.sessions.id_of_room other s ≡ ok session_id
          → session_id ≢ session.id)
      → Sound ports reliable
          (ports.room_store.save room r).1
          (ports.session_store.save session s).1
          n
  Sound-save_both r s n room session sound holds key valid issued agrees own = record {
    each_room = λ id found e. elim (saved_or_other r room found id e) [
      | inl (same_key, same) ↦
          subst (RoomHolds ports n id) same (subst (λ x. RoomHolds ports n x room) same_key holds)
      | inr (other, before) ↦ sound.each_room id found before
    ];
    each_session = λ room_id session_id e. elim (Bool-cases (str_eq session.room_id room_id)) [
      | inl here ↦
          let here_key : session.room_id ≡ room_id = equal_of here in
          let id_key : session.id ≡ session_id =
            same_answer _
              (subst
                (λ (at : String).
                  reliable.sessions.id_of_room at (ports.session_store.save session s).1
                  ≡ ok session.id)
                here_key (reliable.sessions.indexed session s))
              e in
          record {
            session = session;
            stored = rw (← id_key) (reliable.sessions.saved session s);
            key = id_key;
            room_key = here_key;
            issued = subst (IsIssued ports.surroundings n) id_key issued;
            valid = valid;
            room = room;
            room_stored = rw (← here_key, key) (reliable.rooms.saved room r);
            agrees = agrees;
          }
      | inr elsewhere ↦
          let before = sym (reliable.sessions.indexed_others session s room_id elsewhere) ∙ e in
          let h = sound.each_session room_id session_id before in
          let apart : session.room_id ≢ room_id = different_of elsewhere in
          let other : str_eq room.id room_id ≡ false =
            not_equal (λ (same : room.id ≡ room_id). apart (key ∙ same)) in
          let other_id : str_eq session.id session_id ≡ false =
            not_equal (λ (same : session.id ≡ session_id).
              own room_id session_id (λ at. apart (key ∙ sym at)) before (sym same)) in
          record {
            session = h.session;
            stored = reliable.sessions.others session s session_id other_id ∙ h.stored;
            key = h.key;
            room_key = h.room_key;
            issued = h.issued;
            valid = h.valid;
            room = h.room;
            room_stored = reliable.rooms.others room r room_id other ∙ h.room_stored;
            agrees = h.agrees;
          }
    ];
  }

  pub in_world :
      {w : World R S D F}
      → Sound ports reliable w.rooms w.sessions w.ids_read
      → IsSound ports reliable w
  in_world sound = record { stores = sound }
