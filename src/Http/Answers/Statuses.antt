-- ===== src/Http/Answers/Statuses.antt =====
-- What the answer to an error may say.
use supply_chain_game.Prelude.{
  ◌≡◌, ◌⊎◌, refl, subst, ℕ, inl, inr, String, Option, none, some, Option-cases,
}
use supply_chain_game.Result.{
  Error, room_not_found, session_not_found, week_decisions_not_found, invalid_max_weeks,
  empty_player_name, player_already_in, player_not_found, invalid_role, negative_order,
  negative_decision, player_role_missing, room_full, cannot_join_started, role_already_taken,
  room_not_ready, game_already_started, week_not_ready, session_not_active, week_limit_reached,
}
use supply_chain_game.Http.Answers.{
  domain_status, error_text, write_domain_error, Writer, message, Response, write_error, write_json,
}

-- An answer by this status with this text.
abbrev Says : {F : Type 0} → Response F → ℕ → String → Type 0
Says response status text = (response.status ≡ status) × (response.payload ≡ message text)

-- The classes of errors that are told: what is not there, what is wrong, and what comes at a wrong
-- time.
abbrev IsToldAs : Option ℕ → Type 0
IsToldAs none = Unit
IsToldAs (some status) = (status ≡ 404) ⊎ (status ≡ 400) ⊎ (status ≡ 409)

domain_status-IsToldAs : (e : Error) → IsToldAs (domain_status e)
unfolding domain_status
domain_status-IsToldAs room_not_found = inl refl
domain_status-IsToldAs session_not_found = inl refl
domain_status-IsToldAs week_decisions_not_found = inl refl
domain_status-IsToldAs invalid_max_weeks = inr (inl refl)
domain_status-IsToldAs empty_player_name = inr (inl refl)
domain_status-IsToldAs player_already_in = inr (inl refl)
domain_status-IsToldAs player_not_found = inr (inl refl)
domain_status-IsToldAs invalid_role = inr (inl refl)
domain_status-IsToldAs negative_order = inr (inl refl)
domain_status-IsToldAs (negative_decision role) = inr (inl refl)
domain_status-IsToldAs player_role_missing = inr (inl refl)
domain_status-IsToldAs room_full = inr (inr refl)
domain_status-IsToldAs cannot_join_started = inr (inr refl)
domain_status-IsToldAs role_already_taken = inr (inr refl)
domain_status-IsToldAs room_not_ready = inr (inr refl)
domain_status-IsToldAs game_already_started = inr (inr refl)
domain_status-IsToldAs week_not_ready = inr (inr refl)
domain_status-IsToldAs session_not_active = inr (inr refl)
domain_status-IsToldAs week_limit_reached = inr (inr refl)
domain_status-IsToldAs _ = tt

abbrev Told : {F : Type 0} → Response F → String → Type 0
Told response text = Says response 404 text ⊎ Says response 400 text ⊎ Says response 409 text

told :
    {F : Type 0} (response : Response F) (status : ℕ) (text : String)
    → response.status ≡ status
    → response.payload ≡ message text
    → IsToldAs (some status)
    → Told response text
told response status text says carries (inl e) = inl (cc, carries)
told response status text says carries (inr (inl e)) = inr (inl (cc, carries))
told response status text says carries (inr (inr e)) = inr (inr (cc, carries))

-- An error is answered by its own text with the status 404, 400 or 409, or by "internal server
-- error" with the status 500, where nothing is told of what went wrong.
write_domain_error_lem :
    {F : Type 0} (w : Writer) (e : Error)
    → Told (write_domain_error {F = F} w e) (error_text e)
      ⊎ Says (write_domain_error {F = F} w e) 500 "internal server error"
unfolding write_domain_error write_error write_json
write_domain_error_lem w e = elim (Option-cases (domain_status e)) [
  | inl unknown ↦ inr (rw (write_domain_error, unknown) refl, rw (write_domain_error, unknown) refl)
  | inr (status, known) ↦ inl (
      told (write_domain_error w e) status (error_text e) (rw (write_domain_error, known) refl)
        (rw (write_domain_error, known) refl) (subst IsToldAs known (domain_status-IsToldAs e)))
]
