-- ===== src/Redis/Keys/Apart.antt =====
-- Different things have different keys.
use Prim.Native.Char.{code}
use Prim.Native.String.{◌++◌ as ◌<>◌}
use text.Mathlib.TextLemmas.{
  nil-append, cons-append, append_cancel_left, head-eq_of_cons-eq, tail-eq_of_cons-eq,
}
use supply_chain_game.Prelude.{
  ◌≡◌, ◌≢◌, refl, sym, ap, ◌∙◌, subst, String, true, false, Bool, Bool-cases, inl, inr, ◌==◌, ◌||◌,
  not, arith,
}
use supply_chain_game.Prelude.Decimal.Read.{AreDigits, itoa-AreDigits}
use supply_chain_game.Word.{GoInt, IsWord, lt_int}
use supply_chain_game.Word.Format.{format_int, format_int_inj, minus_sign}
use supply_chain_game.Redis.Keys.{decisions_key}

-- Two texts differ at a place that both have.
abbrev pub differ : String → String → Bool
differ String.[] q = false
differ (String.◌∷◌ c p) String.[] = false
differ (String.◌∷◌ c p) (String.◌∷◌ d q) = not (code c == code d) || differ p q

-- Two texts that begin differently.
pub differ-append : (p q s t : String) → differ p q ≡ true → p <> s ≢ q <> t
differ-append String.[] q s t h e = cc
differ-append (String.◌∷◌ c p) String.[] s t h e = cc
differ-append (String.◌∷◌ c p) (String.◌∷◌ d q) s t h e =
    let same : String.◌∷◌ c (p <> s) ≡ String.◌∷◌ d (q <> t) =
      sym (cons-append c p s) ∙ e ∙ cons-append d q t in
    let code_same : code c ≡ code d = ap code (head-eq_of_cons-eq same) in
    let equal : (code c == code d) ≡ true = ground (arith, code_same) in
    differ-append p q s t (rw equal at h) (tail-eq_of_cons-eq same)

-- A text without a colon.
abbrev HasNoColon : String → Type 0
HasNoColon String.[] = Unit
HasNoColon (String.◌∷◌ c s) = (code c ≢ b':') × HasNoColon s

AreDigits-HasNoColon : (s : String) → AreDigits s → HasNoColon s
AreDigits-HasNoColon String.[] h = tt
AreDigits-HasNoColon (String.◌∷◌ c s) (h, k) = (ground (arith, h), AreDigits-HasNoColon s k)

format_int-HasNoColon : (n : GoInt) → HasNoColon (format_int n)
unfolding format_int
format_int-HasNoColon n = elim (Bool-cases (lt_int n 0)) [
  | inl low ↦ rw (low, minus_sign _) (omega arith, AreDigits-HasNoColon _ (itoa-AreDigits _))
  | inr high ↦ rw high (AreDigits-HasNoColon _ (itoa-AreDigits _))
]

colon : (s : String) → ":" <> s ≡ String.◌∷◌ ":" s
colon s = cons-append ":" "" s ∙ ap (String.◌∷◌ ":") (nil-append s)

has_colon : (r n : String) → HasNoColon (r <> (":" <> n)) → ⊥
has_colon String.[] n h = (subst HasNoColon (nil-append _ ∙ colon n) h).0 refl
has_colon (String.◌∷◌ c r) n h = has_colon r n (subst HasNoColon (cons-append c r _) h).1

-- What stands before and after the last colon.
last_colon :
    (r r' n n' : String)
    → HasNoColon n
    → HasNoColon n'
    → r <> (":" <> n) ≡ r' <> (":" <> n')
    → (r ≡ r') × (n ≡ n')
last_colon String.[] String.[] n n' h h' e =
    (refl, append_cancel_left ":" n n' (sym (nil-append _) ∙ e ∙ nil-append _))
last_colon String.[] (String.◌∷◌ c r) n n' h h' e = absurd (
    has_colon r n' (
      subst HasNoColon (tail-eq_of_cons-eq (sym (nil-append _ ∙ colon n) ∙ e ∙ cons-append c r _))
        h))
last_colon (String.◌∷◌ c r) String.[] n n' h h' e = absurd (
    has_colon r n (
      subst HasNoColon
        (tail-eq_of_cons-eq (sym (nil-append _ ∙ colon n') ∙ sym e ∙ cons-append c r _)) h'))
last_colon (String.◌∷◌ c r) (String.◌∷◌ d r') n n' h h' e =
    let same : String.◌∷◌ c (r <> (":" <> n)) ≡ String.◌∷◌ d (r' <> (":" <> n')) =
      sym (cons-append c r _) ∙ e ∙ cons-append d r' _ in
    let (rooms, weeks) = last_colon r r' n n' h h' (tail-eq_of_cons-eq same) in
    (ap (λ k. String.◌∷◌ k r) (head-eq_of_cons-eq same) ∙ ap (String.◌∷◌ d) rooms, weeks)

-- The key of the orders of a week, a number of an int, tells the room and the week, though a room may
-- have colons.
pub decisions_key_inj :
    (room_id other : String) (week other_week : GoInt)
    → IsWord week
    → IsWord other_week
    → decisions_key room_id week ≡ decisions_key other other_week
    → (room_id ≡ other) × (week ≡ other_week)
unfolding decisions_key
decisions_key_inj room_id other week other_week h h' e =
    let (rooms, weeks) =
      last_colon room_id other (format_int week) (format_int other_week)
        (format_int-HasNoColon week) (format_int-HasNoColon other_week)
        (append_cancel_left "decisions:" _ _ e) in
    (rooms, format_int_inj week other_week h h' weeks)
