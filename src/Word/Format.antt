-- ===== src/Word/Format.antt =====
-- A `int` as the verb `%d` prints it.
use Prim.Native.String.{◌++◌ as ◌<>◌}
use text.Mathlib.TextLemmas.{nil-append, cons-append, append_cancel_left}
use supply_chain_game.Prelude.{
  ℕ, ◌-◌, ◌≤◌, ◌^◌, ◌≡◌, sym, ap, ◌∙◌, subst, String, true, if◌then◌else◌, arith, Bool-cases, inl,
  inr,
}
use supply_chain_game.Prelude.Decimal.{itoa}
use supply_chain_game.Prelude.Decimal.Read.{AreDigits, itoa-AreDigits, itoa_inj}
use supply_chain_game.Word.{GoInt, IsWord, lt_int}

unfoldable pub format_int : GoInt → String
format_int n = if lt_int n 0 then "-" <> itoa (2 ^ 64 - n) else itoa n

pub minus_sign : (s : String) → "-" <> s ≡ String.◌∷◌ "-" s
minus_sign s = cons-append "-" "" s ∙ ap (String.◌∷◌ "-") (nil-append s)

no_minus : (s : String) (n : ℕ) → "-" <> s ≡ itoa n → ⊥
no_minus s n e = cc ((subst AreDigits (sym e ∙ minus_sign s) (itoa-AreDigits n)).0)

negative_large : (n : GoInt) → IsWord n → lt_int n 0 ≡ true → 2 ^ 63 ≤ n
unfolding lt_int
negative_large n h negative = ground (arith, negative)

-- Different words are printed differently.
pub format_int_inj : (m n : GoInt) → IsWord m → IsWord n → format_int m ≡ format_int n → m ≡ n
unfolding format_int
format_int_inj m n h k e = elim (Bool-cases (lt_int m 0)) [
  | inl low ↦ elim (Bool-cases (lt_int n 0)) [
    | inl low' ↦
        let digits : itoa (2 ^ 64 - m) ≡ itoa (2 ^ 64 - n) =
          append_cancel_left "-" _ _ (rw (low, low') at e) in
        let far : 2 ^ 63 ≤ m = negative_large m h low in
        let far' : 2 ^ 63 ≤ n = negative_large n k low' in
        let same : 2 ^ 64 - m ≡ 2 ^ 64 - n =
          itoa_inj (2 ^ 64 - m) (2 ^ 64 - n) (omega (arith, far)) (omega (arith, far')) digits in
        omega (arith, h, k, same)
    | inr high' ↦ absurd (no_minus (itoa (2 ^ 64 - m)) n (rw (low, high') at e))
  ]
  | inr high ↦ elim (Bool-cases (lt_int n 0)) [
    | inl low' ↦ absurd (no_minus (itoa (2 ^ 64 - n)) m (sym (rw (high, low') at e)))
    | inr high' ↦ itoa_inj m n h k (rw (high, high') at e)
  ]
]
