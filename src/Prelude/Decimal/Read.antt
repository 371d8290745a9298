-- ===== src/Prelude/Decimal/Read.antt =====
-- A number is read back from its digits, so two numbers with the same digits are equal.
use Prim.Native.Char.{Char, code}
use Prim.Native.Nat.{ℕ, zero, suc, ◌+◌, ◌-◌, ◌*◌, ◌/◌, ◌%◌, ◌^◌, ◌<◌}
use Prim.Native.String.{String}
use mathlib.Core.Path.{◌≡◌, refl, sym, ap, ◌∙◌}
use mathlib.Core.Bool.{Bool, true, ◌&&◌}
use mathlib.Core.Logic.{inl, inr}
use native.Mathlib.Nat.{pow-suc}
use native.Mathlib.Omega.{arith}
use supply_chain_game.Prelude.Tests.{ltb, leb, Bool-cases}
use supply_chain_game.Prelude.Decimal.{digit, digits_loop, itoa}

abbrev pub is_digit : Char → Bool
is_digit c = leb 48 (code c) && leb (code c) 57

abbrev pub AreDigits : String → Type 0
AreDigits String.[] = Unit
AreDigits (String.◌∷◌ c s) = (is_digit c ≡ true) × AreDigits s

-- The number that digits stand for, after those that stand for `acc`.
abbrev read_digits : ℕ → String → ℕ
read_digits acc String.[] = acc
read_digits acc (String.◌∷◌ c s) = read_digits (acc * 10 + (code c - 48)) s

-- A digit is a character from `0` on.
abbrev IsDigitOf : ℕ → Type 0
IsDigitOf d = (is_digit (digit d) ≡ true) × (code (digit d) - 48 ≡ d)

digit-IsDigitOf : (d : ℕ) → d < 10 → IsDigitOf d
unfolding digit
digit-IsDigitOf zero h = (refl, refl)
digit-IsDigitOf (suc zero) h = (refl, refl)
digit-IsDigitOf (suc (suc zero)) h = (refl, refl)
digit-IsDigitOf (suc (suc (suc zero))) h = (refl, refl)
digit-IsDigitOf (suc (suc (suc (suc zero)))) h = (refl, refl)
digit-IsDigitOf (suc (suc (suc (suc (suc zero))))) h = (refl, refl)
digit-IsDigitOf (suc (suc (suc (suc (suc (suc zero)))))) h = (refl, refl)
digit-IsDigitOf (suc (suc (suc (suc (suc (suc (suc zero))))))) h = (refl, refl)
digit-IsDigitOf (suc (suc (suc (suc (suc (suc (suc (suc zero)))))))) h = (refl, refl)
digit-IsDigitOf (suc (suc (suc (suc (suc (suc (suc (suc (suc zero))))))))) h = (refl, refl)
digit-IsDigitOf (suc (suc (suc (suc (suc (suc (suc (suc (suc (suc d)))))))))) h =
    absurd (omega (arith, h))

digits_loop-AreDigits :
    (fuel n : ℕ) (rest : String) → AreDigits rest → AreDigits (digits_loop fuel n rest)
unfolding digits_loop
digits_loop-AreDigits zero n rest h = h
digits_loop-AreDigits (suc fuel) n rest h = elim (Bool-cases (ltb n 10)) [
  | inl small ↦ rw small ((digit-IsDigitOf n (ground (arith, small))).0, h)
  | inr large ↦ rw large (
      digits_loop-AreDigits fuel (n / 10) (String.◌∷◌ (digit (n % 10)) rest)
        ((digit-IsDigitOf (n % 10) (omega arith)).0, h))
]

below_tenth : (fuel n : ℕ) → n < 10 ^ suc fuel → n / 10 < 10 ^ fuel
below_tenth fuel n h = let most : n < 10 ^ fuel * 10 = rw pow-suc at h in omega (arith, most)

append_digit : (acc : ℕ) {k d : ℕ} → k ≡ d → acc * 10 + k ≡ acc * 10 + d
append_digit acc e = ap (λ k. acc * 10 + k) e

read-digits_loop :
    (fuel n : ℕ) (rest : String)
    → n < 10 ^ fuel
    → read_digits 0 (digits_loop fuel n rest) ≡ read_digits n rest
unfolding digits_loop
read-digits_loop zero n rest h = ap (λ k. read_digits k rest) (omega arith)
read-digits_loop (suc fuel) n rest h = elim (Bool-cases (ltb n 10)) [
  | inl small ↦ rw small (
      ap (λ k. read_digits k rest)
        (append_digit 0 (digit-IsDigitOf n (ground (arith, small))).1 ∙ omega arith))
  | inr large ↦ rw large (
      read-digits_loop fuel (n / 10) (String.◌∷◌ (digit (n % 10)) rest) (below_tenth fuel n h)
      ∙ ap (λ k. read_digits k rest)
          (append_digit (n / 10) (digit-IsDigitOf (n % 10) (omega arith)).1 ∙ omega arith))
]

pub itoa-AreDigits : (n : ℕ) → AreDigits (itoa n)
unfolding itoa
itoa-AreDigits n = digits_loop-AreDigits 20 n "" tt

-- Different words have different digits.
pub itoa_inj : (m n : ℕ) → m < 2 ^ 64 → n < 2 ^ 64 → itoa m ≡ itoa n → m ≡ n
unfolding itoa
itoa_inj m n h k e =
    sym (read-digits_loop 20 m "" (omega arith))
    ∙ ap (read_digits 0) e
    ∙ read-digits_loop 20 n "" (omega arith)
