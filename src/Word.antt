-- ===== src/Word.antt =====
-- Go's `int`: a 64-bit word in two's complement, as the bit pattern that stands for it. A pattern
-- below 2 ^ 63 is that number, any other pattern w below 2 ^ 64 is w - 2 ^ 64.
pub mod Format
use supply_chain_game.Prelude.{
  ℕ, ◌+◌, ◌-◌, ◌*◌, ◌%◌, ◌^◌, ◌≤◌, ◌<◌, ◌≡◌, Bool, true, false, arith, ltb, leb, if◌then◌else◌,
}

abbrev pub GoInt : Type 0
GoInt = ℕ

-- `time.Time`: an instant as nanoseconds since the epoch, which is what `UnixNano` returns.
abbrev pub Time : Type 0
Time = ℕ

-- The pattern is one of a word.
abbrev pub IsWord : GoInt → Type 0
IsWord a = a < 2 ^ 64

-- The word stands for a number of zero or more.
abbrev pub IsNonNeg : GoInt → Type 0
IsNonNeg a = a < 2 ^ 63

unfoldable pub add_int : GoInt → GoInt → GoInt
add_int a b = (a + b) % 2 ^ 64

unfoldable pub sub_int : GoInt → GoInt → GoInt
sub_int a b = (a + 2 ^ 64 - b) % 2 ^ 64

unfoldable pub mul_int : GoInt → GoInt → GoInt
mul_int a b = (a * b) % 2 ^ 64

-- `a < b` on signed words: the sign bit is flipped, and the patterns are compared.
unfoldable pub lt_int : GoInt → GoInt → Bool
lt_int a b = ltb ((a + 2 ^ 63) % 2 ^ 64) ((b + 2 ^ 63) % 2 ^ 64)

-- `a <= b`, and `b >= a`.
unfoldable pub le_int : GoInt → GoInt → Bool
le_int a b = leb ((a + 2 ^ 63) % 2 ^ 64) ((b + 2 ^ 63) % 2 ^ 64)

-- Below 2 ^ 63 the operations are those of the natural numbers.
pub add_int-small : (a b : GoInt) → a + b < 2 ^ 63 → add_int a b ≡ a + b
unfolding add_int
add_int-small a b h = omega arith

pub sub_int-small : (a b : GoInt) → b ≤ a → IsNonNeg a → sub_int a b ≡ a - b
unfolding sub_int
sub_int-small a b h k = omega arith

pub mul_int-small : (a b : GoInt) → a * b < 2 ^ 63 → mul_int a b ≡ a * b
unfolding mul_int
mul_int-small a b h = omega arith

pub lt_int-small : (a b : GoInt) → IsNonNeg a → IsNonNeg b → lt_int a b ≡ ltb a b
unfolding lt_int
lt_int-small a b h k = ground arith

pub le_int-small : (a b : GoInt) → IsNonNeg a → IsNonNeg b → le_int a b ≡ leb a b
unfolding le_int
le_int-small a b h k = ground arith

-- `a < 0` is the test of the sign bit.
pub lt_int-zero : (a : GoInt) → IsWord a → lt_int a 0 ≡ (if ltb a (2 ^ 63) then false else true)
unfolding lt_int
lt_int-zero a h = ground arith

-- `a <= 0` fails exactly on the positive words.
pub le_int-zero : (a : GoInt) → IsWord a → le_int a 0 ≡ (if ltb a (2 ^ 63) then leb a 0 else true)
unfolding le_int
le_int-zero a h = ground arith

pub add_int-IsWord : (a b : GoInt) → IsWord (add_int a b)
unfolding add_int
add_int-IsWord a b = omega arith

pub sub_int-IsWord : (a b : GoInt) → IsWord (sub_int a b)
unfolding sub_int
sub_int-IsWord a b = omega arith

pub mul_int-IsWord : (a b : GoInt) → IsWord (mul_int a b)
unfolding mul_int
mul_int-IsWord a b = omega arith
