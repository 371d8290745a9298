-- ===== src/System/Hex.antt =====
-- Identifiers: which bytes they come from, and that they stand in a path.
use Prim.Native.Char.{Char, code}
use Prim.Native.String.{◌++◌ as ◌<>◌}
use text.Mathlib.TextLemmas.{head-eq_of_cons-eq, tail-eq_of_cons-eq, cons≢nil}
use supply_chain_game.Prelude.{
  ℕ, zero, suc, ◌-◌, ◌/◌, ◌%◌, ◌<◌, ◌≡◌, ◌≢◌, refl, sym, ap, ◌∙◌, All, List, [], ◌∷◌, some, String,
  false, if◌then◌else◌, ltb, arith, subst,
}
use supply_chain_game.Result.{ok}
use supply_chain_game.Http.Paths.{is_slash, parse_room_path}
use supply_chain_game.Http.Paths.RoundTrip.{HasNoSlash, parse_room_path-action}
use supply_chain_game.System.{hex_digit, encode_to_string, new_id}

-- The number that a hexadecimal digit stands for.
abbrev digit_value : Char → ℕ
digit_value c = if ltb (code c) 58 then code c - 48 else code c - 87

abbrev IsHexDigitOf : ℕ → Type 0
IsHexDigitOf d = (is_slash (hex_digit d) ≡ false) × (digit_value (hex_digit d) ≡ d)

hex_digit-IsHexDigitOf : (d : ℕ) → d < 16 → IsHexDigitOf d
unfolding hex_digit
hex_digit-IsHexDigitOf zero h = (refl, refl)
hex_digit-IsHexDigitOf (suc zero) h = (refl, refl)
hex_digit-IsHexDigitOf (suc (suc zero)) h = (refl, refl)
hex_digit-IsHexDigitOf (suc (suc (suc zero))) h = (refl, refl)
hex_digit-IsHexDigitOf (suc (suc (suc (suc zero)))) h = (refl, refl)
hex_digit-IsHexDigitOf (suc (suc (suc (suc (suc zero))))) h = (refl, refl)
hex_digit-IsHexDigitOf (suc (suc (suc (suc (suc (suc zero)))))) h = (refl, refl)
hex_digit-IsHexDigitOf (suc (suc (suc (suc (suc (suc (suc zero))))))) h = (refl, refl)
hex_digit-IsHexDigitOf (suc (suc (suc (suc (suc (suc (suc (suc zero)))))))) h = (refl, refl)
hex_digit-IsHexDigitOf (suc (suc (suc (suc (suc (suc (suc (suc (suc zero))))))))) h = (refl, refl)
hex_digit-IsHexDigitOf (suc (suc (suc (suc (suc (suc (suc (suc (suc (suc zero)))))))))) h =
    (refl, refl)
hex_digit-IsHexDigitOf (suc (suc (suc (suc (suc (suc (suc (suc (suc (suc (suc zero))))))))))) h =
    (refl, refl)
hex_digit-IsHexDigitOf (suc (suc (suc (suc (suc (suc (suc (suc (suc (suc (suc (suc zero))))))))))))
      h =
    (refl, refl)
hex_digit-IsHexDigitOf
      (suc (suc (suc (suc (suc (suc (suc (suc (suc (suc (suc (suc (suc zero))))))))))))) h =
    (refl, refl)
hex_digit-IsHexDigitOf
      (suc (suc (suc (suc (suc (suc (suc (suc (suc (suc (suc (suc (suc (suc zero)))))))))))))) h =
    (refl, refl)
hex_digit-IsHexDigitOf
      (suc (suc (suc (suc (suc (suc (suc (suc (suc (suc (suc (suc (suc (suc (suc zero)))))))))))))))
      h =
    (refl, refl)
hex_digit-IsHexDigitOf
      (suc
        (suc (suc (suc (suc (suc (suc (suc (suc (suc (suc (suc (suc (suc (suc (suc d))))))))))))))))
      h =
    absurd (omega (arith, h))

abbrev pub IsByte : ℕ → Type 0
IsByte b = b < 256

encode_to_string-HasNoSlash : (buf : List ℕ) → All IsByte buf → HasNoSlash (encode_to_string buf)
unfolding encode_to_string
encode_to_string-HasNoSlash [] h = tt
encode_to_string-HasNoSlash (b ∷ rest) (byte, h) = (
  (hex_digit-IsHexDigitOf (b / 16) (omega (arith, byte))).0,
  ((hex_digit-IsHexDigitOf (b % 16) (omega arith)).0, encode_to_string-HasNoSlash rest h),
)

hex_digit_inj : (d e : ℕ) → d < 16 → e < 16 → hex_digit d ≡ hex_digit e → d ≡ e
hex_digit_inj d e h k same =
    sym (hex_digit-IsHexDigitOf d h).1 ∙ ap digit_value same ∙ (hex_digit-IsHexDigitOf e k).1

encode_to_string_inj :
    (buf other : List ℕ)
    → All IsByte buf
    → All IsByte other
    → encode_to_string buf ≡ encode_to_string other
    → buf ≡ other
unfolding encode_to_string
encode_to_string_inj [] [] h k e = refl
encode_to_string_inj [] (c ∷ other) h k e = absurd (cons≢nil (sym e))
encode_to_string_inj (b ∷ buf) [] h k e = absurd (cons≢nil e)
encode_to_string_inj (b ∷ buf) (c ∷ other) (byte, h) (byte', k) e =
    let high : b / 16 ≡ c / 16 =
      hex_digit_inj (b / 16) (c / 16) (omega (arith, byte)) (omega (arith, byte'))
        (head-eq_of_cons-eq e) in
    let low : b % 16 ≡ c % 16 =
      hex_digit_inj (b % 16) (c % 16) (omega arith) (omega arith)
        (head-eq_of_cons-eq (tail-eq_of_cons-eq e)) in
    let same : b ≡ c = omega (arith, high, low) in
    ap (λ k. k ∷ buf) same
    ∙ ap (λ l. c ∷ l)
        (encode_to_string_inj buf other h k (tail-eq_of_cons-eq (tail-eq_of_cons-eq e)))

-- Different bytes give different identifiers.
new_id_inj :
    (buf other : List ℕ)
    → All IsByte buf
    → All IsByte other
    → new_id (some buf) ≡ new_id (some other)
    → buf ≡ other
unfolding new_id
new_id_inj buf other h k e =
    let same : encode_to_string buf ≡ encode_to_string other = cc in
    encode_to_string_inj buf other h k same

-- An identifier that is made of bytes, for a room, is read back from the path of an action on that
-- room.
pub new_id-path :
    (buf : List ℕ) (room_id action : String)
    → All IsByte buf
    → new_id (some buf) ≡ ok room_id
    → HasNoSlash action
    → action ≢ ""
    → parse_room_path ("/rooms/" <> (room_id <> ("/" <> action))) ≡ (room_id, action)
unfolding new_id
new_id-path buf room_id action bytes made plain some_action =
    let id : encode_to_string buf ≡ room_id = cc in
    parse_room_path-action room_id action
      (subst HasNoSlash id (encode_to_string-HasNoSlash buf bytes)) plain some_action
