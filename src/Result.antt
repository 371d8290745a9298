-- ===== src/Result.antt =====
-- What a call of the program ends in: a value, one of the errors of the domain and use case
-- packages, or a run-time panic.
use Prim.Native.String.{String}
use supply_chain_game.Prelude.{
  ◌≡◌, ◌⊎◌, inl, inr, refl, Bool, true, false, Option, none, some, List, get_elem?, set, length,
  ltb, if◌then◌else◌,
}
use supply_chain_game.Word.{GoInt}
use supply_chain_game.Domain.Role.{Role}

-- The sentinel errors, and a constructor for each error that `fmt.Errorf` builds. `store_failed`
-- and `id_failed` stand for the errors of a storage client and of the random source.
pub data Error : Type 0 where
  invalid_max_weeks empty_player_name room_full room_not_found player_already_in : Error
  cannot_join_started player_not_found invalid_role role_already_taken room_not_ready : Error
  game_already_started player_role_missing : Error
  scenario_demand_empty invalid_delay negative_value session_not_active session_not_found : Error
  week_limit_reached week_not_ready week_decisions_not_found : Error
  negative_order : Error
  missing_decision negative_decision : Role → Error
  demand_max_below_min demand_change_period_not_positive goods_pipeline_length : Error
  order_pipeline_length production_pipeline_length : Error
  unsupported_demand_mode : String → Error
  store_failed id_failed : Error

pub data Result {ℓ} (A : Type ℓ) : Type ℓ where
  panic : Result A
  err : Error → Result A
  ok : A → Result A

-- What comes after an error or a panic is not run.
abbrev pub ◌>>=◌ {ℓ κ} :
    {A : Type ℓ} {B : Type κ} (done : Result A) (next : A → Result B) → Result B
panic >>= next = panic
err why >>= next = err why
ok value >>= next = next value

-- A check, and what comes after it.
abbrev pub ◌>>◌ {κ} : {B : Type κ} (check : Result (Unit {0})) (next : Result B) → Result B
check >> next = check >>= λ passed. next

infixl 5 ◌>>=◌ ◌>>◌
-- `if c { return e }`
abbrev pub reject_if : Bool → Error → Result (Unit {0})
reject_if true e = err e
reject_if false e = ok tt

abbrev pub or_panic {ℓ} : {A : Type ℓ} → Option A → Result A
or_panic none = panic
or_panic (some a) = ok a

-- `values[i]`: a negative index is a pattern of 2 ^ 63 or more, past the end of any slice.
abbrev pub index {ℓ} : {A : Type ℓ} → List A → GoInt → Result A
index xs i = or_panic (get_elem? xs i)

-- `values[i] = value`
abbrev pub store {ℓ} : {A : Type ℓ} → List A → GoInt → A → Result (List A)
store xs i value = if ltb i (length xs) then ok (set xs i value) else panic

-- A result that is no value, and the rest.
abbrev pub Fails {ℓ} : {A : Type ℓ} → Result A → Type ℓ
Fails r = (r ≡ panic) ⊎ ((e : Error) × (r ≡ err e))

pub Result-cases {ℓ} : {A : Type ℓ} (r : Result A) → Fails r ⊎ ((a : A) × (r ≡ ok a))
Result-cases panic = inl (inl refl)
Result-cases (err e) = inl (inr (e, refl))
Result-cases (ok a) = inr (a, refl)

-- Inversion of a successful bind.
pub >>=-eq-ok {κ ℓ} :
    {B : Type κ} {A : Type ℓ} {answer : B} (done : Result A) (next : A → Result B)
    → done >>= next ≡ ok answer
    → (value : A) × (done ≡ ok value) × (next value ≡ ok answer)
>>=-eq-ok panic next e = cc
>>=-eq-ok (err why) next e = cc
>>=-eq-ok (ok value) next e = (value, refl, e)

-- Both parts of a sequence of checks that passes have passed.
pub >>-eq-ok {ℓ} :
    {B : Type ℓ} (m : Result (Unit {0})) (k : Result B) {b : B}
    → (m >> k) ≡ ok b
    → (m ≡ ok tt) × (k ≡ ok b)
>>-eq-ok (ok tt) k h = (refl, h)
>>-eq-ok (err e) k h = cc
>>-eq-ok panic k h = cc

pub reject_if-eq-ok : (c : Bool) (e : Error) → reject_if c e ≡ ok tt → c ≡ false
reject_if-eq-ok true e h = cc
reject_if-eq-ok false e h = refl

pub >>=_assoc {ℓ κ μ} :
    {A : Type ℓ} {B : Type κ} {C : Type μ} (m : Result A) (f : A → Result B) (g : B → Result C)
    → (m >>= λ a. f a >>= g) ≡ (m >>= f) >>= g
>>=_assoc (ok a) f g = refl
>>=_assoc (err e) f g = refl
>>=_assoc panic f g = refl
