-- ===== src/Domain/Scenario/Fill.antt =====
-- The inner loop of `generateRandomBlockDemand` of internal/domain/scenario.go.
use supply_chain_game.Prelude.{
  ℕ, zero, suc, ◌+◌, ◌-◌, ◌≤◌, ◌<◌, ◌≡◌, refl, ◌∙◌, List, [], ◌∷◌, arith, Bool-cases, inl, inr, ltb,
  ltb→lt, lt→ltb, ◌⊎◌, if◌then◌else◌, length, set, length-set, get_elem?, some, ◌==◌,
}
use supply_chain_game.Word.{GoInt, IsNonNeg, add_int-small, lt_int-small}
use supply_chain_game.Result.{ok}
use supply_chain_game.Domain.Scenario.{fill}

get_elem?-set :
    (xs : List GoInt) (i j v : ℕ)
    → j < length xs
    → get_elem? (set xs i v) j ≡ (if i == j then some v else get_elem? xs j)
get_elem?-set [] i j v h = elim h [ ]
get_elem?-set (x ∷ xs) zero zero v h = ground arith
get_elem?-set (x ∷ xs) zero (suc j) v h = ground arith
get_elem?-set (x ∷ xs) (suc i) zero v h = ground arith
get_elem?-set (x ∷ xs) (suc i) (suc j) v h = ground (arith, get_elem?-set xs i j v)

-- The list with the value at each index from `i` up to `stop`, and as before elsewhere.
pub record Fills (i stop value : ℕ) (demand filled : List GoInt) : Type 0 where
  pub same_length : length filled ≡ length demand
  pub inside : (j : ℕ) → i ≤ j → j < stop → j < length demand → get_elem? filled j ≡ some value
  pub outside :
      (j : ℕ) → (j < i) ⊎ (stop ≤ j) → j < length demand → get_elem? filled j ≡ get_elem? demand j

Fills-cons :
    (i stop value : ℕ) (demand filled : List GoInt)
    → i < stop
    → Fills (i + 1) stop value (set demand i value) filled
    → Fills i stop value demand filled
Fills-cons i stop value demand filled h f = record {
  same_length = f.same_length ∙ length-set demand i value;
  inside = λ j p q r.
      let r' : j < length (set demand i value) = omega (arith, length-set demand i value) in
      elim (Bool-cases (ltb i j)) [
        | inl later ↦ f.inside j (omega (arith, ltb→lt i j later)) q r'
        | inr now ↦
            f.outside j (inl (ground arith)) r' ∙ get_elem?-set demand i j value r ∙ (ground arith)
      ];
  outside = λ j p r.
      f.outside j (ground arith) (omega (arith, length-set demand i value))
      ∙ get_elem?-set demand i j value r
      ∙ (ground arith);
}

-- The inner loop never leaves the list, and has fuel enough.
pub fill-Fills :
    (fuel i stop value : ℕ) (demand : List GoInt)
    → stop ≤ length demand
    → IsNonNeg stop
    → i ≤ stop
    → stop - i ≤ fuel
    → (filled : List GoInt) × (fill fuel i stop value demand ≡ ok filled)
      × Fills i stop value demand filled
unfolding fill
fill-Fills zero i stop value demand hs hn hi hf = (
  demand,
  refl,
  record { same_length = refl; inside = λ j p q r. absurd (omega arith); outside = λ j p r. refl },
)
fill-Fills (suc fuel) i stop value demand hs hn hi hf = elim (Bool-cases (ltb i stop)) [
  | inl more ↦
      let here : i < stop = ltb→lt i stop more in
      let (filled, e, f) =
        fill-Fills fuel (i + 1) stop value (set demand i value)
          (omega (arith, length-set demand i value)) hn (omega arith) (omega arith) in
      (
        filled,
        rw
            (
              lt_int-small i stop (omega arith) hn,
              more,
              lt→ltb i (length demand) (omega arith),
              add_int-small i 1 (omega arith),
            )
            e,
        Fills-cons i stop value demand filled here f,
      )
  | inr done ↦ (
    demand,
    rw (lt_int-small i stop (omega arith) hn, done),
    record {
      same_length = refl;
      inside = λ j p q r. absurd (ground arith);
      outside = λ j p r. refl;
    },
  )
]
