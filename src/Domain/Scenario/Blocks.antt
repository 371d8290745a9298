-- ===== src/Domain/Scenario/Blocks.antt =====
-- `generateRandomBlockDemand`: every week has a demand between the bounds, whatever the source draws.
use supply_chain_game.Prelude.{
  ℕ, zero, suc, ◌+◌, ◌-◌, ◌≤◌, ◌<◌, ◌^◌, ◌≡◌, refl, sym, ◌∙◌, false, List, arith, Bool-cases, inl,
  inr, ltb, leb, ltb→lt, lt→ltb, ◌⊎◌, length, replicate, All, get_elem?, some, length-replicate,
  All-of_get_elem?, get_elem?-bound,
}
use supply_chain_game.Word.{
  GoInt, IsNonNeg, le_int-small, add_int-small, sub_int-small, lt_int-small,
}
use supply_chain_game.Result.{ok}
use supply_chain_game.Domain.Scenario.{
  Rand, fill, block_end, block_value, block_loop, generate_random_block_demand,
}
use supply_chain_game.Domain.Scenario.Fill.{Fills, fill-Fills}

le_zero-false : (n : ℕ) → 0 < n → leb n 0 ≡ false
le_zero-false n h = ground arith

-- Between the bounds.
abbrev pub IsBetween : GoInt → GoInt → GoInt → Type 0
IsBetween lo hi v = (lo ≤ v) × (v ≤ hi)

-- Every week before `i` has its demand.
abbrev Drawn : GoInt → GoInt → ℕ → List GoInt → Type 0
Drawn lo hi i demand = (j : ℕ) (v : GoInt) → j < i → get_elem? demand j ≡ some v → IsBetween lo hi v

Drawn-Fills :
    (lo hi value i stop : ℕ) (demand filled : List GoInt)
    → IsBetween lo hi value
    → Drawn lo hi i demand
    → stop ≤ length demand
    → Fills i stop value demand filled
    → Drawn lo hi stop filled
Drawn-Fills lo hi value i stop demand filled b d hs f j v h e = elim (Bool-cases (ltb j i)) [
  | inl before ↦
      d j v (ltb→lt j i before) (sym (f.outside j (inl (ltb→lt j i before)) (omega arith)) ∙ e)
  | inr within ↦ let e' : value ≡ v = cc (f.inside j (ground arith) h (omega arith)) in rw (← e') b
]

Drawn-later :
    (lo hi stop max_weeks next : ℕ) (demand : List GoInt)
    → (stop ≡ max_weeks) ⊎ (stop ≡ next)
    → length demand ≡ max_weeks
    → Drawn lo hi stop demand
    → Drawn lo hi next demand
Drawn-later lo hi stop m next demand (inl e) hl d j v h e' =
    d j v (omega (arith, get_elem?-bound demand j e')) e'
Drawn-later lo hi stop m next demand (inr e) hl d j v h e' = d j v (omega arith) e'

-- Where a block ends: after its start, within the game.
record Within (start period max_weeks stop : ℕ) : Type 0 where
  above : start ≤ stop
  below : stop ≤ max_weeks
  small : IsNonNeg (start + period)
  reaches : (stop ≡ max_weeks) ⊎ (stop ≡ start + period)

block_end-Within :
    (start period max_weeks : ℕ)
    → start < max_weeks
    → 0 < period
    → IsNonNeg period
    → max_weeks < 2 ^ 62
    → (start ≡ 0) ⊎ (period ≤ start)
    → (stop : ℕ) × (block_end start period max_weeks ≡ stop) × Within start period max_weeks stop
unfolding block_end
block_end-Within start p m h hp hn hm hs =
    let small : IsNonNeg (start + p) = ground arith in
    elim (Bool-cases (ltb m (start + p))) [
      | inl cut ↦ (
        m,
        rw (add_int-small start p small, lt_int-small m (start + p) (omega arith) small, cut),
        record { above = omega arith; below = omega arith; small = small; reaches = inl refl },
      )
      | inr whole ↦ (
        start + p,
        rw (add_int-small start p small, lt_int-small m (start + p) (omega arith) small, whole),
        record { above = omega arith; below = ground arith; small = small; reaches = inr refl },
      )
    ]

module _ (rng : Rand) where
  -- A block's value lies between the bounds, and the draw does not panic.
  block_value-IsBetween :
      (source : rng.Source) (lo hi : GoInt)
      → lo ≤ hi
      → hi < 2 ^ 63 - 1
      → (drawn : GoInt × rng.Source) × (block_value rng source lo hi ≡ ok drawn)
        × IsBetween lo hi drawn.0
  unfolding block_value
  block_value-IsBetween source lo hi h k = elim (Bool-cases (ltb lo hi)) [
    | inl more ↦
        let n = hi - lo + 1 in
        let bound : (rng.intn source n).0 < n = rng.intn-lt source n (omega arith) (omega arith) in
        let small : lo < hi = ltb→lt lo hi more in
        (
          (lo + (rng.intn source n).0, (rng.intn source n).1),
          rw (
            lt_int-small lo hi (omega arith) (omega arith),
            more,
            sub_int-small hi lo (omega arith) (omega arith),
            add_int-small (hi - lo) 1 (omega arith),
            le_int-small n 0 (omega arith) (omega arith),
            le_zero-false n (omega arith),
            add_int-small lo (rng.intn source n).0 (omega arith),
          ),
          (omega arith, omega arith),
        )
    | inr same ↦
        ((lo, source), rw (lt_int-small lo hi (omega arith) (omega arith), same), (omega arith, h))
  ]

  -- A round of the outer loop, from what its parts return.
  block_loop-round :
      (fuel : ℕ) (source : rng.Source) (start max_weeks lo hi period : GoInt) (demand : List GoInt)
      (drawn : GoInt × rng.Source) (stop : GoInt) (filled : List GoInt)
      → IsNonNeg start
      → IsNonNeg max_weeks
      → start < max_weeks
      → IsNonNeg (start + period)
      → block_value rng source lo hi ≡ ok drawn
      → block_end start period max_weeks ≡ stop
      → fill max_weeks start stop drawn.0 demand ≡ ok filled
      → block_loop rng (suc fuel) source start max_weeks lo hi period demand
        ≡ block_loop rng fuel drawn.1 (start + period) max_weeks lo hi period filled
  unfolding block_loop
  block_loop-round fuel source start m lo hi p demand drawn stop filled hs hm h hn ev es ef =
      rw (lt_int-small start m hs hm, lt→ltb start m h, ev, es, ef, add_int-small start p hn)

  block_loop-Drawn :
      (fuel : ℕ) (source : rng.Source) (start max_weeks lo hi period : GoInt) (demand : List GoInt)
      → lo ≤ hi
      → hi < 2 ^ 63 - 1
      → 0 < period
      → IsNonNeg period
      → max_weeks < 2 ^ 62
      → (start ≡ 0) ⊎ (period ≤ start)
      → IsNonNeg start
      → length demand ≡ max_weeks
      → Drawn lo hi start demand
      → max_weeks - start ≤ fuel
      → (result : List GoInt) × (block_loop rng fuel source start max_weeks lo hi period demand
          ≡ ok result)
        × (length result ≡ max_weeks)
        × Drawn lo hi max_weeks result
  unfolding block_loop
  block_loop-Drawn zero source start m lo hi p demand h k hp hn hm hs hb hl d hf =
      (demand, refl, hl, λ j v q e. d j v (omega arith) e)
  block_loop-Drawn (suc fuel) source start m lo hi p demand h k hp hn hm hs hb hl d hf =
      elim (Bool-cases (ltb start m)) [
        | inl more ↦
            let here : start < m = ltb→lt start m more in
            let (drawn, e, b) = block_value-IsBetween source lo hi h k in
            let (stop, es, ws) = block_end-Within start p m here hp hn hm hs in
            let (filled, ef, f) =
              fill-Fills m start stop drawn.0 demand (omega arith) (omega arith) ws.above
                (omega arith) in
            let (result, er, len, rest) =
              block_loop-Drawn fuel drawn.1 (start + p) m lo hi p filled h k hp hn hm
                (inr (omega arith)) (omega arith) (f.same_length ∙ hl)
                (Drawn-later lo hi stop m (start + p) filled ws.reaches (f.same_length ∙ hl)
                  (Drawn-Fills lo hi drawn.0 start stop demand filled b d (omega arith) f))
                (omega arith) in
            (
              result,
              block_loop-round fuel source start m lo hi p demand drawn stop filled hb (omega arith)
                    here ws.small e es ef
                  ∙ er,
              len,
              rest,
            )
        | inr done ↦ (
          demand,
          rw (lt_int-small start m hb (omega arith), done),
          hl,
          λ j v q e. d j v (ground arith) e,
        )
      ]

  -- Drawn block by block, every week of the game has a demand between the bounds.
  pub generate_random_block_demand-IsBetween :
      (max_weeks lo hi period seed : GoInt)
      → lo ≤ hi
      → hi < 2 ^ 63 - 1
      → 0 < period
      → IsNonNeg period
      → max_weeks < 2 ^ 62
      → (demand : List GoInt) × (generate_random_block_demand rng max_weeks lo hi period seed
          ≡ ok demand)
        × (length demand ≡ max_weeks)
        × All (IsBetween lo hi) demand
  unfolding generate_random_block_demand
  generate_random_block_demand-IsBetween m lo hi p seed h k hp hn hm =
      let (demand, e, hl, d) =
        block_loop-Drawn m (rng.new_source seed) 0 m lo hi p (replicate m 0) h k hp hn hm (inl refl)
          (omega arith) (length-replicate m 0) (λ j v q e. absurd (omega arith)) (omega arith) in
      (
        demand,
        e,
        hl,
        All-of_get_elem? (IsBetween lo hi) demand
            λ i v e. d i v (omega (arith, get_elem?-bound demand i e)) e,
      )
