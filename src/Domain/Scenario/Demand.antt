-- ===== src/Domain/Scenario/Demand.antt =====
-- `extendDemand`: a fixed demand, worked out for all weeks, is the demand that the scenario gives.
use supply_chain_game.Prelude.{
  append_assoc, append-nil, ℕ, zero, suc, ◌+◌, ◌-◌, ◌≤◌, ◌<◌, ◌≡◌, sym, ◌∙◌, ap, List, [], ◌∷◌,
  ◌++◌, arith, Bool-cases, inl, inr, ltb, leb, leb→le, le→leb, ltb→lt, if◌then◌else◌, length, take,
  replicate, All, length-append, length-take, length-replicate, get_elem?, get_elem?-lt,
  get_elem?-append_left, get_elem?-append_right, get_elem?-replicate, get_elem?-take, All-get_elem?,
  All-of_get_elem?, get_elem?-bound, subst, some,
}
use supply_chain_game.Word.{GoInt, IsNonNeg, lt_int-small, le_int-small, sub_int-small}
use supply_chain_game.Result.{ok, or_panic, index}
use supply_chain_game.Domain.Scenario.{demand_of, extend_loop, extend_demand}

-- The loop appends the last entry until the list is long enough.
extend_loop-replicate :
    (fuel : ℕ) (result : List GoInt) (last max_weeks n : GoInt)
    → IsNonNeg max_weeks
    → length result + n ≡ max_weeks
    → n ≤ fuel
    → extend_loop fuel result last max_weeks ≡ result ++ replicate n last
unfolding extend_loop
extend_loop-replicate zero result last m zero hm e h = sym (append-nil result)
extend_loop-replicate zero result last m (suc n) hm e h = absurd (omega arith)
extend_loop-replicate (suc fuel) result last m zero hm e h =
    rw (lt_int-small (length result) m (omega arith) hm) (ground (arith, append-nil result))
extend_loop-replicate (suc fuel) result last m (suc n) hm e h =
    let len = length-append result (last ∷ []) in
    let ih =
      extend_loop-replicate fuel (result ++ last ∷ []) last m n hm (omega arith) (omega arith) in
    rw (lt_int-small (length result) m (omega arith) hm)
      (ground (arith, ih, append_assoc result (last ∷ []) (replicate n last)))

-- The extended list: its head is `values`, and the rest repeats the last entry.
pub record Extends (values demand : List GoInt) (max_weeks : GoInt) : Type 0 where
  pub length_eq : length demand ≡ max_weeks
  pub same : (i : ℕ) → i < max_weeks → i < length values → get_elem? demand i ≡ get_elem? values i
  pub after :
      (i : ℕ)
      → i < max_weeks
      → length values ≤ i
      → get_elem? demand i ≡ get_elem? values (length values - 1)

-- A list that is long enough is cut.
take-Extends :
    (values : List GoInt) (m : GoInt) → m ≤ length values → Extends values (take m values) m
take-Extends values m h = record {
  length_eq = omega (arith, length-take m values);
  same = λ i p q. get_elem?-take m values i p;
  after = λ i p q. absurd (omega arith);
}

-- A list that is too short is padded with its last entry.
pad-Extends :
    (values : List GoInt) (last m : GoInt)
    → length values ≤ m
    → get_elem? values (length values - 1) ≡ some last
    → Extends values (values ++ replicate (m - length values) last) m
pad-Extends values last m h e = record {
  length_eq = omega (
    arith,
    length-append values (replicate (m - length values) last),
    length-replicate (m - length values) last,
  );
  same = λ i p q. get_elem?-append_left values _ i q;
  after = λ i p q.
      get_elem?-append_right values _ (i - length values) i (omega arith)
      ∙ get_elem?-replicate (m - length values) (i - length values) last (omega arith)
      ∙ sym e;
}

-- A demand that is not empty is extended or cut to the number of weeks.
pub extend_demand-Extends :
    (values : List GoInt) (max_weeks : GoInt)
    → 0 < length values
    → IsNonNeg (length values)
    → IsNonNeg max_weeks
    → (demand : List GoInt) × (extend_demand values max_weeks ≡ ok demand)
      × Extends values demand max_weeks
unfolding extend_demand
extend_demand-Extends values m pos hl hm = elim (Bool-cases (leb m (length values))) [
  | inl long ↦ (
    take m values,
    rw (le_int-small m (length values) hm hl, long),
    take-Extends values m (leb→le m _ long),
  )
  | inr short ↦
      let (last, e) = get_elem?-lt values (length values - 1) (omega arith) in
      let gap = m - length values in
      (
        values ++ replicate gap last,
        rw (le_int-small m (length values) hm hl, short, sub_int-small (length values) 1 pos hl, e)
            (ap ok (extend_loop-replicate m values last m gap hm (ground arith) (ground arith))),
        pad-Extends values last m (ground arith) e,
      )
]

-- In a week of the game a demand is read at the week, or at the last entry.
pub demand_of-index :
    (demand : List GoInt) (week : GoInt)
    → 0 < length demand
    → IsNonNeg (length demand)
    → 0 < week
    → IsNonNeg week
    → demand_of demand week
      ≡ index demand (if leb week (length demand) then week - 1 else length demand - 1)
unfolding demand_of
demand_of-index demand week pos hl hw hn =
    rw
      (
        le_int-small week 0 hn (omega arith),
        le_int-small week (length demand) hn hl,
        sub_int-small week 1 hw hn,
        sub_int-small (length demand) 1 pos hl,
      )
      (ground arith)

-- A week of the game has the demand that the shorter or longer list gave.
pub Extends-demand_of :
    (values demand : List GoInt) (max_weeks week : GoInt)
    → Extends values demand max_weeks
    → 0 < length values
    → IsNonNeg (length values)
    → IsNonNeg max_weeks
    → 0 < week
    → week ≤ max_weeks
    → demand_of demand week ≡ demand_of values week
Extends-demand_of values demand m week x pos hl hm hw le =
    rw
      (
        demand_of-index demand week (omega (arith, x.length_eq)) (omega (arith, x.length_eq)) hw
            (omega arith),
        demand_of-index values week pos hl hw (omega arith),
        x.length_eq,
      )
      (elim (Bool-cases (leb week (length values))) [
        | inl inside ↦
            rw (inside, le→leb week m le)
              (ap or_panic (x.same (week - 1) (omega arith) (ground arith)))
        | inr outside ↦
            rw (outside, le→leb week m le)
              (ap or_panic (x.after (week - 1) (omega arith) (ground arith)))
      ])

-- The values of the longer list are values of the shorter.
pub Extends-All {κ} :
    (P : GoInt → Type κ) (values demand : List GoInt) (max_weeks : GoInt)
    → Extends values demand max_weeks
    → 0 < length values
    → All P values
    → All P demand
Extends-All P values demand m x pos h = All-of_get_elem? P demand λ i a e.
    let bound : i < m = subst (λ n. i < n) x.length_eq (get_elem?-bound demand i e) in
    elim (Bool-cases (ltb i (length values))) [
      | inl inside ↦ All-get_elem? P values i h (sym (x.same i bound (ltb→lt i _ inside)) ∙ e)
      | inr outside ↦
          All-get_elem? P values (length values - 1) h (sym (x.after i bound (ground arith)) ∙ e)
    ]
