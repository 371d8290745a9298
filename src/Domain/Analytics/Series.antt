-- ===== src/Domain/Analytics/Series.antt =====
-- What the loop over the weeks gathers, as lists read off the history.
use supply_chain_game.Prelude.{
  ◌≡◌, refl, ap, ◌∙◌, sym, List, [], ◌∷◌, ◌++◌, map, fun_ext, if◌then◌else◌, append_assoc,
  append-nil, Bool-cases, inl, inr,
}
use supply_chain_game.Word.{GoInt, add_int}
use supply_chain_game.Domain.Role.{Role, retailer, role_eq, role_eq→eq}
use supply_chain_game.Domain.Session.{NodeState, WeekState}
use supply_chain_game.Domain.Analytics.{
  Gathered, nothing_gathered, append_at, add_at, gather_node, gather_nodes, gather_weeks, sum_ints,
  sum_loop,
}

-- The nodes of all weeks, in their order.
abbrev pub nodes_of : List WeekState → List NodeState
nodes_of [] = []
nodes_of (week ∷ rest) = week.nodes ++ nodes_of rest

-- One value of each node of a role.
abbrev pub picked : (NodeState → GoInt) → Role → List NodeState → List GoInt
picked value role [] = []
picked value role (node ∷ rest) =
    (if role_eq node.role role then value node ∷ [] else []) ++ picked value role rest

pub picked-append :
    (value : NodeState → GoInt) (role : Role) (xs ys : List NodeState)
    → picked value role (xs ++ ys) ≡ picked value role xs ++ picked value role ys
picked-append value role [] ys = refl
picked-append value role (x ∷ xs) ys = rw (picked-append value role xs ys) (
    sym (
      append_assoc (if role_eq x.role role then value x ∷ [] else []) (picked value role xs)
        (picked value role ys)))

append_at-picked :
    (m : Role → List GoInt) (value : NodeState → GoInt) (role : Role) (node : NodeState)
    → append_at m node.role (value node) role ≡ m role ++ picked value role (node ∷ [])
unfolding append_at
append_at-picked m value role node = elim (Bool-cases (role_eq node.role role)) [
  | inl hit ↦ rw (hit, role_eq→eq node.role role hit) refl
  | inr miss ↦ rw miss (sym (append-nil (m role)))
]

sum_loop-append :
    (total : GoInt) (xs ys : List GoInt)
    → sum_loop total (xs ++ ys) ≡ sum_loop (sum_loop total xs) ys
unfolding sum_loop
sum_loop-append total [] ys = refl
sum_loop-append total (x ∷ xs) ys = sum_loop-append (add_int total x) xs ys

add_at-picked :
    (m : Role → GoInt) (value : NodeState → GoInt) (role : Role) (node : NodeState)
    → add_at m node.role (value node) role ≡ sum_loop (m role) (picked value role (node ∷ []))
unfolding add_at sum_loop
add_at-picked m value role node = elim (Bool-cases (role_eq node.role role)) [
  | inl hit ↦ rw (hit, role_eq→eq node.role role hit) refl
  | inr miss ↦ rw miss refl
]

-- What is gathered after some nodes: each list of a role goes on with a value of each of its nodes.
record Extends (g g' : Gathered) (nodes : List NodeState) : Type 0 where
  demand : g'.demand ≡ g.demand ++ picked (λ n. n.incoming_order) retailer nodes
  orders : (role : Role) → g'.orders role ≡ g.orders role ++ picked (λ n. n.placed_order) role nodes
  inventory :
      (role : Role) → g'.inventory role ≡ g.inventory role ++ picked (λ n. n.inventory) role nodes
  backlog : (role : Role) → g'.backlog role ≡ g.backlog role ++ picked (λ n. n.backlog) role nodes
  cost :
      (role : Role) → g'.cost role ≡ sum_loop (g.cost role) (picked (λ n. n.weekly_cost) role nodes)

Extends-refl : (g : Gathered) → Extends g g []
unfolding sum_loop
Extends-refl g = record {
  demand = sym (append-nil g.demand);
  orders = λ role. sym (append-nil (g.orders role));
  inventory = λ role. sym (append-nil (g.inventory role));
  backlog = λ role. sym (append-nil (g.backlog role));
  cost = λ role. refl;
}

-- A list that goes on with one picked list and then with another.
picked_trans :
    (value : NodeState → GoInt) (role : Role) (xs ys : List NodeState) (a b c : List GoInt)
    → b ≡ a ++ picked value role xs
    → c ≡ b ++ picked value role ys
    → c ≡ a ++ picked value role (xs ++ ys)
picked_trans value role xs ys a b c e f =
    rw (f, e, picked-append value role xs ys)
      (append_assoc a (picked value role xs) (picked value role ys))

Extends-trans :
    (g g' g'' : Gathered) (xs ys : List NodeState)
    → Extends g g' xs
    → Extends g' g'' ys
    → Extends g g'' (xs ++ ys)
Extends-trans g g' g'' xs ys e f = record {
  demand = picked_trans _ retailer xs ys _ _ _ e.demand f.demand;
  orders = λ role. picked_trans _ role xs ys _ _ _ (e.orders role) (f.orders role);
  inventory = λ role. picked_trans _ role xs ys _ _ _ (e.inventory role) (f.inventory role);
  backlog = λ role. picked_trans _ role xs ys _ _ _ (e.backlog role) (f.backlog role);
  cost = λ role.
      rw (f.cost role, e.cost role, picked-append (λ n. n.weekly_cost) role xs ys)
        (sym (
          sum_loop-append (g.cost role) (picked (λ n. n.weekly_cost) role xs)
            (picked (λ n. n.weekly_cost) role ys)));
}

demand-picked :
    (before : List GoInt) (node : NodeState)
    → (if role_eq node.role retailer then before ++ node.incoming_order ∷ [] else before)
      ≡ before ++ picked (λ n. n.incoming_order) retailer (node ∷ [])
demand-picked before node = elim (Bool-cases (role_eq node.role retailer)) [
  | inl hit ↦ rw hit refl
  | inr miss ↦ rw miss (sym (append-nil before))
]

gather_node-Extends : (node : NodeState) (g : Gathered) → Extends g (gather_node node g) (node ∷ [])
unfolding gather_node
gather_node-Extends node g = record {
  demand = demand-picked g.demand node;
  orders = λ role. append_at-picked g.orders (λ n. n.placed_order) role node;
  inventory = λ role. append_at-picked g.inventory (λ n. n.inventory) role node;
  backlog = λ role. append_at-picked g.backlog (λ n. n.backlog) role node;
  cost = λ role. add_at-picked g.cost (λ n. n.weekly_cost) role node;
}

gather_nodes-Extends :
    (nodes : List NodeState) (g : Gathered) → Extends g (gather_nodes nodes g) nodes
unfolding gather_nodes
gather_nodes-Extends [] g = Extends-refl g
gather_nodes-Extends (node ∷ rest) g =
    Extends-trans g (gather_node node g) (gather_nodes rest (gather_node node g)) (node ∷ []) rest
      (gather_node-Extends node g) (gather_nodes-Extends rest (gather_node node g))

-- The sum of the weeks' costs is not touched by the loop over the nodes.
gather_nodes-total_cost :
    (nodes : List NodeState) (g : Gathered) → (gather_nodes nodes g).total_cost ≡ g.total_cost
unfolding gather_nodes gather_node
gather_nodes-total_cost [] g = refl
gather_nodes-total_cost (node ∷ rest) g = gather_nodes-total_cost rest (gather_node node g)

gather_weeks-Extends :
    (weeks : List WeekState) (g : Gathered) → Extends g (gather_weeks weeks g) (nodes_of weeks)
unfolding gather_weeks
gather_weeks-Extends [] g = Extends-refl g
gather_weeks-Extends (week ∷ rest) g =
    let begun : Gathered = record g { total_cost = add_int g.total_cost week.total_cost } in
    let after : Gathered = gather_nodes week.nodes begun in
    let step : Extends begun after week.nodes = gather_nodes-Extends week.nodes begun in
    Extends-trans g after (gather_weeks rest after) week.nodes (nodes_of rest)
      (record {
        demand = step.demand;
        orders = step.orders;
        inventory = step.inventory;
        backlog = step.backlog;
        cost = step.cost;
      })
      (gather_weeks-Extends rest after)

gather_weeks-total_cost :
    (weeks : List WeekState) (g : Gathered)
    → (gather_weeks weeks g).total_cost ≡ sum_loop g.total_cost (map (λ w. w.total_cost) weeks)
unfolding gather_weeks sum_loop
gather_weeks-total_cost [] g = refl
gather_weeks-total_cost (week ∷ rest) g =
    gather_weeks-total_cost rest
      (gather_nodes week.nodes (record g { total_cost = add_int g.total_cost week.total_cost }))
    ∙ ap (λ (t : GoInt). sum_loop t (map (λ w. w.total_cost) rest))
        (gather_nodes-total_cost week.nodes
          (record g { total_cost = add_int g.total_cost week.total_cost }))

-- What the code gathers from a history, written without maps.
abbrev pub gathered_of : List WeekState → Gathered
gathered_of weeks = record {
  total_cost = sum_ints (map (λ w. w.total_cost) weeks);
  demand = picked (λ n. n.incoming_order) retailer (nodes_of weeks);
  orders = λ role. picked (λ n. n.placed_order) role (nodes_of weeks);
  inventory = λ role. picked (λ n. n.inventory) role (nodes_of weeks);
  backlog = λ role. picked (λ n. n.backlog) role (nodes_of weeks);
  cost = λ role. sum_ints (picked (λ n. n.weekly_cost) role (nodes_of weeks));
}

Gathered-eq :
    (g h : Gathered)
    → g.total_cost ≡ h.total_cost
    → g.demand ≡ h.demand
    → g.orders ≡ h.orders
    → g.inventory ≡ h.inventory
    → g.backlog ≡ h.backlog
    → g.cost ≡ h.cost
    → g ≡ h
Gathered-eq g h a b c d e f = λ i. record {
  total_cost = a i;
  demand = b i;
  orders = c i;
  inventory = d i;
  backlog = e i;
  cost = f i;
}

-- The loop over the weeks, with its four maps, gathers what a reader would pick from the history.
pub gather_weeks_lem :
    (weeks : List WeekState) → gather_weeks weeks nothing_gathered ≡ gathered_of weeks
unfolding sum_ints
gather_weeks_lem weeks =
    let all : Extends nothing_gathered (gather_weeks weeks nothing_gathered) (nodes_of weeks) =
      gather_weeks-Extends weeks nothing_gathered in
    Gathered-eq (gather_weeks weeks nothing_gathered) (gathered_of weeks)
      (gather_weeks-total_cost weeks nothing_gathered) all.demand (fun_ext all.orders)
      (fun_ext all.inventory) (fun_ext all.backlog) (fun_ext all.cost)
