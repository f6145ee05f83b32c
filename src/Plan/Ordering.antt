-- ===== src/Plan/Ordering.antt =====
-- `visit`, which puts every dataset after its prerequisites, and the plan in that order. A dataset that
-- is visited is in `ordered`, where the newest comes first; `visiting` are the datasets that wait for it.
use bagelquant_data.Prelude.{
  ℕ, zero, suc, true, false, Option, none, some, List, [], ◌∷◌, ◌++◌, ◌==◌, if◌then◌else◌, map,
  contains, length,
}
use bagelquant_data.Baseline.{Failure, Answer, done, raised, Action}
use bagelquant_data.Plan.{Dataset, actions_of, parents_of, sorted_names}

-- `cycle` is "Raw prerequisite cycle".
pub data Order : Type 0 where
  in_order : (ordered : List ℕ) → Order
  cycle out_of_fuel : Order

abbrev pub and_then : Order → (List ℕ → Order) → Order
and_then (Order.in_order ns) f = f ns
and_then Order.cycle f = Order.cycle
and_then Order.out_of_fuel f = Order.out_of_fuel

-- `for parent in …: visit(parent)`
unfoldable pub visit_all : (ℕ → List ℕ → Order) → List ℕ → List ℕ → Order
visit_all go [] ordered = Order.in_order ordered
visit_all go (p ∷ ps) ordered = and_then (go p ordered) (visit_all go ps)

abbrev pub finished : ℕ → Order → Order
finished name o = and_then o (λ ns. Order.in_order (name ∷ ns))

module _ (parents : ℕ → List ℕ) where
  unfoldable pub visit : ℕ → List ℕ → ℕ → List ℕ → Order
  visit zero visiting name ordered = elim (contains name visiting) [
    | true ↦ Order.cycle
    | false ↦ elim (contains name ordered) [
      | true ↦ Order.in_order ordered
      | false ↦ Order.out_of_fuel
    ]
  ]
  visit (suc f) visiting name ordered = elim (contains name visiting) [
    | true ↦ Order.cycle
    | false ↦ elim (contains name ordered) [
      | true ↦ Order.in_order ordered
      | false ↦ finished name (visit_all (visit f (name ∷ visiting)) (parents name) ordered)
    ]
  ]

  -- `for name in sorted(specs): visit(name)`, with as much fuel as there are datasets.
  unfoldable pub order_names : List ℕ → Order
  order_names names = visit_all (visit (length names) []) (sorted_names names) []

-- A dataset with its actions.
pub record Planned : Type 0 where
  pub dataset : Dataset
  pub actions : List Action

abbrev pub names_of : List Planned → List ℕ
names_of ps = map (λ p. p.dataset.name) ps

abbrev pub with_actions :
    Dataset → Answer (List Action) → Answer (List Planned) → Answer (List Planned)
with_actions d (raised e) rest = raised e
with_actions d (done as_) (raised e) = raised e
with_actions d (done as_) (done ps) = done (record { dataset = d; actions = as_ } ∷ ps)

-- The first loop of the plan.
unfoldable pub plan_all : ℕ → ℕ → List Dataset → Answer (List Planned)
unfolding actions_of
plan_all start end [] = done []
plan_all start end (d ∷ ds) = with_actions d (actions_of start end d) (plan_all start end ds)

abbrev pub planned_of : ℕ → List Planned → Option Planned
planned_of name [] = none
planned_of name (p ∷ ps) = if p.dataset.name == name then some p else planned_of name ps

abbrev pub parents_for : List ℕ → Option Planned → List ℕ
parents_for specs none = []
parents_for specs (some p) = parents_of specs p.dataset p.actions

abbrev pub parents_in : List Planned → ℕ → List ℕ
parents_in ps name = parents_for (names_of ps) (planned_of name ps)

abbrev pub actions_in : Option Planned → List Action
actions_in none = []
actions_in (some p) = p.actions

-- The last loop, over the names in order.
abbrev pub steps : List Planned → List ℕ → List (ℕ × Action)
steps ps [] = []
steps ps (n ∷ ns) = steps ps ns ++ map (λ a. (n, a)) (actions_in (planned_of n ps))

unfoldable pub order_planned : List Planned → Order
unfolding order_names
order_planned ps = order_names (parents_in ps) (names_of ps)

-- No plan exceeds the fuel, so that the last answer never arises.
abbrev pub plan_answer : List Planned → Order → Answer (List (ℕ × Action))
plan_answer ps (Order.in_order ns) = done (steps ps ns)
plan_answer ps Order.cycle = raised Failure.configuration_error
plan_answer ps Order.out_of_fuel = raised Failure.runtime_error

abbrev pub plan_from : Answer (List Planned) → Answer (List (ℕ × Action))
plan_from (raised e) = raised e
plan_from (done ps) = plan_answer ps (order_planned ps)

-- `plan_updates` on the datasets that are asked for, each once.
unfoldable pub plan_updates : ℕ → ℕ → List Dataset → Answer (List (ℕ × Action))
unfolding plan_all
plan_updates start end datasets = plan_from (plan_all start end datasets)
