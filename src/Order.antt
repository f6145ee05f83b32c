-- ===== src/Order.antt =====
-- The order of the update tasks in pipeline/update.py: `_fair_tasks`, `_retry_first` and
-- `_partition_affinity_order`.
pub mod Complete
mod Tests
use bagelquant_data.Prelude.{
  ℕ, zero, suc, ◌+◌, Bool, true, false, not, ◌&&◌, ◌||◌, Option, none, some, List, [], ◌∷◌, ◌++◌,
  ◌==◌, ltb, leb, length, any, if◌then◌else◌, filter, map,
}
use bagelquant_data.Requests.{Kind, LedgerRequest}

-- A task's dataset, by its name, whether that is by date, and the request.
pub record Task : Type 0 where
  pub name : ℕ
  pub by_date : Bool
  pub request : LedgerRequest

-- A queue of `_fair_tasks`, with the name of its dataset.
pub record Queue : Type 0 where
  pub name : ℕ
  pub head : Task
  pub tail : List Task

-- `grouped.setdefault(name, deque()).append(task)`
unfoldable pub enqueue : Task → List Queue → List Queue
enqueue t [] = record { name = t.name; head = t; tail = [] } ∷ []
enqueue t (q ∷ qs) =
    let rest = enqueue t qs in
    if q.name == t.name then record q { tail = q.tail ++ t ∷ [] } ∷ qs else q ∷ rest

abbrev pub grouped : List Task → List Queue → List Queue
grouped [] qs = qs
grouped (t ∷ ts) qs = grouped ts (enqueue t qs)

-- `if queue: queues.append(queue)`
abbrev pub requeue : Queue → List Queue → List Queue
requeue q qs = elim q.tail [
  | [] ↦ qs
  | t ∷ ts ↦ qs ++ record { name = q.name; head = t; tail = ts } ∷ []
]

-- The `while` loop, which takes one task in each of its iterations, for `fuel` of them.
unfoldable pub take_turns : ℕ → List Queue → List Task
take_turns fuel [] = []
take_turns zero (q ∷ qs) = []
take_turns (suc fuel) (q ∷ qs) = q.head ∷ take_turns fuel (requeue q qs)

unfoldable pub fair_tasks : List Task → List Task
unfolding take_turns enqueue
fair_tasks ts = take_turns (length ts) (grouped ts [])

abbrev pub is_repair : Task → Bool
is_repair t = elim t.request.request_kind [
  | Kind.retry ↦ true
  | Kind.empty_recheck ↦ true
  | _ ↦ false
]

unfoldable pub retry_first : List Task → List Task
retry_first ts = filter is_repair ts ++ filter (λ t. not (is_repair t)) ts

-- `_partition_affinity`: dates are in the order of their months and days, and 0 is before them.
abbrev pub partition_affinity : Task → ℕ × ℕ
partition_affinity t =
    if t.by_date
    then (
      0,
      elim t.request.target_end [
        | some day ↦ day
        | none ↦ elim t.request.params.date [ none ↦ 0 | some day ↦ day ]
      ],
    )
    else (2, 0)

abbrev pub precedes : Task → Task → Bool
precedes t u =
    let a = partition_affinity t in
    let b = partition_affinity u in ltb a.0 b.0 || (a.0 == b.0 && leb a.1 b.1)

-- Python's stable sort by affinity.
abbrev pub insert_task : Task → List Task → List Task
insert_task t [] = t ∷ []
insert_task t (u ∷ us) = if precedes t u then t ∷ u ∷ us else u ∷ insert_task t us

abbrev pub sort_tasks : List Task → List Task
sort_tasks [] = []
sort_tasks (t ∷ ts) = insert_task t (sort_tasks ts)

unfoldable pub partition_affinity_order : List Task → List Task
partition_affinity_order ts =
    sort_tasks (filter is_repair ts) ++ sort_tasks (filter (λ t. not (is_repair t)) ts)
