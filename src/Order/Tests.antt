-- ===== src/Order/Tests.antt =====
-- Four tasks of two datasets.
use bagelquant_data.Prelude.{ℕ, ◌≡◌, refl, true, false, none, some, List, [], ◌∷◌, ◌==◌, map}
use bagelquant_data.Requests.{Kind}
use bagelquant_data.Order.{Task, fair_tasks, partition_affinity_order}
use bagelquant_data.Order.Complete.{
  count, count-fair_tasks, repairs_first, partition_affinity_order_complete,
}

abbrev task : ℕ → Kind → ℕ → Task
task name kind day = record {
  name = name;
  by_date = true;
  request = record {
    params = record { date = some day; start = none; end = none; other = 0 };
    scope_id = some day;
    request_kind = kind;
    target_end = some day;
    recheck_after = none;
    overlaps_existing = false;
    previous_data_max_time = none;
    daily_scopes = [];
    scope_ordinal = none;
    variant_hash = none;
    range_backfill_eligible = false;
    request_date_field = none;
    require_nonempty_response = false;
  };
}

abbrev four_tasks : List Task
four_tasks =
    task 1 Kind.forward 14
    ∷ task 1 Kind.forward 13
    ∷ task 1 Kind.retry 15
    ∷ task 2 Kind.empty_recheck 12
    ∷ []

fair_tasks-four_tasks :
    map (λ t. t.request.target_end) (fair_tasks four_tasks)
    ≡ some 14 ∷ some 12 ∷ some 13 ∷ some 15 ∷ []
unfolding fair_tasks
fair_tasks-four_tasks = refl

partition_affinity_order-four_tasks :
    map (λ t. t.request.target_end) (partition_affinity_order four_tasks)
    ≡ some 12 ∷ some 15 ∷ some 13 ∷ some 14 ∷ []
unfolding partition_affinity_order
partition_affinity_order-four_tasks = refl

count-fair_tasks_example :
    count (λ t. t.name == 1) (fair_tasks four_tasks) ≡ count (λ t. t.name == 1) four_tasks
count-fair_tasks_example = count-fair_tasks (λ t. t.name == 1) four_tasks

partition_affinity_order_complete_example :
    (count (λ t. t.name == 1) (partition_affinity_order four_tasks)
      ≡ count (λ t. t.name == 1) four_tasks)
    × (repairs_first (partition_affinity_order four_tasks) ≡ true)
partition_affinity_order_complete_example =
    partition_affinity_order_complete (λ t. t.name == 1) four_tasks
