-- ===== src/Baseline/Tests.antt =====
-- A dataset is initialized, completed and reopened.
use bagelquant_data.Prelude.{ℕ, ◌≡◌, refl, true, false, none, some, List, [], ◌∷◌, arith}
use bagelquant_data.Ledger.Data.{Status, Scope, Ledger}
use bagelquant_data.Baseline.{
  Mode, Definition, Metadata, done, is_done, started, row_for, has_history, prepare_row,
  prepare_initialization, finish_initialization, initialization_actions, action,
}
use bagelquant_data.Baseline.Reopening.{Reopening, reopened, reopen_defined, reopen_initialization}
use bagelquant_data.Baseline.Agreement.{
  accepts_first, accepts_first-initialization_actions, proposes,
  prepare_initialization-initialization_actions, prepare_initialization-reopen_initialization,
}
use bagelquant_data.Baseline.Frozen.{Change, change_all, bounds_of, bounds_of-change_all}

abbrev checked_day : ℕ → Scope
checked_day key = record {
  id = key;
  source = 1;
  dataset = 2;
  scope_kind = 3;
  scope_key = key;
  variant_hash = 4;
  status = Status.success;
  initial_start = none;
  checked_through = some key;
  data_max_time = some key;
  row_count = 8;
  attempt_count = 1;
  last_attempt_at = some 1;
  last_success_at = some 1;
  recheck_after = none;
  last_error = none;
  spec_hash = 9;
  active_run_id = none;
  commit_run_id = some 7;
  created_at = 1;
  updated_at = 1;
}

abbrev checked_ledger : Ledger
checked_ledger = record {
  scopes = checked_day 101 ∷ checked_day 102 ∷ [];
  next_id = 200;
  checks = [];
  runs = [];
  leases = [];
  calls = [];
  datasets = record { source = 1; name = 2; update_incomplete = false } ∷ [];
}

abbrev registered : Definition
registered = record { source = 1; name = 2; spec_hash = 9; spec_json = 5 }

abbrev new_dataset : Metadata
new_dataset = record {
  read_only = false;
  ledger = checked_ledger;
  definitions = registered ∷ [];
  initializations = [];
  commits = [];
  checks = [];
}

abbrev unfinished : Metadata
unfinished = record new_dataset { initializations = started 1 2 9 101 102 ∷ [] }

abbrev completed : Metadata
completed = record new_dataset {
  initializations = record (started 1 2 9 101 102) { is_running = false } ∷ [];
}

abbrev early : Reopening
early = record {
  source = 1;
  name = 2;
  spec_json = 5;
  is_item = false;
  is_by_date = true;
  has_reason = true;
  start = 101;
  end = 102;
  date_kind = 3;
}

prepare-new_dataset :
    prepare_initialization 1 2 Mode.initialize (some 101) (some 102) new_dataset ≡ done unfinished
unfolding prepare_initialization prepare_row
prepare-new_dataset = refl

finish-unfinished : finish_initialization 1 2 unfinished ≡ completed
unfolding finish_initialization
finish-unfinished = refl

-- The unfinished baseline comes first, and then the days after it.
plan-unfinished :
    initialization_actions 101 110 9 (row_for 1 2 unfinished.initializations) false
    ≡ done (action Mode.initialize 101 102 ∷ action Mode.incremental 101 110 ∷ [])
unfolding initialization_actions
plan-unfinished = refl

reopen-completed : reopen_initialization 50 early completed ≡ done (reopened 50 early 9 completed)
unfolding reopen_initialization reopen_defined
reopen-completed = refl

prepare_initialization-initialization_actions_example :
    is_done (prepare_initialization 1 2 Mode.initialize (some 101) (some 102) unfinished)
    ≡ proposes 101 102 (
        initialization_actions 101 102 9
          (row_for 1 2 unfinished.initializations)
          (has_history 1 2 unfinished))
prepare_initialization-initialization_actions_example =
    prepare_initialization-initialization_actions 1 2 101 102 registered unfinished (omega arith)
      refl

prepare_initialization-reopen_initialization_example :
    prepare_initialization 1 2 Mode.initialize (some 101) (some 102) (reopened 50 early 9 completed)
    ≡ done (reopened 50 early 9 completed)
prepare_initialization-reopen_initialization_example =
    prepare_initialization-reopen_initialization 50 early completed (reopened 50 early 9 completed)
      reopen-completed

abbrev life : List Change
life =
    Change.finish 1 2
    ∷ Change.reopen 50 early
    ∷ Change.prepare 1 2 Mode.initialize (some 101) (some 110)
    ∷ []

bounds_of-change_all_example :
    bounds_of (row_for 1 2 (change_all life unfinished).initializations)
    ≡ bounds_of (some (started 1 2 9 101 102))
bounds_of-change_all_example = bounds_of-change_all 1 2 life unfinished (started 1 2 9 101 102) refl

-- The plan up to day 110 resumes the baseline up to day 102.
accepts_first-initialization_actions_example :
    accepts_first 1 2 unfinished (
      initialization_actions 101 110 9
        (row_for 1 2 unfinished.initializations)
        (has_history 1 2 unfinished))
    ≡ true
accepts_first-initialization_actions_example =
    accepts_first-initialization_actions 1 2 101 110 registered unfinished refl
