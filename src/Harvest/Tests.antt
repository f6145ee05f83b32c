-- ===== src/Harvest/Tests.antt =====
-- Harvests of a response for the days 11, 12 and 13, which has rows for day 12 only.
use bagelquant_data.Prelude.{
  ℕ, ◌+◌, ◌≡◌, refl, true, false, none, some, [], ◌∷◌, ◌==◌, if◌then◌else◌, arith,
}
use bagelquant_data.Requests.{DailyScope, Kind, LedgerRequest}
use bagelquant_data.Ledger.Data.{Status, Scope, RunStatus, Ledger}
use bagelquant_data.Fetch.Page.{PageStatus, FetchPage}
use bagelquant_data.Ledger.Outcomes.{upsert_check, record_empty_scope_results}
use bagelquant_data.Harvest.{
  Frames, DenseOptions, RunState, PreparedFetch, has_raised, state_after,
  classify_empty_daily_scopes,
}
use bagelquant_data.Harvest.Response.{api_call_rows, harvest_request, split_daily_scope_results}
use bagelquant_data.Harvest.Conservation.{
  accounted, accounted-harvest_request, harvest_request-raises,
}

-- A frame is its number of rows, all of day 12.
abbrev of_day_12 : Frames ℕ
of_day_12 = record {
  height = λ f. f;
  estimated_size = λ f. f;
  rows_of_day = λ f d. if d == 12 then some f else none;
  text = λ key. 0;
}

abbrev day : ℕ → DailyScope
day d = record { scope_id = d; scope_key = d; recheck_after = none }

abbrev three_days : LedgerRequest
three_days = record {
  params = record { date = none; start = some 11; end = some 13; other = 0 };
  scope_id = none;
  request_kind = Kind.initial_range_backfill;
  target_end = some 13;
  recheck_after = none;
  overlaps_existing = false;
  previous_data_max_time = none;
  daily_scopes = day 11 ∷ day 12 ∷ day 13 ∷ [];
  scope_ordinal = some 0;
  variant_hash = some 4;
  range_backfill_eligible = true;
  request_date_field = none;
  require_nonempty_response = false;
}

abbrev one_page : FetchPage ℕ
one_page = record {
  request_key = [];
  request_params = record {
    start = some 11;
    end = some 13;
    limit = none;
    offset = none;
    other = 0;
  };
  frame = none;
  status = PageStatus.success;
  row_count = 5;
  retry_count = 0;
  error_message = none;
  request_attempts = 1;
  buffer_limit_exceeded = false;
  discarded = false;
}

abbrev five_rows : PreparedFetch ℕ
five_rows = record { pages = one_page ∷ []; frame = some 5; validation_error = none }

abbrev run_seven : RunState ℕ
run_seven = record {
  run_id = 7;
  request_count = 0;
  empty_count = 0;
  failure_count = 0;
  invalid_count = 0;
  rows_downloaded = 0;
  error_count = 0;
  buffered = [];
  buffered_bytes = 0;
  buffered_rows = 0;
  pending_api_calls = [];
  cancelled = false;
}

abbrev claimed_day : ℕ → Scope
claimed_day d = record {
  id = d;
  source = 1;
  dataset = 2;
  scope_kind = 3;
  scope_key = d;
  variant_hash = 4;
  status = Status.running;
  initial_start = none;
  checked_through = none;
  data_max_time = none;
  row_count = 0;
  attempt_count = 1;
  last_attempt_at = none;
  last_success_at = none;
  recheck_after = none;
  last_error = none;
  spec_hash = 9;
  active_run_id = some 7;
  commit_run_id = none;
  created_at = 0;
  updated_at = 0;
}

-- Run 7 holds the three days.
abbrev three_claimed : Ledger
three_claimed = record {
  scopes = claimed_day 11 ∷ claimed_day 12 ∷ claimed_day 13 ∷ [];
  next_id = 14;
  checks = [];
  runs =
      record {
        run_id = 7;
        source = 1;
        dataset = 2;
        status = RunStatus.active;
        finished_at = none;
        request_count = 0;
        success_count = 0;
        empty_count = 0;
        rows_committed = 0;
        error_message = none;
        owner_id = none;
      }
      ∷ [];
  leases = [];
  calls = [];
  datasets = [];
}

abbrev sparse : DenseOptions
sparse = record { require_nonempty_scopes = false; required_nonempty_start = none }

-- Day 13 must have rows, day 11 need not.
abbrev dense_from_12 : DenseOptions
dense_from_12 = record { require_nonempty_scopes = true; required_nonempty_start = some 12 }

accounted-harvest_request_example :
    accounted (
      state_after
        (harvest_request of_day_12 20 sparse 1 true three_days five_rows 2 three_claimed run_seven))
    ≡ 0 + 3
unfolding harvest_request split_daily_scope_results classify_empty_daily_scopes
    record_empty_scope_results api_call_rows upsert_check
accounted-harvest_request_example =
    accounted-harvest_request of_day_12 20 sparse 1 three_days 5 five_rows 2 three_claimed run_seven
      refl refl refl (omega arith) refl

harvest_request-raises_example :
    has_raised (
      harvest_request of_day_12 20 dense_from_12 1 true three_days five_rows 2 three_claimed
        run_seven)
    ≡ true
unfolding split_daily_scope_results classify_empty_daily_scopes
harvest_request-raises_example =
    harvest_request-raises of_day_12 20 dense_from_12 1 three_days 5 five_rows 2 three_claimed
      run_seven refl refl refl (omega arith) (omega arith) (omega arith)
