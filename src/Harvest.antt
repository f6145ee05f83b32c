-- ===== src/Harvest.antt =====
-- `_harvest_request` of pipeline/update.py: what a fetched response does to the ledger and to the run.
-- The metadata calls are transactions of their own: what they committed stays when a later one raises.
pub mod Response
pub mod Conservation
mod Tests
use bagelquant_data.Prelude.{
  ℕ, ◌+◌, Bool, true, false, not, ◌&&◌, ◌||◌, Option, none, some, List, [], ◌∷◌, ◌++◌, map, ltb,
  leb, ◌==◌, if◌then◌else◌, filter, any, length, is_some,
}
use bagelquant_data.Requests.{DailyScope, LedgerRequest, scope_ids}
use bagelquant_data.Fetch.Page.{KeyPart, PageStatus, is_success, Problem, FetchPage}
use bagelquant_data.Ledger.Data.{Status, Call, Ledger, Error, runtime_error, Result, ok, err}
use bagelquant_data.Ledger.Outcomes.{
  Outcome, transition_update_scopes, EmptyResult, record_empty_scope_results,
}
use bagelquant_data.Ledger.Leases.{record_api_calls}

-- The data frame functions that the harvest calls; `rows_of_day` is a lookup in `groups`, the response
-- partitioned by date. `text` is the number of a request key.
pub record Frames (Frame : Type 0) : Type 0 where
  pub height : Frame → ℕ
  pub estimated_size : Frame → ℕ
  pub rows_of_day : Frame → ℕ → Option Frame
  pub text : List KeyPart → ℕ

-- The options that `_classify_empty_daily_scopes` reads.
pub record DenseOptions : Type 0 where
  pub require_nonempty_scopes : Bool
  pub required_nonempty_start : Option ℕ

-- The fields of `_RunState` that a harvest changes, without times.
pub record RunState (Frame : Type 0) : Type 0 where
  pub run_id : ℕ
  pub request_count : ℕ
  pub empty_count : ℕ
  pub failure_count : ℕ
  pub invalid_count : ℕ
  pub rows_downloaded : ℕ
  pub error_count : ℕ
  pub buffered : List (Frame × LedgerRequest)
  pub buffered_bytes : ℕ
  pub buffered_rows : ℕ
  pub pending_api_calls : List Call
  pub cancelled : Bool

-- `PreparedFetch`
pub record PreparedFetch (Frame : Type 0) : Type 0 where
  pub pages : List (FetchPage Frame)
  pub frame : Option Frame
  pub validation_error : Option ℕ

-- A harvest that returned, or raised; both leave the tables and the run's state.
pub data Progress (Frame : Type 0) : Type 0 where
  done : Ledger → RunState Frame → Progress Frame
  raised : Error → Ledger → RunState Frame → Progress Frame

abbrev pub has_raised : {Frame : Type 0} → Progress Frame → Bool
has_raised (Progress.done l st) = false
has_raised (Progress.raised e l st) = true

abbrev pub state_after : {Frame : Type 0} → Progress Frame → RunState Frame
state_after (Progress.done l st) = st
state_after (Progress.raised e l st) = st

abbrev pub then_do :
    {Frame : Type 0} → Progress Frame → (Ledger → RunState Frame → Progress Frame) → Progress Frame
then_do (Progress.done l st) f = f l st
then_do (Progress.raised e l st) f = Progress.raised e l st

-- A metadata call, whose transaction is rolled back if it raises.
abbrev pub commit : {Frame : Type 0} → Result Ledger → Ledger → RunState Frame → Progress Frame
commit (ok l') l st = Progress.done l' st
commit (err e) l st = Progress.raised e l st

-- `_classify_empty_daily_scopes`: the required and the allowed ones.
abbrev pub is_required : DenseOptions → DailyScope → Bool
is_required o s =
    o.require_nonempty_scopes
    && elim o.required_nonempty_start [ none ↦ true | some start ↦ leb start s.scope_key ]

unfoldable pub classify_empty_daily_scopes :
    DenseOptions → List DailyScope → List DailyScope × List DailyScope
classify_empty_daily_scopes o ss =
    (filter (is_required o) ss, filter (λ s. not (is_required o s)) ss)

-- The request of one day of a response.
abbrev pub of_scope : LedgerRequest → DailyScope → LedgerRequest
of_scope r s = record r {
  scope_id = some s.scope_id;
  target_end = some s.scope_key;
  recheck_after = s.recheck_after;
  daily_scopes = s ∷ [];
  range_backfill_eligible = false;
}

abbrev pub empty_result : DailyScope → EmptyResult
empty_result s = record {
  scope_id = s.scope_id;
  checked_through = some s.scope_key;
  recheck_after = none;
}

abbrev pub failed_outcome : Status → Option ℕ → ℕ → Outcome
failed_outcome status error id = record {
  scope_id = id;
  status = status;
  data_max_time = none;
  row_count = 0;
  last_error = error;
  provider_checked_through = none;
  provider_recheck_after = none;
}

-- The counts of `_transition`.
abbrev pub count_outcome : {Frame : Type 0} → Status → ℕ → RunState Frame → RunState Frame
count_outcome Status.invalid n st = record st {
  invalid_count = st.invalid_count + n;
  error_count = st.error_count + 1;
}
count_outcome Status.failed n st = record st {
  failure_count = st.failure_count + n;
  error_count = st.error_count + 1;
}
count_outcome _ n st = st

abbrev pub outcome_count : List ℕ → ℕ
outcome_count [] = 1
outcome_count (i ∷ is) = length (i ∷ is)

-- `_transition`; without scope ids it makes no metadata call, and one of no outcomes changes nothing.
unfoldable pub transition_request :
    {Frame : Type 0}
    → ℕ
    → LedgerRequest
    → Status
    → Option ℕ
    → Ledger
    → RunState Frame
    → Progress Frame
transition_request now r status error l st =
    then_do
      (commit
        (transition_update_scopes now (map (failed_outcome status error) (scope_ids r)) st.run_id 0
          l)
        l st)
      (λ l' st'. Progress.done l' (count_outcome status (outcome_count (scope_ids r)) st'))

-- The loop over the required scopes.
unfoldable pub invalidate :
    {Frame : Type 0}
    → ℕ
    → LedgerRequest
    → Option ℕ
    → List DailyScope
    → Ledger
    → RunState Frame
    → Progress Frame
unfolding transition_request
invalidate now r error [] l st = Progress.done l st
invalidate now r error (s ∷ ss) l st =
    then_do (transition_request now (of_scope r s) Status.invalid error l st)
      (invalidate now r error ss)
