-- ===== src/Harvest/Response.antt =====
-- The body of `_harvest_request`, and `_split_daily_scope_results`, of pipeline/update.py.
use bagelquant_data.Prelude.{
  ℕ, ◌+◌, Bool, true, false, not, ◌&&◌, ◌||◌, Option, none, some, List, [], ◌∷◌, ◌++◌, map, ◌==◌,
  ltb, any, if◌then◌else◌, length,
}
use bagelquant_data.Requests.{DailyScope, LedgerRequest}
use bagelquant_data.Fetch.Page.{PageStatus, is_success, FetchPage}
use bagelquant_data.Ledger.Data.{Status, Call, Ledger, runtime_error}
use bagelquant_data.Ledger.Outcomes.{record_empty_scope_results}
use bagelquant_data.Ledger.Leases.{record_api_calls}
use bagelquant_data.Harvest.{
  Frames, DenseOptions, RunState, PreparedFetch, Progress, then_do, commit,
  classify_empty_daily_scopes, of_scope, empty_result, transition_request, invalidate,
}

abbrev pub is_invalid : PageStatus → Bool
is_invalid PageStatus.invalid = true
is_invalid _ = false

abbrev pub is_cancelled : PageStatus → Bool
is_cancelled PageStatus.cancelled = true
is_cancelled _ = false

module _ {Frame : Type 0} (api : Frames Frame) where
  -- The rows of a day, unless there are none.
  abbrev pub day_frame : Frame → DailyScope → Option Frame
  day_frame f s = elim (api.rows_of_day f s.scope_key) [
    | none ↦ none
    | some g ↦ if api.height g == 0 then none else some g
  ]

  abbrev pub nonempty_scopes :
      LedgerRequest → Frame → List DailyScope → List (Frame × LedgerRequest)
  nonempty_scopes r f [] = []
  nonempty_scopes r f (s ∷ ss) = elim (day_frame f s) [
    | none ↦ nonempty_scopes r f ss
    | some g ↦ (g, of_scope r s) ∷ nonempty_scopes r f ss
  ]

  abbrev pub empty_scopes : Frame → List DailyScope → List DailyScope
  empty_scopes f [] = []
  empty_scopes f (s ∷ ss) = elim (day_frame f s) [
    | none ↦ s ∷ empty_scopes f ss
    | some g ↦ empty_scopes f ss
  ]

  unfoldable pub split_daily_scope_results :
      LedgerRequest → Frame → List (Frame × LedgerRequest) × List DailyScope
  split_daily_scope_results r f =
      if api.height f == 0
      then ([], r.daily_scopes)
      else (nonempty_scopes r f r.daily_scopes, empty_scopes f r.daily_scopes)

  -- `_api_call_rows`, for the columns that the ledger keeps
  unfoldable pub api_call_rows : ℕ → LedgerRequest → List (FetchPage Frame) → List Call
  api_call_rows run r [] = []
  api_call_rows run r (p ∷ ps) =
      let rest = api_call_rows run r ps in
      if p.request_attempts == 0
      then rest
      else record {
        run_id = run;
        scope_id = r.scope_id;
        request = api.text p.request_key;
        request_attempts = p.request_attempts;
      }
        ∷ rest

  abbrev pub requests_in : List (FetchPage Frame) → ℕ
  requests_in [] = 0
  requests_in (p ∷ ps) = p.request_attempts + requests_in ps

  abbrev pub rows_in : List (FetchPage Frame) → ℕ
  rows_in [] = 0
  rows_in (p ∷ ps) = (if is_success p.status then p.row_count else 0) + rows_in ps

  abbrev pub count_pages : List (FetchPage Frame) → RunState Frame → RunState Frame
  count_pages ps st = record st {
    request_count = st.request_count + requests_in ps;
    rows_downloaded = st.rows_downloaded + rows_in ps;
  }

  abbrev pub buffer : List (Frame × LedgerRequest) → RunState Frame → RunState Frame
  buffer [] st = st
  buffer (b ∷ bs) st = buffer bs (record st {
    buffered = st.buffered ++ b ∷ [];
    buffered_bytes = st.buffered_bytes + api.estimated_size b.0;
    buffered_rows = st.buffered_rows + api.height b.0;
  })

  abbrev pub hold_calls : List Call → RunState Frame → RunState Frame
  hold_calls cs st = record st { pending_api_calls = st.pending_api_calls ++ cs }

  module _ (now : ℕ) where
    -- The call of `record_empty_scope_results` with the allowed scopes, and their count.
    abbrev pub record_allowed :
        List Call → List DailyScope → Ledger → RunState Frame → Progress Frame
    record_allowed cs ss l st =
        then_do
          (commit (record_empty_scope_results now cs (map empty_result ss) st.run_id none l) l st)
          (λ l' st'. Progress.done l' (record st' { empty_count = st'.empty_count + length ss }))

    -- What is done about the empty scopes of a daily response: `omitted` is the message for the required.
    unfoldable pub settle_empty :
        List Call
        → LedgerRequest
        → ℕ
        → List DailyScope
        → List DailyScope
        → Ledger
        → RunState Frame
        → Progress Frame
    settle_empty cs r omitted [] [] l st = Progress.done l (hold_calls cs st)
    settle_empty cs r omitted [] (a ∷ more) l st = record_allowed cs (a ∷ more) l st
    settle_empty cs r omitted (q ∷ qs) [] l st =
        invalidate now r (some omitted) (q ∷ qs) (record_api_calls cs l) st
    settle_empty cs r omitted (q ∷ qs) (a ∷ more) l st =
        then_do (invalidate now r (some omitted) (q ∷ qs) (record_api_calls cs l) st)
          (record_allowed [] (a ∷ more))

    -- A valid response to a by-date request with daily scopes.
    unfoldable pub harvest_daily :
        DenseOptions
        → ℕ
        → LedgerRequest
        → List (FetchPage Frame)
        → Frame
        → Ledger
        → RunState Frame
        → Progress Frame
    unfolding settle_empty split_daily_scope_results classify_empty_daily_scopes
    harvest_daily options omitted r ps f l st =
        let parts = split_daily_scope_results r f in
        let kinds = classify_empty_daily_scopes options parts.1 in
        then_do (settle_empty (api_call_rows st.run_id r ps) r omitted kinds.0 kinds.1 l st)
          (λ l' st'. Progress.done l' (buffer parts.0 (count_pages ps st')))

    abbrev pub failure_status : List (FetchPage Frame) → Status
    failure_status ps = if any (λ p. is_invalid p.status) ps then Status.invalid else Status.failed

    abbrev pub note_cancelled : List (FetchPage Frame) → RunState Frame → RunState Frame
    note_cancelled ps st = record st {
      cancelled = st.cancelled || any (λ p. is_cancelled p.status) ps;
    }

    -- A response with its frame: `by_date` is `update_type == "by_date"`.
    abbrev pub harvest_frame :
        DenseOptions
        → ℕ
        → Bool
        → LedgerRequest
        → PreparedFetch Frame
        → Option Frame
        → Option ℕ
        → Ledger
        → RunState Frame
        → Progress Frame
    harvest_frame options omitted by_date r fetched none e l st = Progress.raised runtime_error l st
    harvest_frame options omitted by_date r fetched (some f) (some e) l st =
        transition_request now r Status.invalid (some e)
          (record_api_calls (api_call_rows st.run_id r fetched.pages) l)
          (count_pages fetched.pages st)
    harvest_frame options omitted by_date r fetched (some f) none l st =
        if by_date && ltb 0 (length r.daily_scopes)
        then harvest_daily options omitted r fetched.pages f l st
        else Progress.done l (
            buffer ((f, r) ∷ [])
              (count_pages fetched.pages (hold_calls (api_call_rows st.run_id r fetched.pages) st)))

    -- `message` is the last failure's message, or the default; `omitted` the one for required scopes.
    unfoldable pub harvest_request :
        DenseOptions
        → ℕ
        → Bool
        → LedgerRequest
        → PreparedFetch Frame
        → ℕ
        → Ledger
        → RunState Frame
        → Progress Frame
    unfolding harvest_daily
    harvest_request options omitted by_date r fetched message l st =
        if any (λ p. not (is_success p.status)) fetched.pages
        then transition_request now r (failure_status fetched.pages) (some message)
            (record_api_calls (api_call_rows st.run_id r fetched.pages) l)
            (note_cancelled fetched.pages (count_pages fetched.pages st))
        else harvest_frame options omitted by_date r fetched fetched.frame fetched.validation_error
            l st
