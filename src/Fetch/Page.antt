-- ===== src/Fetch/Page.antt =====
-- `FetchPage` of pipeline/update.py, requests, options, and the provider's side. The adapter, its rate
-- limiter and the user's cancellation are not under the package's control: a state `W` of the outside
-- world decides what each of them answers. Durations and the progress callback are left out.
use bagelquant_data.Prelude.{
  ℕ, ◌+◌, Bool, true, false, ◌||◌, Option, none, some, List, [], ◌∷◌, ◌++◌, map, leb, is_some, all,
}

-- A step of a request key: an index, or one of the words.
pub data KeyPart : Type 0 where
  at : ℕ → KeyPart
  leaf exhausted : KeyPart

-- The params of a request. `start` and `end`, the bounds of its range, and `limit` and `offset` are the
-- ones that paging writes, whatever their configured names; `other` stands for the others.
pub record Request : Type 0 where
  pub start : Option ℕ
  pub end : Option ℕ
  pub limit : Option ℕ
  pub offset : Option ℕ
  pub other : ℕ

pub data PageStatus : Type 0 where
  success invalid failed cancelled : PageStatus

abbrev pub is_success : PageStatus → Bool
is_success PageStatus.success = true
is_success _ = false

-- What an error message says.
pub data Problem : Type 0 where
  provider_error unknown_error omitted_scope : Problem
  cancelled_before_retry cancelled_during_backoff : Problem
  repeated_page max_pages_exhausted buffer_exceeded row_limit_reached : Problem
  bad_policy bad_limits missing_bounds start_after_end : Problem

module _ (Frame : Type 0) where
  pub record FetchPage : Type 0 where
    pub request_key : List KeyPart
    pub request_params : Request
    pub frame : Option Frame
    pub status : PageStatus
    pub row_count : ℕ
    pub retry_count : ℕ
    pub error_message : Option Problem
    pub request_attempts : ℕ
    pub buffer_limit_exceeded : Bool
    pub discarded : Bool

  -- What `fetch` does: raise, or return a data frame or something else.
  pub data Answer : Type 0 where
    raised returned_other : Answer
    returned : Frame → Answer

  -- `cancelled`, `admitted` and `backed_off` are `cancel_requested`, `wait_for_request` and
  -- `_cooperative_backoff`, false when they do not go on; `admitted` is true for an adapter without one.
  pub record Outside (W : Type 0) : Type 0 where
    pub cancelled : W → Bool × W
    pub admitted : W → Bool × W
    pub backed_off : W → Bool × W
    pub fetch : Request → W → Answer × W
    pub height : Frame → ℕ
    pub estimated_size : Frame → ℕ
    pub digest : Frame → ℕ

-- The request options that paging reads, as numbers.
pub record PageOptions : Type 0 where
  pub page_size : ℕ
  pub offset_start : ℕ
  pub max_pages : ℕ
  pub row_limit : Option ℕ
  pub minimum_window_days : ℕ
  pub buffer_limit_bytes : ℕ
  pub require_nonempty_response : Bool
  pub max_retries : ℕ

module _ {Frame W : Type 0} (env : Outside Frame W) where
  -- `_invalid_pagination_page`
  abbrev pub invalid_page : List KeyPart → Request → Problem → FetchPage Frame
  invalid_page key request problem = record {
    request_key = key;
    request_params = request;
    frame = none;
    status = PageStatus.invalid;
    row_count = 0;
    retry_count = 0;
    error_message = some problem;
    request_attempts = 0;
    buffer_limit_exceeded = false;
    discarded = false;
  }

  abbrev pub frame_size : Option Frame → ℕ
  frame_size none = 0
  frame_size (some f) = env.estimated_size f

  abbrev pub retained_bytes : List (FetchPage Frame) → ℕ
  retained_bytes [] = 0
  retained_bytes (p ∷ ps) = frame_size p.frame + retained_bytes ps

  abbrev pub drop_frame : FetchPage Frame → FetchPage Frame
  drop_frame p = record p { frame = none; discarded = p.discarded || is_some p.frame }

  -- `_bound_pages`: its result, and the pages as it leaves them.
  unfoldable pub bound_pages :
      ℕ → List KeyPart → Request → List (FetchPage Frame) → Bool × List (FetchPage Frame)
  bound_pages limit key request ps = elim (leb (retained_bytes ps) limit) [
    | true ↦ (true, ps)
    | false ↦ (
      false,
      map drop_frame ps
          ++ record (invalid_page key request Problem.buffer_exceeded) {
            buffer_limit_exceeded = true;
          }
            ∷ [],
    )
  ]

abbrev pub all_success : {Frame : Type 0} → List (FetchPage Frame) → Bool
all_success ps = all (λ p. is_success p.status) ps
