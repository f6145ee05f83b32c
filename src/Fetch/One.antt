-- ===== src/Fetch/One.antt =====
-- `_fetch_one` of pipeline/update.py: one request, with retries.
use bagelquant_data.Prelude.{
  ℕ, zero, suc, ◌+◌, ◌-◌, Bool, true, false, ◌&&◌, Option, none, some, List, ◌==◌, if◌then◌else◌,
}
use bagelquant_data.Fetch.Page.{KeyPart, Request, PageStatus, Problem, FetchPage, Answer, Outside}

pub data Verdict (Frame : Type 0) : Type 0 where
  accepted : Frame → Verdict Frame
  rejected : Problem → Verdict Frame

abbrev pub is_omitted : Option Problem → Bool
is_omitted (some Problem.omitted_scope) = true
is_omitted _ = false

module _ {Frame W : Type 0} (env : Outside Frame W) where
  -- The body of the `try`.
  abbrev pub judge : Bool → Answer Frame → Verdict Frame
  judge nonempty Answer.raised = Verdict.rejected Problem.provider_error
  judge nonempty Answer.returned_other = Verdict.rejected Problem.provider_error
  judge nonempty (Answer.returned f) =
      if nonempty && env.height f == 0
      then Verdict.rejected Problem.omitted_scope
      else Verdict.accepted f

  module _ (key : List KeyPart) (request : Request) (nonempty : Bool) where
    -- A page without a frame, after `attempts` calls.
    abbrev pub stopped : PageStatus → ℕ → Problem → FetchPage Frame
    stopped status attempts problem = record {
      request_key = key;
      request_params = request;
      frame = none;
      status = status;
      row_count = 0;
      retry_count = attempts - 1;
      error_message = some problem;
      request_attempts = attempts;
      buffer_limit_exceeded = false;
      discarded = false;
    }

    abbrev pub succeeded : ℕ → Frame → FetchPage Frame
    succeeded attempt f = record {
      request_key = key;
      request_params = request;
      frame = some f;
      status = PageStatus.success;
      row_count = env.height f;
      retry_count = attempt;
      error_message = none;
      request_attempts = attempt + 1;
      buffer_limit_exceeded = false;
      discarded = false;
    }

    -- After the loop.
    abbrev pub given_up : ℕ → Option Problem → FetchPage Frame
    given_up attempts last =
        stopped (if is_omitted last then PageStatus.invalid else PageStatus.failed) attempts
          (elim last [ none ↦ Problem.unknown_error | some p ↦ p ])

    -- The loop with `left` attempts to go, after `attempt` of them and the error `last`.
    unfoldable pub attempts_from : ℕ → ℕ → Option Problem → W → FetchPage Frame × W
    attempts_from zero attempt last w = (given_up attempt last, w)
    attempts_from (suc left) attempt last w =
        let asked = env.cancelled w in
        elim asked.0 [
          | true ↦ (stopped PageStatus.cancelled attempt Problem.cancelled_before_retry, asked.1)
          | false ↦
              let admission = env.admitted asked.1 in
              elim admission.0 [
                | false ↦ (
                  stopped PageStatus.cancelled attempt Problem.cancelled_before_retry,
                  admission.1,
                )
                | true ↦
                    let answer = env.fetch request admission.1 in
                    elim (judge nonempty answer.0) [
                      | accepted f ↦ (succeeded attempt f, answer.1)
                      | rejected p ↦ elim (left == 0) [
                        | true ↦ attempts_from left (attempt + 1) (some p) answer.1
                        | false ↦
                            let pause = env.backed_off answer.1 in
                            elim pause.0 [
                              | false ↦ (
                                stopped PageStatus.cancelled (attempt + 1)
                                    Problem.cancelled_during_backoff,
                                pause.1,
                              )
                              | true ↦ attempts_from left (attempt + 1) (some p) pause.1
                            ]
                      ]
                    ]
              ]
        ]

  unfoldable pub fetch_one : Request → List KeyPart → ℕ → Bool → W → FetchPage Frame × W
  unfolding attempts_from
  fetch_one request key max_retries nonempty w =
      attempts_from key request nonempty max_retries 0 none w
