-- ===== src/Fetch/Attempts.antt =====
-- What a page of `_fetch_one` says of the calls behind it.
use bagelquant_data.Prelude.{
  ℕ, zero, suc, ◌+◌, ◌-◌, ◌≤◌, ◌≡◌, refl, Bool, true, false, inl, inr, ◌⊎◌, Option, none, some,
  List, arith, ◌==◌, if◌then◌else◌, is_some, Bool-cases,
}
use bagelquant_data.Fetch.Page.{
  KeyPart, Request, PageStatus, is_success, Problem, FetchPage, Outside,
}
use bagelquant_data.Fetch.One.{Verdict, judge, is_omitted, stopped, attempts_from, fetch_one}

pub Verdict-cases :
    {Frame : Type 0} (v : Verdict Frame)
    → ((f : Frame) × (v ≡ Verdict.accepted f)) ⊎ ((p : Problem) × (v ≡ Verdict.rejected p))
Verdict-cases (Verdict.accepted f) = inl (f, refl)
Verdict-cases (Verdict.rejected p) = inr (p, refl)

module _ {Frame W : Type 0} (env : Outside Frame W) (calls : W → ℕ) where
  -- `calls` counts the provider's calls, and nothing else changes it.
  pub record IsCounter : Type 0 where
    pub on_cancelled : (w : W) → calls (env.cancelled w).1 ≡ calls w
    pub on_admitted : (w : W) → calls (env.admitted w).1 ≡ calls w
    pub on_backed_off : (w : W) → calls (env.backed_off w).1 ≡ calls w
    pub on_fetch : (r : Request) (w : W) → calls (env.fetch r w).1 ≡ calls w + 1

  -- The height of a frame, if there is one.
  abbrev pub rows_in : Option Frame → ℕ
  rows_in none = 0
  rows_in (some f) = env.height f

  -- A page with at most `most` calls, of which `before` were made before `w`.
  pub record Accounted (before most : ℕ) (w : W) (r : FetchPage Frame × W) : Type 0 where
    pub counted : calls r.1 + before ≡ calls w + r.0.request_attempts
    pub bounded : r.0.request_attempts ≤ most
    pub retried : r.0.retry_count ≡ r.0.request_attempts - 1
    pub framed : is_some r.0.frame ≡ is_success r.0.status
    pub measured : r.0.row_count ≡ rows_in r.0.frame
    pub kept : r.0.discarded ≡ false

  module _ (count : IsCounter) (key : List KeyPart) (request : Request) (nonempty : Bool) where
    stopped-Accounted :
        (status : PageStatus) (before attempts most : ℕ) (problem : Problem) (w w' : W)
        → is_success status ≡ false
        → attempts ≤ most
        → calls w' + before ≡ calls w + attempts
        → Accounted before most w (stopped env key request nonempty status attempts problem, w')
    stopped-Accounted status before attempts most problem w w' failure le n = record {
      counted = n;
      bounded = le;
      retried = refl;
      framed = rw failure refl;
      measured = refl;
      kept = refl;
    }

    gave_up : (b : Bool) → is_success (if b then PageStatus.invalid else PageStatus.failed) ≡ false
    gave_up true = refl
    gave_up false = refl

    -- One call more was made before `w'`.
    Accounted-later :
        (before most : ℕ) (w w' : W) (r : FetchPage Frame × W)
        → calls w' ≡ calls w + 1
        → Accounted (before + 1) (before + 1 + most) w' r
        → Accounted before (before + suc most) w r
    Accounted-later before most w w' r n a = record {
      counted = omega (arith, n, a.counted);
      bounded = omega (arith, a.bounded);
      retried = a.retried;
      framed = a.framed;
      measured = a.measured;
      kept = a.kept;
    }

    attempts_from-Accounted :
        (left attempt : ℕ) (last : Option Problem) (w : W)
        → Accounted attempt
            (attempt + left)
            w
            (attempts_from env key request nonempty left attempt last w)
    unfolding attempts_from
    attempts_from-Accounted zero attempt last w =
        stopped-Accounted (if is_omitted last then PageStatus.invalid else PageStatus.failed)
          attempt attempt (attempt + 0) (elim last [ none ↦ Problem.unknown_error | some p ↦ p ]) w
          w (gave_up (is_omitted last)) (omega arith) (omega arith)
    attempts_from-Accounted (suc left) attempt last w =
        let asked = env.cancelled w in
        let admission = env.admitted asked.1 in
        let answer = env.fetch request admission.1 in
        let pause = env.backed_off answer.1 in
        let asks = count.on_cancelled w in
        let admits = count.on_admitted asked.1 in
        let fetches = count.on_fetch request admission.1 in
        let pauses = count.on_backed_off answer.1 in
        elim (Bool-cases asked.0) [
          | inl cancel ↦
              rw (cancel, attempts_from)
                (stopped-Accounted PageStatus.cancelled attempt attempt (attempt + suc left)
                  Problem.cancelled_before_retry w asked.1 refl (omega arith) (omega (arith, asks)))
          | inr go ↦ elim (Bool-cases admission.0) [
            | inr deny ↦
                rw (go, deny, attempts_from)
                  (stopped-Accounted PageStatus.cancelled attempt attempt (attempt + suc left)
                    Problem.cancelled_before_retry w admission.1 refl (omega arith)
                    (omega (arith, asks, admits)))
            | inl admit ↦ elim (Verdict-cases (judge env nonempty answer.0)) [
              | inl good ↦
                  rw (go, admit, good.1, attempts_from)
                    (record {
                      counted = omega (arith, asks, admits, fetches);
                      bounded = omega arith;
                      retried = omega arith;
                      framed = refl;
                      measured = refl;
                      kept = refl;
                    })
              | inr bad ↦ elim (Bool-cases (left == 0)) [
                | inl done ↦
                    rw (go, admit, bad.1, done, attempts_from)
                      (Accounted-later attempt left w answer.1
                        (attempts_from env key request nonempty left (attempt + 1) (some bad.0)
                          answer.1)
                        (omega (arith, asks, admits, fetches))
                        (attempts_from-Accounted left (attempt + 1) (some bad.0) answer.1))
                | inr more ↦ elim (Bool-cases pause.0) [
                  | inl wait ↦
                      rw (go, admit, bad.1, more, wait, attempts_from)
                        (Accounted-later attempt left w pause.1
                          (attempts_from env key request nonempty left (attempt + 1) (some bad.0)
                            pause.1)
                          (omega (arith, asks, admits, fetches, pauses))
                          (attempts_from-Accounted left (attempt + 1) (some bad.0) pause.1))
                  | inr quit ↦
                      rw (go, admit, bad.1, more, quit, attempts_from)
                        (stopped-Accounted PageStatus.cancelled attempt (attempt + 1)
                          (attempt + suc left) Problem.cancelled_during_backoff w pause.1 refl
                          (omega arith) (omega (arith, asks, admits, fetches, pauses)))
                ]
              ]
            ]
          ]
        ]

  -- The page that `_fetch_one` returns counts exactly the provider calls that were made for it, at most
  -- `max_retries`, whatever the provider, the rate limiter and the user's cancellation do, when `calls`
  -- counts the provider's calls. Its retry count is one less than its calls (0 without a call), it has a
  -- frame exactly when it is a success, and its row count is the height of the frame, or 0 without one.
  pub fetch_one-Accounted :
      IsCounter
      → (request : Request) (key : List KeyPart) (max_retries : ℕ) (nonempty : Bool) (w : W)
      → Accounted 0 max_retries w (fetch_one env request key max_retries nonempty w)
  unfolding fetch_one
  fetch_one-Accounted count request key max_retries nonempty w =
      let a = attempts_from-Accounted count key request nonempty max_retries 0 none w in
      record {
        counted = a.counted;
        bounded = omega (arith, a.bounded);
        retried = a.retried;
        framed = a.framed;
        measured = a.measured;
        kept = a.kept;
      }
