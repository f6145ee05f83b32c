-- ===== src/Harvest/Conservation.antt =====
-- Each daily scope of a response is accounted for once; and the response that cannot be recorded.
use bagelquant_data.Prelude.{
  ℕ, suc, ◌+◌, ◌<◌, ◌≡◌, refl, Bool, true, false, not, inl, inr, Option, none, some, List, [], ◌∷◌,
  ◌++◌, map, arith, ◌==◌, any, filter, length, Bool-cases, Option-cases,
}
use bagelquant_data.Requests.{DailyScope, LedgerRequest}
use bagelquant_data.Fetch.Page.{is_success, FetchPage}
use bagelquant_data.Ledger.Data.{Status, Call, Ledger, Result, ok, err}
use bagelquant_data.Ledger.Outcomes.{record_empty_scope_results, transition_update_scopes}
use bagelquant_data.Ledger.Leases.{record_api_calls}
use bagelquant_data.Harvest.{
  Frames, DenseOptions, RunState, PreparedFetch, Progress, has_raised, state_after, then_do, commit,
  classify_empty_daily_scopes, is_required, of_scope, empty_result, failed_outcome,
  transition_request, invalidate, count_outcome,
}
use bagelquant_data.Harvest.Response.{
  day_frame, nonempty_scopes, empty_scopes, split_daily_scope_results, api_call_rows, count_pages,
  buffer, record_allowed, settle_empty, harvest_daily, harvest_request,
}

-- The daily scopes that a run has dealt with: buffered, recorded as empty, or invalid.
abbrev pub accounted : {Frame : Type 0} → RunState Frame → ℕ
accounted st = length st.buffered + st.empty_count + st.invalid_count

length-snoc {ℓ} : {A : Type ℓ} (x : A) (xs : List A) → length (xs ++ x ∷ []) ≡ length xs + 1
length-snoc x [] = refl
length-snoc x (y ∷ ys) = omega (arith, length-snoc x ys)

length-partition {ℓ} :
    {A : Type ℓ} (p : A → Bool) (xs : List A)
    → length (filter p xs) + length (filter (λ x. not (p x)) xs) ≡ length xs
length-partition p [] = refl
length-partition p (x ∷ xs) = ground (arith, length-partition p xs)

module _ {Frame : Type 0} where
  -- `n` more scopes are accounted for, if nothing was raised.
  abbrev pub Adds : ℕ → RunState Frame → Progress Frame → Type 0
  Adds n st (Progress.done l st') = accounted st' ≡ accounted st + n
  Adds n st (Progress.raised e l st') = Unit

  then_do-Adds :
      (n m : ℕ) (st : RunState Frame) (p : Progress Frame)
      (f : Ledger → RunState Frame → Progress Frame)
      → Adds n st p
      → ((l : Ledger) (st' : RunState Frame) → Adds m st' (f l st'))
      → Adds (n + m) st (then_do p f)
  then_do-Adds n m st (Progress.raised e l st') f h k = tt
  then_do-Adds n m st (Progress.done l st') f h k = weaken (f l st') (k l st')
    where
      weaken : (q : Progress Frame) → Adds m st' q → Adds (n + m) st q
      weaken (Progress.raised e l'' st'') a = tt
      weaken (Progress.done l'' st'') a = omega (arith, h, a)

  commit-Adds : (r : Result Ledger) (l : Ledger) (st : RunState Frame) → Adds 0 st (commit r l st)
  commit-Adds (ok l') l st = omega arith
  commit-Adds (err e) l st = tt

  -- Raising goes through.
  then_do-raised :
      (p : Progress Frame) (f : Ledger → RunState Frame → Progress Frame)
      → ((l : Ledger) (st : RunState Frame) → has_raised (f l st) ≡ true)
      → has_raised (then_do p f) ≡ true
  then_do-raised (Progress.raised e l st) f h = refl
  then_do-raised (Progress.done l st) f h = h l st

  raised-then_do :
      (p : Progress Frame) (f : Ledger → RunState Frame → Progress Frame)
      → has_raised p ≡ true
      → has_raised (then_do p f) ≡ true
  raised-then_do (Progress.raised e l st) f h = refl
  raised-then_do (Progress.done l st) f h = absurd (cc h)

  Adds-equal :
      {n m : ℕ} → n ≡ m → (st : RunState Frame) (p : Progress Frame) → Adds n st p → Adds m st p
  Adds-equal e st p h = rw e at h

  invalidate-Adds :
      (now : ℕ) (r : LedgerRequest) (error : Option ℕ) (ss : List DailyScope) (l : Ledger)
      (st : RunState Frame)
      → Adds (length ss) st (invalidate now r error ss l st)
  unfolding invalidate transition_request
  invalidate-Adds now r error [] l st = omega arith
  invalidate-Adds now r error (s ∷ ss) l st =
      let one = transition_request now (of_scope r s) Status.invalid error l st in
      Adds-equal {n = 1 + length ss} {m = suc (length ss)} (omega arith) st
        (then_do one (invalidate now r error ss))
        (then_do-Adds 1 (length ss) st one (invalidate now r error ss)
          (Adds-equal {n = 0 + 1} {m = 1} refl st one (
            then_do-Adds 0 1 st
              (commit
                (transition_update_scopes now
                  (map (failed_outcome Status.invalid error) (s.scope_id ∷ [])) st.run_id 0 l)
                l st)
              (λ l' st'. Progress.done l' (count_outcome Status.invalid 1 st'))
              (commit-Adds
                (transition_update_scopes now
                  (map (failed_outcome Status.invalid error) (s.scope_id ∷ [])) st.run_id 0 l)
                l st)
              (λ l' st'. omega arith)))
          (invalidate-Adds now r error ss))

module _ {Frame : Type 0} (api : Frames Frame) where
  accounted-buffer :
      (bs : List (Frame × LedgerRequest)) (st : RunState Frame)
      → accounted (buffer api bs st) ≡ accounted st + length bs
  accounted-buffer [] st = omega arith
  accounted-buffer (b ∷ bs) st = omega (
    arith,
    accounted-buffer bs (record st {
      buffered = st.buffered ++ b ∷ [];
      buffered_bytes = st.buffered_bytes + api.estimated_size b.0;
      buffered_rows = st.buffered_rows + api.height b.0;
    }),
    length-snoc b st.buffered,
  )

  record_allowed-Adds :
      (now : ℕ) (cs : List Call) (ss : List DailyScope) (l : Ledger) (st : RunState Frame)
      → Adds (length ss) st (record_allowed api now cs ss l st)
  record_allowed-Adds now cs ss l st =
      let tried = record_empty_scope_results now cs (map empty_result ss) st.run_id none l in
      Adds-equal {n = 0 + length ss} {m = length ss} (omega arith) st
        (record_allowed api now cs ss l st)
        (then_do-Adds 0 (length ss) st (commit tried l st)
          (λ l' st'. Progress.done l' (record st' { empty_count = st'.empty_count + length ss }))
          (commit-Adds tried l st) (λ l' st'. omega arith))

  settle_empty-Adds :
      (now : ℕ) (cs : List Call) (r : LedgerRequest) (omitted : ℕ) (qs bs : List DailyScope)
      (l : Ledger) (st : RunState Frame)
      → Adds (length qs + length bs) st (settle_empty api now cs r omitted qs bs l st)
  unfolding settle_empty
  settle_empty-Adds now cs r omitted [] [] l st = omega arith
  settle_empty-Adds now cs r omitted [] (a ∷ more) l st =
      Adds-equal (omega arith) st (record_allowed api now cs (a ∷ more) l st)
        (record_allowed-Adds now cs (a ∷ more) l st)
  settle_empty-Adds now cs r omitted (q ∷ qs) [] l st =
      let p = invalidate now r (some omitted) (q ∷ qs) (record_api_calls cs l) st in
      Adds-equal (omega arith) st p
        (invalidate-Adds now r (some omitted) (q ∷ qs) (record_api_calls cs l) st)
  settle_empty-Adds now cs r omitted (q ∷ qs) (a ∷ more) l st =
      then_do-Adds (length (q ∷ qs)) (length (a ∷ more)) st
        (invalidate now r (some omitted) (q ∷ qs) (record_api_calls cs l) st)
        (record_allowed api now [] (a ∷ more))
        (invalidate-Adds now r (some omitted) (q ∷ qs) (record_api_calls cs l) st)
        (record_allowed-Adds now [] (a ∷ more))

  split_length :
      (r : LedgerRequest) (f : Frame) (ss : List DailyScope)
      → length (nonempty_scopes api r f ss) + length (empty_scopes api f ss) ≡ length ss
  split_length r f [] = refl
  split_length r f (s ∷ ss) = elim (Option-cases (day_frame api f s)) [
    | inl gone ↦ rw (gone, nonempty_scopes, empty_scopes) (omega (arith, split_length r f ss))
    | inr found ↦ rw (found.1, nonempty_scopes, empty_scopes) (omega (arith, split_length r f ss))
  ]

  length-split_daily_scope_results :
      (r : LedgerRequest) (f : Frame)
      → length (split_daily_scope_results api r f).0 + length (split_daily_scope_results api r f).1
        ≡ length r.daily_scopes
  unfolding split_daily_scope_results
  length-split_daily_scope_results r f = elim (Bool-cases (api.height f == 0)) [
    | inl e ↦ rw e (omega arith)
    | inr e ↦ rw e (split_length r f r.daily_scopes)
  ]

  module _ (now : ℕ) (options : DenseOptions) (omitted : ℕ) (r : LedgerRequest) (f : Frame) where
    harvest_daily-Adds :
        (ps : List (FetchPage Frame)) (l : Ledger) (st : RunState Frame)
        → Adds (length r.daily_scopes) st (harvest_daily api now options omitted r ps f l st)
    unfolding harvest_daily classify_empty_daily_scopes
    harvest_daily-Adds ps l st =
        let parts = split_daily_scope_results api r f in
        let kinds = classify_empty_daily_scopes options parts.1 in
        let first =
          settle_empty api now (api_call_rows api st.run_id r ps) r omitted kinds.0 kinds.1 l st in
        Adds-equal
          (omega (
            arith,
            length-partition (is_required options) parts.1,
            length-split_daily_scope_results r f,
          ))
          st (harvest_daily api now options omitted r ps f l st)
          (then_do-Adds (length kinds.0 + length kinds.1) (length parts.0) st first
            (λ l' st'. Progress.done l' (buffer api parts.0 (count_pages api ps st')))
            (settle_empty-Adds now (api_call_rows api st.run_id r ps) r omitted kinds.0 kinds.1 l
              st)
            (λ l' st'. accounted-buffer parts.0 (count_pages api ps st')))

    -- The second call of `record_empty_scope_results` has no API calls.
    mixed-raises :
        (cs : List Call) (qs bs : List DailyScope) (l : Ledger) (st : RunState Frame)
        → 0 < length qs
        → 0 < length bs
        → has_raised (settle_empty api now cs r omitted qs bs l st) ≡ true
    unfolding settle_empty record_empty_scope_results
    mixed-raises cs [] bs l st some_required some_allowed = absurd (omega (arith, some_required))
    mixed-raises cs (q ∷ qs) [] l st some_required some_allowed =
        absurd (omega (arith, some_allowed))
    mixed-raises cs (q ∷ qs) (b ∷ bs) l st some_required some_allowed =
        then_do-raised (invalidate now r (some omitted) (q ∷ qs) (record_api_calls cs l) st)
          (record_allowed api now [] (b ∷ bs)) (λ l' st'. refl)

    module _ (fetched : PreparedFetch Frame) (message : ℕ) (l : Ledger) (st : RunState Frame)
        (fine : any (λ p. not (is_success p.status)) fetched.pages ≡ false)
        (has_frame : fetched.frame ≡ some f) (valid : fetched.validation_error ≡ none)
        (daily : 0 < length r.daily_scopes) where
      is_daily :
          harvest_request api now options omitted true r fetched message l st
          ≡ harvest_daily api now options omitted r fetched.pages f l st
      unfolding harvest_request
      is_daily = rw (fine, has_frame, valid) (ground (arith, daily))

      -- Let all pages of a by-date response be successes, its frame valid, and its request have daily
      -- scopes. If the harvest does not raise, then the scopes that the run has buffered, recorded as
      -- empty or counted as invalid are more than before by exactly the request's daily scopes.
      pub accounted-harvest_request :
          has_raised (harvest_request api now options omitted true r fetched message l st) ≡ false
          → accounted
              (state_after (harvest_request api now options omitted true r fetched message l st))
            ≡ accounted st + length r.daily_scopes
      accounted-harvest_request = rw is_daily (
          returned (harvest_daily api now options omitted r fetched.pages f l st)
            (harvest_daily-Adds fetched.pages l st))
        where
          returned :
              (p : Progress Frame)
              → Adds (length r.daily_scopes) st p
              → has_raised p ≡ false
              → accounted (state_after p) ≡ accounted st + length r.daily_scopes
          returned (Progress.done l' st') a h = a
          returned (Progress.raised e l' st') a h = absurd (cc h)

      -- Let all pages of a by-date response be successes, its frame valid, and its request have daily
      -- scopes. If some scope that the response leaves empty is required to have rows, and some other is
      -- not, then the harvest raises, whatever the ledger holds.
      pub harvest_request-raises :
          0 < length (classify_empty_daily_scopes options (split_daily_scope_results api r f).1).0
          → 0 < length (classify_empty_daily_scopes options (split_daily_scope_results api r f).1).1
          → has_raised (harvest_request api now options omitted true r fetched message l st) ≡ true
      unfolding harvest_daily
      harvest_request-raises some_required some_allowed =
          let parts = split_daily_scope_results api r f in
          let kinds = classify_empty_daily_scopes options parts.1 in
          let cs = api_call_rows api st.run_id r fetched.pages in
          rw is_daily (
            raised-then_do (settle_empty api now cs r omitted kinds.0 kinds.1 l st)
              (λ l' st'. Progress.done l' (buffer api parts.0 (count_pages api fetched.pages st')))
              (mixed-raises cs kinds.0 kinds.1 l st some_required some_allowed))
