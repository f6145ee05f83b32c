-- ===== src/Ledger/Outcomes.antt =====
-- The operations of storage/data_meta.py that record what a request found: transitions, empty results,
-- provider checks, and resets.
use bagelquant_data.Prelude.{
  ℕ, ◌+◌, Bool, true, false, not, ◌&&◌, Option, none, some, List, [], ◌∷◌, ◌++◌, map, ◌==◌,
  if◌then◌else◌, filter, any, length, ltb,
}
use bagelquant_data.Ledger.Data.{
  Status, is_running, is_complete, is_outcome, Scope, CheckResult, was_empty, was_nonempty, Check,
  run_is_active, Run, Call, Ledger, value_error, runtime_error, Result, ok, err, ◌>>=◌, for_each,
  equals, coalesce, of_dataset,
}
use bagelquant_data.Ledger.Scopes.{contains}

abbrev pub merge_check : Check → Check → Check
merge_check new old = record old {
  checked_through =
      if ltb old.checked_through new.checked_through
      then new.checked_through
      else old.checked_through;
  last_checked_at = new.last_checked_at;
  recheck_after = new.recheck_after;
  last_result = new.last_result;
}

-- `_upsert_provider_scope_check`
unfoldable pub upsert_check : Check → Ledger → Ledger
upsert_check c l =
    if any (λ k. k.scope_id == c.scope_id) l.checks
    then record l {
      checks = map (λ k. if k.scope_id == c.scope_id then merge_check c k else k) l.checks;
    }
    else record l { checks = l.checks ++ c ∷ [] }

-- One dict of the argument of `transition_update_scopes`; a missing key is NULL, and 0 for `row_count`.
pub record Outcome : Type 0 where
  pub scope_id : ℕ
  pub status : Status
  pub data_max_time : Option ℕ
  pub row_count : ℕ
  pub last_error : Option ℕ
  pub provider_checked_through : Option ℕ
  pub provider_recheck_after : Option ℕ

-- `id=? and active_run_id=?`
abbrev pub held : ℕ → ℕ → Scope → Bool
held id run s = s.id == id && equals s.active_run_id run

abbrev pub settled : ℕ → ℕ → Outcome → Scope → Scope
settled now run o s = record s {
  status = o.status;
  checked_through =
      if is_complete o.status
      then coalesce o.data_max_time (coalesce s.data_max_time s.checked_through)
      else s.checked_through;
  data_max_time =
      if is_complete o.status then coalesce o.data_max_time s.data_max_time else s.data_max_time;
  row_count = if is_complete o.status then o.row_count else s.row_count;
  last_success_at = if is_complete o.status then some now else s.last_success_at;
  recheck_after = none;
  last_error = o.last_error;
  active_run_id = none;
  commit_run_id = if is_complete o.status then some run else s.commit_run_id;
  updated_at = now;
}

abbrev pub update_held : ℕ → ℕ → (Scope → Scope) → Ledger → Ledger
update_held id run f l = record l { scopes = map (λ s. if held id run s then f s else s) l.scopes }

abbrev pub check_result : Status → CheckResult
check_result Status.empty = was_empty
check_result _ = was_nonempty

-- The provider check of a complete outcome; `through` is its `provider_checked_through`.
abbrev pub keep_check : ℕ → Outcome → Option ℕ → Ledger → Ledger
keep_check now o none l = l
keep_check now o (some through) l =
    if is_complete o.status
    then upsert_check
        (record {
          scope_id = o.scope_id;
          checked_through = through;
          last_checked_at = now;
          recheck_after = o.provider_recheck_after;
          last_result = check_result o.status;
        })
        l
    else l

-- The loop body of `_transition_scopes`.
unfoldable pub transition : ℕ → ℕ → Ledger → Outcome → Result Ledger
transition now run l o =
    if is_outcome o.status
    then (if length (filter (held o.scope_id run) l.scopes) == 1
        then ok (
            keep_check now o o.provider_checked_through
              (update_held o.scope_id run (settled now run o) l))
        else err runtime_error)
    else err value_error

abbrev pub is_success : Outcome → Bool
is_success o = elim o.status [ Status.success ↦ true | _ ↦ false ]

-- `where run_id=? and status='running'`
abbrev pub active_run : ℕ → Run → Bool
active_run run r = r.run_id == run && run_is_active r.status

abbrev pub count_success : List Outcome → ℕ → ℕ → Ledger → Ledger
count_success os run committed l =
    let n = length (filter is_success os) in
    if n == 0 then l else record l {
      runs =
          map
            (λ r.
              if active_run run r
              then record r {
                success_count = r.success_count + n;
                rows_committed = r.rows_committed + committed;
              }
              else r)
            l.runs;
    }

unfoldable pub transition_update_scopes : ℕ → List Outcome → ℕ → ℕ → Ledger → Result Ledger
unfolding transition for_each
transition_update_scopes now os run committed l =
    for_each (transition now run) os l >>= λ l'. ok (count_success os run committed l')

-- One dict of `scope_results`.
pub record EmptyResult : Type 0 where
  pub scope_id : ℕ
  pub checked_through : Option ℕ
  pub recheck_after : Option ℕ

-- The first loop of `record_empty_scope_results`: the claim is held and the watermark is given.
unfoldable pub empty_results_valid : ℕ → List EmptyResult → Ledger → Result (Unit {0})
empty_results_valid run [] l = ok tt
empty_results_valid run (r ∷ rs) l =
    if any (λ s. held r.scope_id run s && is_running s.status) l.scopes
    then elim r.checked_through [ none ↦ err value_error | some _ ↦ empty_results_valid run rs l ]
    else err runtime_error

abbrev pub emptied : ℕ → Scope → Scope
emptied now s = record s {
  status = Status.empty;
  last_error = none;
  active_run_id = none;
  updated_at = now;
}

abbrev pub empty_check : ℕ → EmptyResult → ℕ → Check
empty_check now r through = record {
  scope_id = r.scope_id;
  checked_through = through;
  last_checked_at = now;
  recheck_after = r.recheck_after;
  last_result = was_empty;
}

-- The body of its second loop; `through` is the `checked_through` of the result.
unfoldable pub record_empty_through : ℕ → ℕ → Ledger → EmptyResult → Option ℕ → Result Ledger
record_empty_through now run l r none = err value_error
record_empty_through now run l r (some through) =
    if length (filter (held r.scope_id run) l.scopes) == 1
    then ok (update_held r.scope_id run (emptied now) (upsert_check (empty_check now r through) l))
    else err runtime_error

unfoldable pub record_empty : ℕ → ℕ → Ledger → EmptyResult → Result Ledger
unfolding record_empty_through
record_empty now run l r = record_empty_through now run l r r.checked_through

abbrev pub count_empty : ℕ → ℕ → ℕ → Ledger → Result Ledger
count_empty requests n run l =
    if length (filter (active_run run) l.runs) == 1
    then ok (record l {
      runs =
          map
            (λ r.
              if active_run run r
              then record r {
                request_count = r.request_count + requests;
                empty_count = r.empty_count + n;
              }
              else r)
            l.runs;
    })
    else err runtime_error

unfoldable pub record_empty_scope_results :
    ℕ → List Call → List EmptyResult → ℕ → Option ℕ → Ledger → Result Ledger
unfolding empty_results_valid record_empty for_each
record_empty_scope_results now [] rs run given l = err value_error
record_empty_scope_results now (c ∷ cs) rs run given l =
    let n : ℕ = elim given [ none ↦ length rs | some g ↦ g ] in
    if n == 0
    then err value_error
    else (empty_results_valid run rs l >>= λ _.
        for_each (record_empty now run) rs (record l { calls = l.calls ++ (c ∷ cs) }) >>= λ l'.
        count_empty (length (c ∷ cs)) n run l')

unfoldable pub record_empty_scope_result :
    ℕ → List Call → Option ℕ → ℕ → Option ℕ → Option ℕ → Ledger → Result Ledger
unfolding record_empty_scope_results
record_empty_scope_result now calls scope run through recheck l =
    record_empty_scope_results now calls
      (elim scope [
        | none ↦ []
        | some id ↦
            record { scope_id = id; checked_through = through; recheck_after = recheck } ∷ []
      ])
      run (some 1) l

abbrev pub reset_scope : ℕ → Bool → Scope → Scope
reset_scope now clear s = record s {
  status = Status.pending;
  checked_through = if clear then none else s.checked_through;
  last_error = none;
  active_run_id = none;
  recheck_after = none;
  updated_at = now;
}

abbrev pub resettable : List ℕ → Scope → Bool
resettable ids s = contains ids s.id && is_outcome s.status

-- The new ledger and the number of scopes that were reset.
unfoldable pub reset_update_scopes : ℕ → List ℕ → Bool → Ledger → Ledger × ℕ
reset_update_scopes now ids clear l =
    let flagged = record l {
      datasets =
          map
            (λ d.
              if any (λ s. contains ids s.id && of_dataset d.source d.name s) l.scopes
              then record d { update_incomplete = true }
              else d)
            l.datasets;
    } in
    let cleared =
      if clear
      then record flagged { checks = filter (λ c. not (contains ids c.scope_id)) flagged.checks }
      else flagged in
    (
      record cleared {
        scopes = map (λ s. if resettable ids s then reset_scope now clear s else s) l.scopes;
      },
      length (filter (resettable ids) l.scopes),
    )
