-- ===== src/Ledger/Leases.antt =====
-- Runs and update leases in storage/data_meta.py.
use bagelquant_data.Prelude.{
  ℕ, ◌+◌, Bool, true, false, not, ◌&&◌, Option, none, some, List, [], ◌∷◌, ◌++◌, map, ◌==◌,
  if◌then◌else◌, filter, any,
}
use bagelquant_data.Ledger.Data.{
  Status, is_running, Scope, RunStatus, run_is_active, Run, Lease, Call, Ledger, runtime_error,
  integrity_error, Result, ok, err, ◌>>=◌, for_each, equals,
}
use bagelquant_data.Ledger.Scopes.{contains}

-- `begin_run`; the primary key refuses a second run of the same id.
unfoldable pub begin_run : ℕ → ℕ → ℕ → ℕ → Option ℕ → Ledger → Result Ledger
begin_run now run src name owner l =
    if any (λ r. r.run_id == run) l.runs
    then err integrity_error
    else ok (record l {
      datasets =
          map
            (λ d.
              if d.source == src && d.name == name
              then record d { update_incomplete = true }
              else d)
            l.datasets;
      runs =
          l.runs
          ++ record {
            run_id = run;
            source = src;
            dataset = name;
            status = RunStatus.active;
            finished_at = none;
            request_count = 0;
            success_count = 0;
            empty_count = 0;
            rows_committed = 0;
            error_message = none;
            owner_id = owner;
          }
            ∷ [];
    })

-- The counts that `finalize_run` writes.
pub record RunTotals : Type 0 where
  pub request_count : ℕ
  pub success_count : ℕ
  pub empty_count : ℕ
  pub rows_committed : ℕ
  pub error_message : Option ℕ

unfoldable pub finalize_run : ℕ → ℕ → RunStatus → RunTotals → Ledger → Ledger
finalize_run now run status t l = record l {
  runs =
      map
        (λ r.
          if r.run_id == run
          then record r {
            finished_at = some now;
            status = status;
            request_count = t.request_count;
            success_count = t.success_count;
            empty_count = t.empty_count;
            rows_committed = t.rows_committed;
            error_message = t.error_message;
          }
          else r)
        l.runs;
}

abbrev pub attempts_of : ℕ → List Call → ℕ
attempts_of run [] = 0
attempts_of run (c ∷ cs) = (if c.run_id == run then c.request_attempts else 0) + attempts_of run cs

-- Every run adds the attempts of its calls, which are none for a run without calls.
unfoldable pub record_api_calls : List Call → Ledger → Ledger
record_api_calls cs l = record l {
  calls = l.calls ++ cs;
  runs =
      map
        (λ r.
          if run_is_active r.status
          then record r { request_count = r.request_count + attempts_of r.run_id cs }
          else r)
        l.runs;
}

-- One tuple of the argument of `acquire_update_leases`.
pub record LeaseRequest : Type 0 where
  pub source : ℕ
  pub dataset : ℕ
  pub run_id : ℕ

abbrev pub on_dataset : LeaseRequest → Lease → Bool
on_dataset q e = e.source == q.source && e.dataset == q.dataset

-- The lease on the dataset belongs to another run, expired or not.
abbrev pub conflicts : LeaseRequest → Lease → Bool
conflicts q e = on_dataset q e && not (e.run_id == q.run_id)

abbrev pub granted : ℕ → ℕ → Option ℕ → LeaseRequest → Lease
granted now expires owner q = record {
  source = q.source;
  dataset = q.dataset;
  run_id = q.run_id;
  owner_id = elim owner [ none ↦ q.run_id | some o ↦ o ];
  heartbeat_at = now;
  lease_expires_at = expires;
}

-- The upsert on (source, dataset); `run_id` is UNIQUE over the other rows.
unfoldable pub grant : ℕ → ℕ → Option ℕ → List Lease → LeaseRequest → Result (List Lease)
grant now expires owner es q =
    if any (λ e. e.run_id == q.run_id && not (on_dataset q e)) es
    then err integrity_error
    else if any (on_dataset q) es
    then ok (map (λ e. if on_dataset q e then granted now expires owner q else e) es)
    else ok (es ++ granted now expires owner q ∷ [])

-- `ttl` is added to the time of the call; the owner is the one that `_update_owner_id` gave.
unfoldable pub acquire_update_leases : ℕ → List LeaseRequest → ℕ → Option ℕ → Ledger → Result Ledger
unfolding grant for_each
acquire_update_leases now qs ttl owner l =
    if any (λ q. any (conflicts q) l.leases) qs
    then err runtime_error
    else (for_each (grant now (now + ttl) owner) qs l.leases >>= λ es.
        ok (record l { leases = es }))

-- The run ids that `abandon_update_owner` collects.
abbrev pub owner_runs : ℕ → Ledger → List ℕ
owner_runs owner l =
    map (λ r. r.run_id) (filter (λ r. equals r.owner_id owner && run_is_active r.status) l.runs)
    ++ map (λ e. e.run_id) (filter (λ e. e.owner_id == owner) l.leases)

abbrev pub held_by_any : List ℕ → Scope → Bool
held_by_any runs s =
    is_running s.status && elim s.active_run_id [ none ↦ false | some r ↦ contains runs r ]

abbrev pub abandoned : ℕ → ℕ → Scope → Scope
abandoned now reason s = record s {
  status = Status.failed;
  active_run_id = none;
  last_error = some reason;
  updated_at = now;
}

abbrev pub cancel_run : ℕ → ℕ → Run → Run
cancel_run now reason r = record r {
  status = RunStatus.cancelled;
  finished_at = some now;
  error_message = some reason;
}

unfoldable pub abandon_update_owner : ℕ → ℕ → ℕ → Ledger → Ledger
abandon_update_owner now owner reason l =
    let runs = owner_runs owner l in
    record l {
      scopes = map (λ s. if held_by_any runs s then abandoned now reason s else s) l.scopes;
      runs =
          map
            (λ r.
              if run_is_active r.status && contains runs r.run_id
              then cancel_run now reason r
              else r)
            l.runs;
      leases = filter (λ e. not (e.owner_id == owner)) l.leases;
    }

unfoldable pub refresh_update_lease : ℕ → ℕ → ℕ → Ledger → Ledger
refresh_update_lease now run ttl l = record l {
  leases =
      map
        (λ e.
          if e.run_id == run
          then record e { heartbeat_at = now; lease_expires_at = now + ttl }
          else e)
        l.leases;
}

unfoldable pub release_update_leases : List ℕ → Ledger → Ledger
release_update_leases runs l = record l {
  leases = filter (λ e. not (contains runs e.run_id)) l.leases;
}
