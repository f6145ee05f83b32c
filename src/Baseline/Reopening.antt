-- ===== src/Baseline/Reopening.antt =====
-- `reopen_initialization`, which puts a baseline that was completed too early back to work.
use bagelquant_data.Prelude.{
  ℕ, Bool, true, false, not, ◌&&◌, ◌||◌, Option, none, some, ◌==◌, leb, if◌then◌else◌, any, map,
  is_some,
}
use bagelquant_data.Ledger.Data.{Scope, Status, DatasetFlag, is_complete, of_dataset, run_is_active}
use bagelquant_data.Baseline.{
  Baseline, Definition, Metadata, Failure, Answer, done, raised, unless, row_for, definition_for,
  has_bounds, is_initialize, set_running,
}

-- The arguments; `spec_json` is the declaration at hand, `is_item` its source "items", and `date_kind` the
-- number of the scope kind "date".
pub record Reopening : Type 0 where
  pub source : ℕ
  pub name : ℕ
  pub spec_json : ℕ
  pub is_item : Bool
  pub is_by_date : Bool
  pub has_reason : Bool
  pub start : ℕ
  pub end : ℕ
  pub date_kind : ℕ

-- `status not in ('success','empty') or active_run_id is not null`
abbrev pub is_unfinished : Scope → Bool
is_unfinished s = not (is_complete s.status) || is_some s.active_run_id

-- The daily scopes of the baseline under its definition.
abbrev pub in_baseline : Reopening → ℕ → Scope → Bool
in_baseline a hash s =
    of_dataset a.source a.name s
    && (s.spec_hash == hash
        && (s.scope_kind == a.date_kind && (leb a.start s.scope_key && leb s.scope_key a.end)))

abbrev pub has_writer : Reopening → Metadata → Bool
has_writer a m =
    any (λ e. e.source == a.source && e.dataset == a.name) m.ledger.leases
    || any (λ r. r.source == a.source && (r.dataset == a.name && run_is_active r.status))
        m.ledger.runs

abbrev pub has_later_history : Reopening → ℕ → Metadata → Bool
has_later_history a hash m =
    any
      (λ c.
        c.source == a.source
        && (c.dataset == a.name
            && (c.is_committed && (not (is_initialize c.mode) || not (c.spec_hash == hash)))))
      m.commits

abbrev pub has_prepared : Reopening → Metadata → Bool
has_prepared a m =
    any (λ c. c.source == a.source && (c.dataset == a.name && not c.is_committed)) m.commits

abbrev pub has_verified_check : Reopening → Metadata → Bool
has_verified_check a m =
    any (λ k. k.source == a.source && (k.dataset == a.name && not k.baseline)) m.checks

abbrev pub lacks_baseline_scopes : Reopening → ℕ → Metadata → Bool
lacks_baseline_scopes a hash m =
    not (any (in_baseline a hash) m.ledger.scopes)
    || any (λ s. in_baseline a hash s && is_unfinished s) m.ledger.scopes

abbrev pub reopened_scope : ℕ → Scope → Scope
reopened_scope now s = record s {
  status = Status.pending;
  checked_through = none;
  last_error = none;
  recheck_after = none;
  updated_at = now;
}

abbrev pub flag_incomplete : Reopening → DatasetFlag → DatasetFlag
flag_incomplete a d =
    if d.source == a.source && d.name == a.name then record d { update_incomplete = true } else d

-- The three updates of its transaction.
abbrev pub reopened : ℕ → Reopening → ℕ → Metadata → Metadata
reopened now a hash m = record m {
  initializations = set_running a.source a.name true m.initializations;
  ledger = record (m.ledger) {
    datasets = map (flag_incomplete a) m.ledger.datasets;
    scopes = map (λ s. if in_baseline a hash s then reopened_scope now s else s) m.ledger.scopes;
  };
}

-- The tests on the dataset's row, `row`, and on what has been written for it.
abbrev pub may_reopen : Reopening → ℕ → Option Baseline → Metadata → Bool
may_reopen a hash none m = false
may_reopen a hash (some r) m =
    (not r.is_running && has_bounds a.start a.end hash r)
    && not (
        has_writer a m
        || (any (λ s. of_dataset a.source a.name s && is_unfinished s) m.ledger.scopes
            || (has_prepared a m
                || (has_later_history a hash m
                    || (has_verified_check a m || lacks_baseline_scopes a hash m)))))

-- The transaction; `row` is the dataset's row of `datasets`, whose text `assert_definition` compares.
unfoldable pub reopen_defined : ℕ → Reopening → Option Definition → Metadata → Answer Metadata
reopen_defined now a none m = raised Failure.runtime_error
reopen_defined now a (some d) m = unless (not (d.spec_json == a.spec_json)) Failure.runtime_error (
    unless (not (may_reopen a d.spec_hash (row_for a.source a.name m.initializations) m))
      Failure.configuration_error (done (reopened now a d.spec_hash m)))

-- Without the receipt that it returns; the tests of `may_reopen` all raise ConfigurationError.
unfoldable pub reopen_initialization : ℕ → Reopening → Metadata → Answer Metadata
unfolding reopen_defined
reopen_initialization now a m = unless m.read_only Failure.permission_error (
    unless (a.is_item || (not a.is_by_date || not a.has_reason)) Failure.configuration_error
      (reopen_defined now a (definition_for a.source a.name m.definitions) m))
