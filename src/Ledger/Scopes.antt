-- ===== src/Ledger/Scopes.antt =====
-- The operations of storage/data_meta.py on `update_scopes`.
use bagelquant_data.Prelude.{
  ℕ, ◌+◌, Bool, not, ◌&&◌, Option, none, some, List, [], ◌∷◌, ◌++◌, map, ◌==◌, if◌then◌else◌,
  filter, any, length,
}
use bagelquant_data.Ledger.Data.{Status, is_running, Scope, Ledger, same_value, of_dataset}

-- `contains ids n`: n in ids
abbrev pub contains : List ℕ → ℕ → Bool
contains ids n = any (λ i. i == n) ids

-- One dict of the argument of `synchronize_update_scopes`.
pub record Declared : Type 0 where
  pub source : ℕ
  pub dataset : ℕ
  pub scope_kind : ℕ
  pub scope_key : ℕ
  pub variant_hash : ℕ
  pub initial_start : Option ℕ
  pub spec_hash : ℕ

-- The columns of the UNIQUE constraint.
abbrev pub same_identity : Declared → Scope → Bool
same_identity d s =
    d.source == s.source
    && d.dataset == s.dataset
    && d.scope_kind == s.scope_kind
    && d.scope_key == s.scope_key
    && d.variant_hash == s.variant_hash

abbrev pub outdated : Declared → Scope → Bool
outdated d s = of_dataset d.source d.dataset s && not (s.spec_hash == d.spec_hash)

-- `delete from provider_scope_checks where scope_id in (select id from update_scopes where …)`
abbrev pub delete_checks : (Scope → Bool) → Ledger → Ledger
delete_checks p l = record l {
  checks = filter (λ c. not (any (λ s. p s && s.id == c.scope_id) l.scopes)) l.checks;
}

abbrev pub fresh_scope : ℕ → ℕ → Declared → Scope
fresh_scope now id d = record {
  id = id;
  source = d.source;
  dataset = d.dataset;
  scope_kind = d.scope_kind;
  scope_key = d.scope_key;
  variant_hash = d.variant_hash;
  status = Status.pending;
  initial_start = d.initial_start;
  checked_through = none;
  data_max_time = none;
  row_count = 0;
  attempt_count = 0;
  last_attempt_at = none;
  last_success_at = none;
  recheck_after = none;
  last_error = none;
  spec_hash = d.spec_hash;
  active_run_id = none;
  commit_run_id = none;
  created_at = now;
  updated_at = now;
}

-- `do update set … where spec_hash != excluded.spec_hash or initial_start is not excluded.…`
abbrev pub redeclare : ℕ → Declared → Scope → Scope
redeclare now d s =
    if not (s.spec_hash == d.spec_hash)
    then record s {
      initial_start = d.initial_start;
      status = Status.pending;
      checked_through = none;
      last_error = none;
      active_run_id = none;
      spec_hash = d.spec_hash;
      updated_at = now;
    }
    else if not (same_value s.initial_start d.initial_start)
    then record s { initial_start = d.initial_start; spec_hash = d.spec_hash; updated_at = now }
    else s

-- The upsert of one declared scope.
unfoldable pub declare : ℕ → Ledger → Declared → Ledger
declare now l d =
    if any (same_identity d) l.scopes
    then record l {
      scopes = map (λ s. if same_identity d s then redeclare now d s else s) l.scopes;
    }
    else record l { scopes = l.scopes ++ fresh_scope now l.next_id d ∷ []; next_id = l.next_id + 1 }

-- The two loops of `synchronize_update_scopes` over the declared scopes.
unfoldable pub delete_outdated : List Declared → Ledger → Ledger
delete_outdated [] l = l
delete_outdated (d ∷ ds) l = delete_outdated ds (delete_checks (outdated d) l)

unfoldable pub declare_all : ℕ → List Declared → Ledger → Ledger
unfolding declare
declare_all now [] l = l
declare_all now (d ∷ ds) l = declare_all now ds (declare now l d)

unfoldable pub synchronize_update_scopes : ℕ → List Declared → Ledger → Ledger
unfolding delete_outdated declare_all
synchronize_update_scopes now rows l = declare_all now rows (delete_outdated rows l)

abbrev pub obsolete : ℕ → ℕ → ℕ → Scope → Bool
obsolete src name hash s =
    of_dataset src name s && not (s.spec_hash == hash) && not (is_running s.status)

-- The new ledger and the number of deleted scopes.
unfoldable pub remove_obsolete_update_scopes : ℕ → ℕ → ℕ → Ledger → Ledger × ℕ
remove_obsolete_update_scopes src name hash l =
    let cleared = delete_checks (obsolete src name hash) l in
    (
      record cleared { scopes = filter (λ s. not (obsolete src name hash s)) l.scopes },
      length (filter (obsolete src name hash) l.scopes),
    )

-- `id in (…) and status in ('pending','failed','invalid','success','empty')`
abbrev pub claimable : List ℕ → Scope → Bool
claimable ids s = contains ids s.id && not (is_running s.status)

abbrev pub claimed : ℕ → ℕ → Scope → Scope
claimed now run s = record s {
  status = Status.running;
  active_run_id = some run;
  attempt_count = s.attempt_count + 1;
  last_attempt_at = some now;
  updated_at = now;
}

-- The new ledger and the ids that were claimed.
unfoldable pub claim_update_scopes : ℕ → List ℕ → ℕ → Ledger → Ledger × List ℕ
claim_update_scopes now ids run l =
    let taken = map (λ s. s.id) (filter (claimable ids) l.scopes) in
    (
      record l {
        scopes = map (λ s. if contains taken s.id then claimed now run s else s) l.scopes;
      },
      taken,
    )
