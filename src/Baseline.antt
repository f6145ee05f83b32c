-- ===== src/Baseline.antt =====
-- The baselines of pipeline/initialization.py and the plans of pipeline/planning.py. Dates are ordinals,
-- and dataset_initializations stands beside the tables of Ledger.
mod Reopening
pub mod Agreement
pub mod Frozen
mod Tests
use bagelquant_data.Prelude.{
  ℕ, Bool, true, false, not, ◌&&◌, ◌||◌, Option, none, some, List, [], ◌∷◌, ◌==◌, ltb, leb,
  if◌then◌else◌, any, filter, map,
}
use bagelquant_data.Ledger.Data.{Ledger}

pub data Mode : Type 0 where
  initialize incremental refresh : Mode

abbrev pub is_initialize : Mode → Bool
is_initialize Mode.initialize = true
is_initialize _ = false

-- A row of `dataset_initializations`, whose status is 'running' or 'complete'.
pub record Baseline : Type 0 where
  pub source : ℕ
  pub dataset : ℕ
  pub spec_hash : ℕ
  pub initial_start : ℕ
  pub initial_end : ℕ
  pub is_running : Bool

-- A row of `version_commits`; a commit is prepared or committed.
pub record Commit : Type 0 where
  pub source : ℕ
  pub dataset : ℕ
  pub mode : Mode
  pub spec_hash : ℕ
  pub is_committed : Bool

-- A row of `version_checks`.
pub record VersionCheck : Type 0 where
  pub source : ℕ
  pub dataset : ℕ
  pub baseline : Bool

-- A row of `datasets`.
pub record Definition : Type 0 where
  pub source : ℕ
  pub name : ℕ
  pub spec_hash : ℕ
  pub spec_json : ℕ

pub record Metadata : Type 0 where
  pub read_only : Bool
  pub ledger : Ledger
  pub definitions : List Definition
  pub initializations : List Baseline
  pub commits : List Commit
  pub checks : List VersionCheck

pub data Failure : Type 0 where
  configuration_error runtime_error key_error value_error permission_error : Failure

pub data Answer {ℓ} (A : Type ℓ) : Type ℓ where
  done : A → Answer A
  raised : Failure → Answer A

abbrev pub is_done {ℓ} : {A : Type ℓ} → Answer A → Bool
is_done (done a) = true
is_done (raised e) = false

-- `if test: raise`
abbrev pub unless {ℓ} : {A : Type ℓ} → Bool → Failure → Answer A → Answer A
unless true e rest = raised e
unless false e rest = rest

abbrev pub is_of : ℕ → ℕ → Baseline → Bool
is_of src name r = r.source == src && r.dataset == name

-- The row whose primary key is (source, dataset).
abbrev pub row_for : ℕ → ℕ → List Baseline → Option Baseline
row_for src name [] = none
row_for src name (r ∷ rs) = if is_of src name r then some r else row_for src name rs

abbrev pub definition_for : ℕ → ℕ → List Definition → Option Definition
definition_for src name [] = none
definition_for src name (d ∷ ds) =
    if d.source == src && d.name == name then some d else definition_for src name ds

-- The bounds and the definition of the row are these.
abbrev pub has_bounds : ℕ → ℕ → ℕ → Baseline → Bool
has_bounds start end hash r =
    r.initial_start == start && (r.initial_end == end && r.spec_hash == hash)

-- `select 1 from version_commits where source=? and dataset=? and status='committed'`
abbrev pub has_history : ℕ → ℕ → Metadata → Bool
has_history src name m =
    any (λ c. c.source == src && (c.dataset == name && c.is_committed)) m.commits

abbrev pub started : ℕ → ℕ → ℕ → ℕ → ℕ → Baseline
started src name hash start end = record {
  source = src;
  dataset = name;
  spec_hash = hash;
  initial_start = start;
  initial_end = end;
  is_running = true;
}

-- The transaction of `prepare_initialization`; `row` is the dataset's row.
unfoldable pub prepare_row : ℕ → ℕ → ℕ → ℕ → ℕ → Option Baseline → Metadata → Answer Metadata
prepare_row src name hash start end (some r) m =
    unless (not r.is_running || not (has_bounds start end hash r)) Failure.configuration_error
      (done m)
prepare_row src name hash start end none m =
    unless (has_history src name m) Failure.configuration_error
      (done (record m { initializations = started src name hash start end ∷ m.initializations }))

unfoldable pub prepare_initialization :
    ℕ → ℕ → Mode → Option ℕ → Option ℕ → Metadata → Answer Metadata
prepare_initialization src name Mode.incremental start end m = done m
prepare_initialization src name Mode.refresh start end m = done m
prepare_initialization src name Mode.initialize none end m = raised Failure.configuration_error
prepare_initialization src name Mode.initialize (some start) none m =
    raised Failure.configuration_error
prepare_initialization src name Mode.initialize (some start) (some end) m =
    elim (definition_for src name m.definitions) [
      | none ↦ raised Failure.key_error
      | some d ↦ prepare_row src name d.spec_hash start end (row_for src name m.initializations) m
    ]

abbrev pub set_running : ℕ → ℕ → Bool → List Baseline → List Baseline
set_running src name b [] = []
set_running src name b (r ∷ rs) =
    (if is_of src name r then record r { is_running = b } else r) ∷ set_running src name b rs

-- Rows that are complete already stay as they are.
unfoldable pub finish_initialization : ℕ → ℕ → Metadata → Metadata
finish_initialization src name m = record m {
  initializations = set_running src name false m.initializations;
}

-- An action of a plan.
pub record Action : Type 0 where
  pub mode : Mode
  pub start : ℕ
  pub end : ℕ

abbrev pub action : Mode → ℕ → ℕ → Action
action mode start end = record { mode = mode; start = start; end = end }

-- The actions for an unfinished baseline.
abbrev pub resumed : ℕ → ℕ → Baseline → List Action
resumed start end r =
    action Mode.initialize r.initial_start r.initial_end
    ∷ (if ltb r.initial_end end then action Mode.incremental start end ∷ [] else [])

abbrev pub begun : ℕ → ℕ → Bool → List Action
begun start end known = action (if known then Mode.incremental else Mode.initialize) start end ∷ []

abbrev pub planned : ℕ → ℕ → ℕ → Option Baseline → Bool → Answer (List Action)
planned start end hash none history = done (begun start end history)
planned start end hash (some r) history =
    if r.is_running
    then unless (not (r.spec_hash == hash) || not (r.initial_start == start)) Failure.value_error
        (unless (ltb end r.initial_end) Failure.value_error (done (resumed start end r)))
    else done (begun start end true)

unfoldable pub initialization_actions : ℕ → ℕ → ℕ → Option Baseline → Bool → Answer (List Action)
initialization_actions start end hash row history =
    unless (ltb end start) Failure.value_error (planned start end hash row history)
