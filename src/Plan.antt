-- ===== src/Plan.antt =====
-- The plan of management/lake.py that puts the actions of datasets in the order of their prerequisites.
-- Names of datasets are numbers in the order of their text. A dataset comes with what the plan reads for
-- it; `snapshot_completed` is the answer of general_snapshot_completed.
pub mod Ordering
mod Names
pub mod Ordered
mod Tests
use bagelquant_data.Prelude.{
  ℕ, zero, suc, Bool, true, false, not, ◌&&◌, ◌||◌, Option, none, some, List, [], ◌∷◌, ◌++◌, ◌==◌,
  ltb, leb, if◌then◌else◌, any, filter, map, contains,
}
use bagelquant_data.Baseline.{
  Mode, is_initialize, Baseline, Failure, Answer, done, raised, Action, initialization_actions,
}

-- The columns of `completion_statuses` that the plan reads.
pub record Completion : Type 0 where
  pub definition_current : Bool
  pub publication_current : Bool
  pub checked_target : Option ℕ
  pub completed_start : Option ℕ
  pub completed_end : Option ℕ

-- `scan_parent` is the parameter dataset of the option initialization_scan, where that is a mapping.
pub record Dataset : Type 0 where
  pub name : ℕ
  pub calendar : Option ℕ
  pub parameter_dataset : Option ℕ
  pub scan_parent : Option ℕ
  pub completion : Completion
  pub baseline : Option Baseline
  pub has_history : Bool
  pub definition_hash : ℕ
  pub snapshot_completed : Bool

abbrev pub at_least : Option ℕ → ℕ → Bool
at_least none d = false
at_least (some c) d = leb d c

abbrev pub at_most : Option ℕ → ℕ → Bool
at_most none d = false
at_most (some c) d = leb c d

-- The dataset is complete for these bounds, and gets no action.
abbrev pub is_completed : ℕ → ℕ → Completion → Bool
is_completed start end c =
    (c.definition_current && c.publication_current)
    && (at_most c.completed_start start
        && (at_least c.completed_end end && at_least c.checked_target end))

abbrev pub is_incremental : Mode → Bool
is_incremental Mode.incremental = true
is_incremental _ = false

abbrev pub without_incremental : Bool → Answer (List Action) → Answer (List Action)
without_incremental b (raised e) = raised e
without_incremental true (done as_) = done (filter (λ a. not (is_incremental a.mode)) as_)
without_incremental false (done as_) = done as_

-- `actions_by_name[name]`
unfoldable pub actions_of : ℕ → ℕ → Dataset → Answer (List Action)
unfolding initialization_actions
actions_of start end d =
    if is_completed start end d.completion
    then done []
    else without_incremental d.snapshot_completed
        (initialization_actions start end d.definition_hash d.baseline d.has_history)

abbrev pub listed : Option ℕ → List ℕ
listed none = []
listed (some p) = p ∷ []

abbrev pub insert_name : ℕ → List ℕ → List ℕ
insert_name p [] = p ∷ []
insert_name p (q ∷ qs) =
    if ltb p q then p ∷ q ∷ qs else if p == q then q ∷ qs else q ∷ insert_name p qs

abbrev pub sorted_names : List ℕ → List ℕ
sorted_names [] = []
sorted_names (p ∷ ps) = insert_name p (sorted_names ps)

-- `parents`
abbrev pub prerequisites : Dataset → List Action → List ℕ
prerequisites d actions =
    listed d.calendar
    ++ (listed d.parameter_dataset
        ++ (if any (λ a. is_initialize a.mode) actions then listed d.scan_parent else []))

-- `sorted({p for p in parents if p in specs})`
abbrev pub parents_of : List ℕ → Dataset → List Action → List ℕ
parents_of specs d actions = sorted_names (filter (λ p. contains p specs) (prerequisites d actions))
