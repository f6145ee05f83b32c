-- ===== src/Plan/Tests.antt =====
-- A calendar, a dataset with that calendar, and one whose parameters are in the second; then two that
-- need each other.
use bagelquant_data.Prelude.{ℕ, ◌≡◌, refl, false, Option, none, some, List, [], ◌∷◌}
use bagelquant_data.Baseline.{Mode, Failure, done, raised, Action, action, initialization_actions}
use bagelquant_data.Plan.{Completion, Dataset, actions_of}
use bagelquant_data.Plan.Ordering.{
  Planned, visit, visit_all, order_names, order_planned, plan_all, plan_updates,
}
use bagelquant_data.Plan.Ordered.{IsRight, order_planned-IsRight}

abbrev untouched : Completion
untouched = record {
  definition_current = false;
  publication_current = false;
  checked_target = none;
  completed_start = none;
  completed_end = none;
}

abbrev needing : ℕ → Option ℕ → Option ℕ → Dataset
needing name calendar parameters = record {
  name = name;
  calendar = calendar;
  parameter_dataset = parameters;
  scan_parent = none;
  completion = untouched;
  baseline = none;
  has_history = false;
  definition_hash = 9;
  snapshot_completed = false;
}

abbrev datasets : List Dataset
datasets = needing 1 (some 5) (some 3) ∷ needing 3 (some 5) none ∷ needing 5 none (some 8) ∷ []

abbrev initial : List Action
initial = action Mode.initialize 101 110 ∷ []

abbrev asked : List Planned
asked =
    record { dataset = needing 1 (some 5) (some 3); actions = initial }
    ∷ record { dataset = needing 3 (some 5) none; actions = initial }
    ∷ record { dataset = needing 5 none (some 8); actions = initial }
    ∷ []

-- The prerequisite 8 is not asked for.
plan_updates-datasets :
    plan_updates 101 110 datasets
    ≡ done (
        (5, action Mode.initialize 101 110)
        ∷ (3, action Mode.initialize 101 110)
        ∷ (1, action Mode.initialize 101 110)
        ∷ [])
unfolding plan_updates plan_all actions_of initialization_actions order_planned order_names visit
    visit_all
plan_updates-datasets = refl

plan_updates-cycle :
    plan_updates 101 110 (needing 1 (some 2) none ∷ needing 2 none (some 1) ∷ [])
    ≡ raised Failure.configuration_error
unfolding plan_updates plan_all actions_of initialization_actions order_planned order_names visit
    visit_all
plan_updates-cycle = refl

order_planned-IsRight_example : IsRight asked (order_planned asked)
order_planned-IsRight_example = order_planned-IsRight asked
