-- ===== src/Baseline/Agreement.antt =====
-- Plans and initializations agree, and a reopened baseline can be resumed.
use bagelquant_data.Prelude.{
  ℕ, ◌≤◌, ◌≡◌, refl, sym, ◌∙◌, ap, Bool, true, false, not, ◌&&◌, ◌||◌, inl, inr, Option, none, some,
  List, [], ◌∷◌, ◌==◌, if◌then◌else◌, arith, Bool-cases, Option-cases,
}
use bagelquant_data.Baseline.{
  Mode, is_initialize, Baseline, Definition, Metadata, Failure, Answer, done, raised, is_done,
  unless, is_of, row_for, definition_for, has_history, prepare_row, prepare_initialization,
  set_running, Action, initialization_actions,
}
use bagelquant_data.Baseline.Reopening.{
  Reopening, may_reopen, reopened, reopen_defined, reopen_initialization,
}

-- The plan begins with an initialization of exactly these bounds.
abbrev pub proposes : ℕ → ℕ → Answer (List Action) → Bool
proposes start end (raised e) = false
proposes start end (done []) = false
proposes start end (done (a ∷ _)) = is_initialize a.mode && (a.start == start && a.end == end)

proposes-row :
    (src name hash start end : ℕ) (row : Option Baseline) (m : Metadata)
    → start ≤ end
    → is_done (prepare_row src name hash start end row m)
      ≡ proposes start end (initialization_actions start end hash row (has_history src name m))
unfolding prepare_row initialization_actions
proposes-row src name hash start end none m le = ground (arith, le)
proposes-row src name hash start end (some r) m le = ground (arith, le)

-- For a registered dataset and bounds in order, an initialization is accepted exactly when the plan for
-- these bounds, from the same tables, begins with an initialization of exactly these bounds: a new dataset
-- starts, an unfinished baseline resumes with its own bounds and definition only, and neither a completed
-- baseline nor a dataset with committed history is initialized again.
pub prepare_initialization-initialization_actions :
    (src name start end : ℕ) (d : Definition) (m : Metadata)
    → start ≤ end
    → definition_for src name m.definitions ≡ some d
    → is_done (prepare_initialization src name Mode.initialize (some start) (some end) m)
      ≡ proposes start end (
          initialization_actions start end d.spec_hash
            (row_for src name m.initializations)
            (has_history src name m))
unfolding prepare_initialization
prepare_initialization-initialization_actions src name start end d m le known =
    rw (known, prepare_initialization)
      (proposes-row src name d.spec_hash start end (row_for src name m.initializations) m le)

-- The first action of the plan, where it initializes, is accepted.
abbrev pub accepts_first : ℕ → ℕ → Metadata → Answer (List Action) → Bool
accepts_first src name m (raised e) = true
accepts_first src name m (done []) = true
accepts_first src name m (done (a ∷ _)) =
    not (is_initialize a.mode)
    || is_done (prepare_initialization src name Mode.initialize (some a.start) (some a.end) m)

row_accepts : ℕ → ℕ → ℕ → Option Baseline → Metadata → Answer (List Action) → Bool
row_accepts src name hash row m (raised e) = true
row_accepts src name hash row m (done []) = true
row_accepts src name hash row m (done (a ∷ _)) =
    not (is_initialize a.mode) || is_done (prepare_row src name hash a.start a.end row m)

row_accepts-planned :
    (src name hash start end : ℕ) (row : Option Baseline) (m : Metadata)
    → row_accepts src name hash row m
        (initialization_actions start end hash row (has_history src name m))
      ≡ true
unfolding row_accepts prepare_row initialization_actions
row_accepts-planned src name hash start end none m = ground arith
row_accepts-planned src name hash start end (some r) m = ground arith

accepts_first-row :
    (src name : ℕ) (d : Definition) (m : Metadata) (plan : Answer (List Action))
    → definition_for src name m.definitions ≡ some d
    → accepts_first src name m plan
      ≡ row_accepts src name d.spec_hash (row_for src name m.initializations) m plan
unfolding row_accepts prepare_initialization
accepts_first-row src name d m (raised e) known = refl
accepts_first-row src name d m (done []) known = refl
accepts_first-row src name d m (done (a ∷ rest)) known =
    rw (known, accepts_first, prepare_initialization) refl

-- Whatever bounds a plan is asked for, when its first action initializes a registered dataset, with these
-- bounds or with the frozen bounds of an unfinished baseline, that initialization is accepted.
pub accepts_first-initialization_actions :
    (src name start end : ℕ) (d : Definition) (m : Metadata)
    → definition_for src name m.definitions ≡ some d
    → accepts_first src name m (
        initialization_actions start end d.spec_hash
          (row_for src name m.initializations)
          (has_history src name m))
      ≡ true
accepts_first-initialization_actions src name start end d m known =
    accepts_first-row src name d m _ known
    ∙ row_accepts-planned src name d.spec_hash start end (row_for src name m.initializations) m

abbrev pub set_row : ℕ → ℕ → Bool → Option Baseline → Option Baseline
set_row src name b none = none
set_row src name b (some r) = some (if is_of src name r then record r { is_running = b } else r)

pub row_for-set_running :
    (src name src' name' : ℕ) (b : Bool) (rs : List Baseline)
    → row_for src name (set_running src' name' b rs) ≡ set_row src' name' b (row_for src name rs)
row_for-set_running src name src' name' b [] = refl
row_for-set_running src name src' name' b (r ∷ rs) = elim (Bool-cases (is_of src name r)) [
  | inl here ↦ elim (Bool-cases (is_of src' name' r)) [
    | inl hit ↦ rw (hit, here) (rw hit refl)
    | inr miss ↦ rw (miss, here) (rw miss refl)
  ]
  | inr other ↦ elim (Bool-cases (is_of src' name' r)) [
    | inl hit ↦ rw (hit, other) (row_for-set_running src name src' name' b rs)
    | inr miss ↦ rw (miss, other) (row_for-set_running src name src' name' b rs)
  ]
]

pub row_for-is_of :
    (src name : ℕ) (rs : List Baseline) (r : Baseline)
    → row_for src name rs ≡ some r
    → is_of src name r ≡ true
row_for-is_of src name [] r h = absurd (cc h)
row_for-is_of src name (s ∷ rs) r h = elim (Bool-cases (is_of src name s)) [
  | inl here ↦ ap (is_of src name) (sym (some_injective s r (rw here at h))) ∙ here
  | inr other ↦ row_for-is_of src name rs r (rw other at h)
]
  where
    some_injective : (a b : Baseline) → some a ≡ some b → a ≡ b
    some_injective a b e = cc e

unless-done :
    (b : Bool) (e : Failure) (rest : Answer Metadata) (m : Metadata)
    → unless b e rest ≡ done m
    → (b ≡ false) × (rest ≡ done m)
unless-done true e rest m h = absurd (cc h)
unless-done false e rest m h = (refl, h)

done_injective : (m n : Metadata) → done m ≡ done n → m ≡ n
done_injective m n h = cc h

not-false : (b : Bool) → not b ≡ false → b ≡ true
not-false b h = ground arith

defined-found :
    (now : ℕ) (a : Reopening) (o : Option Definition) (m m' : Metadata)
    → reopen_defined now a o m ≡ done m'
    → (d : Definition) × (o ≡ some d)
      × (may_reopen a d.spec_hash (row_for a.source a.name m.initializations) m ≡ true)
      × (m' ≡ reopened now a d.spec_hash m)
unfolding reopen_defined
defined-found now a none m m' h = absurd (cc h)
defined-found now a (some d) m m' h =
    let (may, eq) = unless-done _ _ _ m' (unless-done _ _ _ m' h).1 in
    (d, refl, not-false _ may, sym (done_injective _ m' eq))

-- What a successful reopening has found and done.
pub reopen-found :
    (now : ℕ) (a : Reopening) (m m' : Metadata)
    → reopen_initialization now a m ≡ done m'
    → (d : Definition) × (definition_for a.source a.name m.definitions ≡ some d)
      × (may_reopen a d.spec_hash (row_for a.source a.name m.initializations) m ≡ true)
      × (m' ≡ reopened now a d.spec_hash m)
unfolding reopen_initialization
reopen-found now a m m' h =
    defined-found now a (definition_for a.source a.name m.definitions) m m'
      (unless-done (a.is_item || (not a.is_by_date || not a.has_reason)) Failure.configuration_error
        _ m' (unless-done m.read_only Failure.permission_error _ m' h).1).1

-- A baseline that has been reopened can be initialized again with its original bounds, which changes
-- nothing more, so that its work can go on.
pub prepare_initialization-reopen_initialization :
    (now : ℕ) (a : Reopening) (m m' : Metadata)
    → reopen_initialization now a m ≡ done m'
    → prepare_initialization a.source a.name Mode.initialize (some a.start) (some a.end) m'
      ≡ done m'
unfolding prepare_initialization prepare_row
prepare_initialization-reopen_initialization now a m m' h =
    let (d, known, may, eq) = reopen-found now a m m' h in
    rw eq (elim (Option-cases (row_for a.source a.name m.initializations)) [
      | inl e ↦ absurd (cc (rw e at may))
      | inr (r, e) ↦ resume d known r e (rw e at may)
    ])
  where
    resume :
        (d : Definition)
        → definition_for a.source a.name m.definitions ≡ some d
        → (r : Baseline) → row_for a.source a.name m.initializations ≡ some r
        → may_reopen a d.spec_hash (some r) m ≡ true
        → prepare_initialization a.source a.name Mode.initialize
            (some a.start)
            (some a.end)
            (reopened now a d.spec_hash m)
          ≡ done (reopened now a d.spec_hash m)
    resume d known r e may =
        let mine = row_for-is_of a.source a.name m.initializations r e in
        let row : row_for a.source a.name (set_running a.source a.name true m.initializations)
            ≡ some (record r { is_running = true }) =
          row_for-set_running a.source a.name a.source a.name true m.initializations
          ∙ rw (e, set_row) (rw mine refl) in
        rw (known, prepare_initialization) (rw (row, prepare_row) (ground (arith, may)))
