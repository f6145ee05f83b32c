-- ===== src/Baseline/Frozen.antt =====
-- The bounds of a baseline are frozen when it starts.
use bagelquant_data.Prelude.{
  ℕ, ◌≡◌, refl, sym, ◌∙◌, ap, Bool, true, false, not, ◌&&◌, ◌||◌, inl, inr, Option, none, some,
  List, [], ◌∷◌, ◌==◌, arith, Bool-cases, Option-cases, ==→eq,
}
use bagelquant_data.Baseline.{
  Mode, Baseline, Definition, Metadata, Answer, done, raised, is_of, row_for, definition_for,
  has_bounds, has_history, prepare_row, prepare_initialization, set_running, finish_initialization,
}
use bagelquant_data.Baseline.Reopening.{Reopening, reopen_initialization}
use bagelquant_data.Baseline.Agreement.{set_row, row_for-set_running, reopen-found}

-- A call on the baselines.
pub data Change : Type 0 where
  prepare : (source name : ℕ) → (mode : Mode) → (start end : Option ℕ) → Change
  finish : (source name : ℕ) → Change
  reopen : (now : ℕ) → Reopening → Change

-- A call that raises leaves the tables as they were.
abbrev pub kept : Answer Metadata → Metadata → Metadata
kept (done m') m = m'
kept (raised e) m = m

unfoldable pub change : Change → Metadata → Metadata
change (Change.prepare src name mode start end) m =
    kept (prepare_initialization src name mode start end m) m
change (Change.finish src name) m = finish_initialization src name m
change (Change.reopen now a) m = kept (reopen_initialization now a m) m

unfoldable pub change_all : List Change → Metadata → Metadata
unfolding change
change_all [] m = m
change_all (c ∷ cs) m = change_all cs (change c m)

-- The start, the end and the definition's hash of a baseline.
abbrev pub bounds_of : Option Baseline → Option (ℕ × ℕ × ℕ)
bounds_of none = none
bounds_of (some r) = some (r.initial_start, r.initial_end, r.spec_hash)

-- The tables keep the bounds of the dataset's baseline, where it has one.
abbrev Keeps : ℕ → ℕ → Metadata → Metadata → Type 0
Keeps src name m m' =
    (r : Baseline)
    → row_for src name m.initializations ≡ some r
    → bounds_of (row_for src name m'.initializations) ≡ bounds_of (some r)

bounds_of-set_row :
    (src name : ℕ) (b : Bool) (o : Option Baseline) → bounds_of (set_row src name b o) ≡ bounds_of o
bounds_of-set_row src name b none = refl
bounds_of-set_row src name b (some r) = elim (Bool-cases (is_of src name r)) [
  | inl mine ↦ rw (mine) refl
  | inr other ↦ rw (other) refl
]

Keeps-set_running :
    (src name src' name' : ℕ) (b : Bool) (m : Metadata) (r : Baseline)
    → row_for src name m.initializations ≡ some r
    → bounds_of (row_for src name (set_running src' name' b m.initializations)) ≡ bounds_of (some r)
Keeps-set_running src name src' name' b m r e =
    ap bounds_of (row_for-set_running src name src' name' b m.initializations)
    ∙ (bounds_of-set_row src' name' b (row_for src name m.initializations) ∙ ap bounds_of e)

-- A row that is started is of a dataset without one.
Keeps-prepare_row :
    (src name src' name' hash start end : ℕ) (o : Option Baseline) (m : Metadata)
    → row_for src' name' m.initializations ≡ o
    → Keeps src name m (kept (prepare_row src' name' hash start end o m) m)
unfolding prepare_row
Keeps-prepare_row src name src' name' hash start end (some p) m there r e =
    elim (Bool-cases (not p.is_running || not (has_bounds start end hash p))) [
      | inl bad ↦ rw (bad, prepare_row) (ap bounds_of e)
      | inr good ↦ rw (good, prepare_row) (ap bounds_of e)
    ]
Keeps-prepare_row src name src' name' hash start end none m there r e =
    elim (Bool-cases (has_history src' name' m)) [
      | inl old ↦ rw (old, prepare_row) (ap bounds_of e)
      | inr new ↦
          rw (new, prepare_row)
            (elim (Bool-cases (src' == src && name' == name)) [
              | inl same ↦
                  let f : src' ≡ src = ==→eq src' src (ground (arith, same)) in
                  let g : name' ≡ name = ==→eq name' name (ground (arith, same)) in
                  absurd (
                    cc (
                      ap (λ x. row_for x name' m.initializations) f,
                      ap (λ x. row_for src x m.initializations) g,
                      there,
                      e,
                    ))
              | inr other ↦ rw other (ap bounds_of e)
            ])
    ]

Keeps-defined :
    (src name src' name' start end : ℕ) (o : Option Definition) (m : Metadata)
    → definition_for src' name' m.definitions ≡ o
    → Keeps src name m
        (kept (prepare_initialization src' name' Mode.initialize (some start) (some end) m) m)
unfolding prepare_initialization
Keeps-defined src name src' name' start end none m there r e =
    rw (there, prepare_initialization) (ap bounds_of e)
Keeps-defined src name src' name' start end (some d) m there r e =
    rw (there, prepare_initialization)
      (Keeps-prepare_row src name src' name' d.spec_hash start end
        (row_for src' name' m.initializations) m refl r e)

Keeps-answer :
    (src name : ℕ) (m : Metadata) (o : Answer Metadata)
    → ((m' : Metadata) → o ≡ done m' → Keeps src name m m')
    → Keeps src name m (kept o m)
Keeps-answer src name m (done m') h = h m' refl
Keeps-answer src name m (raised x) h = λ r e. ap bounds_of e

change-Keeps : (src name : ℕ) (c : Change) (m : Metadata) → Keeps src name m (change c m)
unfolding change prepare_initialization finish_initialization
change-Keeps src name (Change.prepare src' name' Mode.incremental start end) m =
    λ r e. ap bounds_of e
change-Keeps src name (Change.prepare src' name' Mode.refresh start end) m = λ r e. ap bounds_of e
change-Keeps src name (Change.prepare src' name' Mode.initialize none end) m = λ r e. ap bounds_of e
change-Keeps src name (Change.prepare src' name' Mode.initialize (some start) none) m =
    λ r e. ap bounds_of e
change-Keeps src name (Change.prepare src' name' Mode.initialize (some start) (some end)) m =
    Keeps-defined src name src' name' start end (definition_for src' name' m.definitions) m refl
change-Keeps src name (Change.finish src' name') m = Keeps-set_running src name src' name' false m
change-Keeps src name (Change.reopen now a) m =
    Keeps-answer src name m (reopen_initialization now a m) (λ m' h r e.
      let (d, known, may, eq) = reopen-found now a m m' h in
      rw eq (Keeps-set_running src name a.source a.name true m r e))

bounds_of-row :
    (r s : Baseline) (o : Option Baseline)
    → o ≡ some s
    → bounds_of o ≡ bounds_of (some r)
    → bounds_of (some s) ≡ bounds_of (some r)
bounds_of-row r s o e h = ap bounds_of (sym e) ∙ h

-- Once a dataset has a baseline, its start, its end and the definition it was started with never change,
-- whatever initializations are prepared, finished or reopened, for whatever datasets and in whatever order.
pub bounds_of-change_all :
    (src name : ℕ) (cs : List Change) (m : Metadata) (r : Baseline)
    → row_for src name m.initializations ≡ some r
    → bounds_of (row_for src name (change_all cs m).initializations) ≡ bounds_of (some r)
unfolding change_all
bounds_of-change_all src name [] m r e = ap bounds_of e
bounds_of-change_all src name (c ∷ cs) m r e =
    elim (Option-cases (row_for src name (change c m).initializations)) [
      | inl gone ↦ absurd (cc (change-Keeps src name c m r e, ap bounds_of gone))
      | inr (s, there) ↦
          bounds_of-change_all src name cs (change c m) s there
          ∙ bounds_of-row r s _ there (change-Keeps src name c m r e)
    ]
