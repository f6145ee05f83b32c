-- ===== src/Ledger/Settling.antt =====
-- A run that claimed a scope can settle it, whatever other runs did in between.
use bagelquant_data.Prelude.{
  ℕ, ◌≡◌, ◌≢◌, refl, ap, ◌∙◌, Bool, true, false, inl, inr, none, List, [], ◌∷◌, map, arith, ◌==◌,
  if◌then◌else◌, filter, any, length, All, Bool-cases, ==→eq, &&-true, Option, none,
}
use bagelquant_data.Ledger.Data.{
  Status, is_running, is_outcome, equals, Scope, Ledger, ok, for_each,
}
use bagelquant_data.Ledger.Scopes.{contains, claimable, claimed, claim_update_scopes}
use bagelquant_data.Ledger.Outcomes.{
  upsert_check, Outcome, held, settled, keep_check, transition, count_success,
  transition_update_scopes, update_held,
}
use bagelquant_data.Ledger.Rows.{DistinctIds}
use bagelquant_data.Ledger.Steps.{Step, Reachable}
use bagelquant_data.Ledger.Invariant.{Step-IsValid, Reachable-IsValid}
use bagelquant_data.Ledger.Claims.{Claimed, running_for, taken_ids, same_id, other_head}
use bagelquant_data.Ledger.Interference.{OtherSteps, Kept, OtherSteps-Kept}

has_id : ℕ → List Scope → Bool
has_id id ss = any (λ s. s.id == id) ss

taken_has_id :
    (p : Scope → Bool) (id : ℕ) (ss : List Scope)
    → contains (taken_ids p ss) id ≡ true
    → has_id id ss ≡ true
unfolding has_id
taken_has_id p id [] h = h
taken_has_id p id (s ∷ ss) h = elim (Bool-cases (p s)) [
  | inl e ↦ ground (arith, taken_has_id p id ss, rw e at h)
  | inr e ↦ ground (arith, taken_has_id p id ss (rw e at h))
]

Claimed-taken :
    (now run id : ℕ) (taken : List ℕ) (ss : List Scope)
    → contains taken id ≡ true
    → has_id id ss ≡ true
    → Claimed id run (map (λ s. if contains taken s.id then claimed now run s else s) ss)
unfolding has_id
Claimed-taken now run id taken [] t h = h
Claimed-taken now run id taken (s ∷ ss) t h = elim (Bool-cases (s.id == id)) [
  | inl same ↦ rw (ap (contains taken) (==→eq s.id id same) ∙ t) (ground arith)
  | inr apart ↦ ground (arith, Claimed-taken now run id taken ss t (rw apart at h))
]

-- A claim leaves each scope that it returns running for the run.
pub claim-Claimed_self :
    (now : ℕ) (ids : List ℕ) (run id : ℕ) (l : Ledger)
    → contains (claim_update_scopes now ids run l).1 id ≡ true
    → Claimed id run (claim_update_scopes now ids run l).0.scopes
unfolding claim_update_scopes
claim-Claimed_self now ids run id l h =
    Claimed-taken now run id (taken_ids (claimable ids) l.scopes) l.scopes h
      (taken_has_id (claimable ids) id l.scopes h)

none_held :
    (id run : ℕ) (ss : List Scope) → All (λ u. u.id ≢ id) ss → length (filter (held id run) ss) ≡ 0
none_held id run [] h = refl
none_held id run (s ∷ ss) h = ground (arith, none_held id run ss h.1)

-- Exactly one row is held.
one_held :
    (id run : ℕ) (ss : List Scope)
    → DistinctIds ss
    → Claimed id run ss
    → length (filter (held id run) ss) ≡ 1
one_held id run [] d c = cc
one_held id run (s ∷ ss) d c = elim (Bool-cases (running_for id run s)) [
  | inl here ↦ ground (arith, none_held id run ss (rw (same_id s id run here) at d.0))
  | inr elsewhere ↦
      let rest : Claimed id run ss = rw elsewhere at c in
      ground (arith, other_head s.id id run ss d.0 rest, one_held id run ss d.1 rest)
]

-- The status and the holder of each row of that id.
abbrev pub outcomes_of : ℕ → List Scope → List (Status × Option ℕ)
outcomes_of id ss = map (λ s. (s.status, s.active_run_id)) (filter (λ s. s.id == id) ss)

other_id : (id : ℕ) (s : Scope) → s.id ≢ id → (s.id == id) ≡ false
other_id id s ne = ground (arith, ne)

no_outcomes :
    (now id run : ℕ) (o : Outcome) (ss : List Scope)
    → All (λ u. u.id ≢ id) ss
    → outcomes_of id (map (λ s. if held id run s then settled now run o s else s) ss) ≡ []
no_outcomes now id run o [] h = refl
no_outcomes now id run o (s ∷ ss) h =
    let e = other_id id s h.0 in rw e (rw e (no_outcomes now id run o ss h.1))

settled_rows :
    (now id run : ℕ) (o : Outcome) (ss : List Scope)
    → DistinctIds ss
    → Claimed id run ss
    → outcomes_of id (map (λ s. if held id run s then settled now run o s else s) ss)
      ≡ (o.status, none) ∷ []
settled_rows now id run o [] d c = cc
settled_rows now id run o (s ∷ ss) d c = elim (Bool-cases (running_for id run s)) [
  | inl here ↦
      let is_held = (&&-true (held id run s) (is_running s.status) here).0 in
      rw is_held (
        rw (&&-true (s.id == id) (equals s.active_run_id run) is_held).0 (
          ap (◌∷◌ (o.status, none))
            (no_outcomes now id run o ss (rw (same_id s id run here) at d.0))))
  | inr elsewhere ↦
      let rest : Claimed id run ss = rw elsewhere at c in
      let e = other_id id s (other_head s.id id run ss d.0 rest) in
      rw e (rw e (settled_rows now id run o ss d.1 rest))
]

module _ (now run : ℕ) (o : Outcome) (l : Ledger) where
  -- The tables after the one transition.
  after : Ledger
  after =
      keep_check now o o.provider_checked_through (update_held o.scope_id run (settled now run o) l)

  transition_returns :
      is_outcome o.status ≡ true
      → length (filter (held o.scope_id run) l.scopes) ≡ 1
      → transition now run l o ≡ ok after
  unfolding transition after
  transition_returns outcome one = rw (outcome, one, transition) refl

  scopes-after : after.scopes ≡ (update_held o.scope_id run (settled now run o) l).scopes
  unfolding after upsert_check
  scopes-after = ground arith

scopes-count_success :
    (os : List Outcome) (run committed : ℕ) (l : Ledger)
    → (count_success os run committed l).scopes ≡ l.scopes
scopes-count_success os run committed l = ground arith

-- Once run `run` has claimed scope `id`, then after any claims, resets and clean-ups by anybody, and any
-- settlements by other runs, the run can settle the scope by any outcome: the transition returns, and
-- leaves one scope of that id, with the outcome's status and without a holder.
pub claim_lasts :
    {l l' : Ledger} (now : ℕ) (ids : List ℕ) (run id : ℕ)
    → Reachable l
    → contains (claim_update_scopes now ids run l).1 id ≡ true
    → OtherSteps run (claim_update_scopes now ids run l).0 l'
    → (now' committed : ℕ) (o : Outcome) → o.scope_id ≡ id
    → is_outcome o.status ≡ true
    → (l'' : Ledger) × (transition_update_scopes now' (o ∷ []) run committed l' ≡ ok l'')
      × (outcomes_of id l''.scopes ≡ (o.status, none) ∷ [])
unfolding transition_update_scopes
claim_lasts {l} {l'} now ids run id r c steps now' committed o same outcome = (
  count_success (o ∷ []) run committed (after now' run o l'),
  rw (transition_returns now' run o l' outcome (rw same one), for_each) refl,
  rw
      (
        scopes-count_success (o ∷ []) run committed (after now' run o l'),
        scopes-after now' run o l',
        same,
      )
      (settled_rows now' id run o l'.scopes kept.rows.distinct kept.claimed_row),
)
  where
    kept : Kept id run l'.next_id l'.scopes
    kept = OtherSteps-Kept id run steps (record {
      rows = Step-IsValid (Step.claim now ids run l) (Reachable-IsValid r);
      claimed_row = claim-Claimed_self now ids run id l c;
    })

    one : length (filter (held id run) l'.scopes) ≡ 1
    one = one_held id run l'.scopes kept.rows.distinct kept.claimed_row
