-- ===== src/Ledger/Interference.antt =====
-- What the operations of other runs do to a claim: nothing, so that its run can settle the scope.
use bagelquant_data.Prelude.{
  ℕ, ◌≡◌, ◌≢◌, Bool, true, false, not, Option, List, map, arith, if◌then◌else◌,
}
use bagelquant_data.Ledger.Data.{is_outcome, Scope, Call, Ledger, ok, of_Holds}
use bagelquant_data.Ledger.Scopes.{
  contains, claimable, claimed, claim_update_scopes, obsolete, remove_obsolete_update_scopes,
}
use bagelquant_data.Ledger.Outcomes.{
  Outcome, held, settled, transition_update_scopes, EmptyResult, emptied,
  record_empty_scope_results, reset_scope, resettable, reset_update_scopes,
}
use bagelquant_data.Ledger.Rows.{RowsValid}
use bagelquant_data.Ledger.Steps.{Step}
use bagelquant_data.Ledger.Lift.{settle-Keeps, find_empty-Keeps}
use bagelquant_data.Ledger.Invariant.{settled-RowsValid, emptied-RowsValid, Step-IsValid}
use bagelquant_data.Ledger.Claims.{
  Claimed, running_for, taken_ids, running_not_taken, Claimed-update, Claimed-filter, same_id,
}

-- A step that is not of run `run`, redeclares no scope and abandons no owner.
pub data OtherStep (run : ℕ) : Ledger → Ledger → Type 0 where
  claim :
      (now : ℕ) (ids : List ℕ) (r : ℕ) (l : Ledger)
      → OtherStep run l (claim_update_scopes now ids r l).0
  settle :
      (now : ℕ) (os : List Outcome) (r committed : ℕ) {l l' : Ledger}
      → r ≢ run
      → transition_update_scopes now os r committed l ≡ ok l'
      → OtherStep run l l'
  find_empty :
      (now : ℕ) (calls : List Call) (rs : List EmptyResult) (r : ℕ) (given : Option ℕ)
      {l l' : Ledger}
      → r ≢ run
      → record_empty_scope_results now calls rs r given l ≡ ok l'
      → OtherStep run l l'
  reset :
      (now : ℕ) (ids : List ℕ) (clear : Bool) (l : Ledger)
      → OtherStep run l (reset_update_scopes now ids clear l).0
  remove_obsolete :
      (src name hash : ℕ) (l : Ledger)
      → OtherStep run l (remove_obsolete_update_scopes src name hash l).0

pub data OtherSteps (run : ℕ) : Ledger → Ledger → Type 0 where
  here : (l : Ledger) → OtherSteps run l l
  next : {l l' l'' : Ledger} → OtherSteps run l l' → OtherStep run l' l'' → OtherSteps run l l''

not_held_by_other :
    (id run id' r : ℕ) (s : Scope) → r ≢ run → running_for id run s ≡ true → held id' r s ≡ false
not_held_by_other id run id' r s ne h = ground arith

-- The rows are valid, and one of them is running for the run.
pub record Kept (id run n : ℕ) (ss : List Scope) : Type 0 where
  pub rows : RowsValid n ss
  pub claimed_row : Claimed id run ss

module _ (id run r : ℕ) (ne : r ≢ run) where
  settled-Kept :
      (now id' n : ℕ) (o : Outcome) (ss : List Scope)
      → is_outcome o.status ≡ true
      → Kept id run n ss
      → Kept id run n (map (λ s. if held id' r s then settled now r o s else s) ss)
  settled-Kept now id' n o ss outcome k = record {
    rows = settled-RowsValid r now id' n o ss outcome k.rows;
    claimed_row =
        Claimed-update id run (held id' r) (settled now r o)
          (λ s. not_held_by_other id run id' r s ne) ss k.claimed_row;
  }

  emptied-Kept :
      (now id' n : ℕ) (ss : List Scope)
      → Kept id run n ss
      → Kept id run n (map (λ s. if held id' r s then emptied now s else s) ss)
  emptied-Kept now id' n ss k = record {
    rows = emptied-RowsValid r now id' n ss k.rows;
    claimed_row =
        Claimed-update id run (held id' r) (emptied now) (λ s. not_held_by_other id run id' r s ne)
          ss k.claimed_row;
  }

abbrev pub KeptIn : ℕ → ℕ → Ledger → Type 0
KeptIn id run l = Kept id run l.next_id l.scopes

reset-Claimed :
    (id run now : ℕ) (ids : List ℕ) (clear : Bool) (l : Ledger)
    → Claimed id run l.scopes
    → Claimed id run (reset_update_scopes now ids clear l).0.scopes
unfolding reset_update_scopes
reset-Claimed id run now ids true l c =
    Claimed-update id run (resettable ids) (reset_scope now true) (λ s h. ground arith) l.scopes c
reset-Claimed id run now ids false l c =
    Claimed-update id run (resettable ids) (reset_scope now false) (λ s h. ground arith) l.scopes c

claim-Claimed :
    (id run now : ℕ) (ids : List ℕ) (r : ℕ) (l : Ledger)
    → KeptIn id run l
    → Claimed id run (claim_update_scopes now ids r l).0.scopes
unfolding claim_update_scopes
claim-Claimed id run now ids r l k =
    Claimed-update id run (λ s. contains (taken_ids (claimable ids) l.scopes) s.id) (claimed now r)
      (λ s h.
        rw (same_id s id run h)
          (running_not_taken ids id run l.scopes k.rows.distinct k.claimed_row))
      l.scopes k.claimed_row

OtherStep-Kept :
    (id run : ℕ) {l l' : Ledger} → OtherStep run l l' → KeptIn id run l → KeptIn id run l'
OtherStep-Kept id run (OtherStep.claim now ids r l) k = record {
  rows = Step-IsValid (Step.claim now ids r l) k.rows;
  claimed_row = claim-Claimed id run now ids r l k;
}
OtherStep-Kept id run (OtherStep.settle now os r committed {l = l} ne e) k =
    of_Holds (KeptIn id run) e (
      settle-Keeps (Kept id run) r (settled-Kept id run r ne) (emptied-Kept id run r ne) now os
        committed l k)
OtherStep-Kept id run (OtherStep.find_empty now calls rs r given {l = l} ne e) k =
    of_Holds (KeptIn id run) e (
      find_empty-Keeps (Kept id run) r (settled-Kept id run r ne) (emptied-Kept id run r ne) now
        calls rs given l k)
OtherStep-Kept id run (OtherStep.reset now ids clear l) k = record {
  rows = Step-IsValid (Step.reset now ids clear l) k.rows;
  claimed_row = reset-Claimed id run now ids clear l k.claimed_row;
}
OtherStep-Kept id run (OtherStep.remove_obsolete src name hash l) k = record {
  rows = Step-IsValid (Step.remove_obsolete src name hash l) k.rows;
  claimed_row =
      unfold remove_obsolete_update_scopes in
      Claimed-filter id run (λ s. not (obsolete src name hash s)) (λ s h. ground arith) l.scopes
        k.claimed_row;
}

pub OtherSteps-Kept :
    (id run : ℕ) {l l' : Ledger} → OtherSteps run l l' → KeptIn id run l → KeptIn id run l'
OtherSteps-Kept id run (OtherSteps.here l) k = k
OtherSteps-Kept id run (OtherSteps.next steps s) k =
    OtherStep-Kept id run s (OtherSteps-Kept id run steps k)
