-- ===== src/Ledger/Steps.antt =====
-- The ledger as a state machine: one step for each operation that returns, and what holds in every
-- ledger that the operations can reach.
use bagelquant_data.Prelude.{ℕ, ◌≡◌, Bool, Option, List, []}
use bagelquant_data.Ledger.Data.{RunStatus, Call, DatasetFlag, Ledger, ok}
use bagelquant_data.Ledger.Scopes.{
  Declared, synchronize_update_scopes, remove_obsolete_update_scopes, claim_update_scopes,
}
use bagelquant_data.Ledger.Outcomes.{
  Outcome, transition_update_scopes, EmptyResult, record_empty_scope_results, reset_update_scopes,
}
use bagelquant_data.Ledger.Leases.{
  RunTotals, finalize_run, record_api_calls, begin_run, LeaseRequest, acquire_update_leases,
  abandon_update_owner, refresh_update_lease, release_update_leases,
}

-- A call that raises leaves the tables alone, and is no step.
pub data Step : Ledger → Ledger → Type 0 where
  synchronize :
      (now : ℕ) (rows : List Declared) (l : Ledger) → Step l (synchronize_update_scopes now rows l)
  remove_obsolete :
      (src name hash : ℕ) (l : Ledger) → Step l (remove_obsolete_update_scopes src name hash l).0
  claim :
      (now : ℕ) (ids : List ℕ) (run : ℕ) (l : Ledger) → Step l (claim_update_scopes now ids run l).0
  settle :
      (now : ℕ) (os : List Outcome) (run committed : ℕ) {l l' : Ledger}
      → transition_update_scopes now os run committed l ≡ ok l'
      → Step l l'
  find_empty :
      (now : ℕ) (calls : List Call) (rs : List EmptyResult) (run : ℕ) (count : Option ℕ)
      {l l' : Ledger}
      → record_empty_scope_results now calls rs run count l ≡ ok l'
      → Step l l'
  reset :
      (now : ℕ) (ids : List ℕ) (clear : Bool) (l : Ledger)
      → Step l (reset_update_scopes now ids clear l).0
  begin :
      (now run src name : ℕ) (owner : Option ℕ) {l l' : Ledger}
      → begin_run now run src name owner l ≡ ok l'
      → Step l l'
  acquire :
      (now : ℕ) (qs : List LeaseRequest) (ttl : ℕ) (owner : Option ℕ) {l l' : Ledger}
      → acquire_update_leases now qs ttl owner l ≡ ok l'
      → Step l l'
  abandon : (now owner reason : ℕ) (l : Ledger) → Step l (abandon_update_owner now owner reason l)
  finish :
      (now run : ℕ) (status : RunStatus) (t : RunTotals) (l : Ledger)
      → Step l (finalize_run now run status t l)
  audit : (cs : List Call) (l : Ledger) → Step l (record_api_calls cs l)
  refresh : (now run ttl : ℕ) (l : Ledger) → Step l (refresh_update_lease now run ttl l)
  release : (runs : List ℕ) (l : Ledger) → Step l (release_update_leases runs l)

-- The ledgers that the operations reach from an empty database.
pub data Reachable : Ledger → Type 0 where
  empty :
      (datasets : List DatasetFlag)
      → Reachable (record {
        scopes = [];
        next_id = 1;
        checks = [];
        runs = [];
        leases = [];
        calls = [];
        datasets = datasets;
      })
  step : {l l' : Ledger} → Reachable l → Step l l' → Reachable l'
