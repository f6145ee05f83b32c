-- ===== src/Ledger/Invariant.antt =====
-- Every operation of the ledger keeps its scopes well formed: ids are fresh and distinct, and a scope is
-- running exactly when a run holds it.
use bagelquant_data.Prelude.{
  ℕ, ◌+◌, ◌≡◌, refl, Bool, true, false, not, inl, inr, Option, List, [], ◌∷◌, map, arith, ◌==◌,
  if◌then◌else◌, filter, any, Bool-cases,
}
use bagelquant_data.Ledger.Data.{
  Status, is_running, is_outcome, Scope, Lease, Ledger, Result, ok, err, ◌>>=◌, for_each, Holds,
  of_Holds,
}
use bagelquant_data.Ledger.Scopes.{
  Declared, same_identity, outdated, delete_checks, fresh_scope, redeclare, declare,
  delete_outdated, declare_all, synchronize_update_scopes, obsolete, remove_obsolete_update_scopes,
  claim_update_scopes, claimable, claimed, contains,
}
use bagelquant_data.Ledger.Outcomes.{
  Outcome, held, settled, emptied, reset_scope, resettable, reset_update_scopes,
}
use bagelquant_data.Ledger.Leases.{
  finalize_run, record_api_calls, begin_run, LeaseRequest, conflicts, grant, acquire_update_leases,
  abandon_update_owner, abandoned, held_by_any, owner_runs, refresh_update_lease,
  release_update_leases,
}
use bagelquant_data.Ledger.Rows.{RowsValid, RowsValid-update, RowsValid-filter, RowsValid-insert}
use bagelquant_data.Ledger.Lift.{settle-Keeps, find_empty-Keeps}
use bagelquant_data.Ledger.Steps.{Step, Reachable}

abbrev pub IsValid : Ledger → Type 0
IsValid l = RowsValid l.next_id l.scopes

pub declare-IsValid : (now : ℕ) (d : Declared) (l : Ledger) → IsValid l → IsValid (declare now l d)
unfolding declare
declare-IsValid now d l v = elim (Bool-cases (any (same_identity d) l.scopes)) [
  | inl known ↦
      rw (known, declare)
        (RowsValid-update (same_identity d) (redeclare now d) (λ s. ground arith)
          (λ s o _. ground arith) l.scopes v)
  | inr new ↦
      rw (new, declare) (RowsValid-insert l.scopes (fresh_scope now l.next_id d) refl refl v)
]

declare_all-IsValid :
    (now : ℕ) (ds : List Declared) (l : Ledger) → IsValid l → IsValid (declare_all now ds l)
unfolding declare_all
declare_all-IsValid now [] l v = v
declare_all-IsValid now (d ∷ ds) l v =
    declare_all-IsValid now ds (declare now l d) (declare-IsValid now d l v)

pub delete_outdated-IsValid :
    (ds : List Declared) (l : Ledger) → IsValid l → IsValid (delete_outdated ds l)
unfolding delete_outdated
delete_outdated-IsValid [] l v = v
delete_outdated-IsValid (d ∷ ds) l v = delete_outdated-IsValid ds (delete_checks (outdated d) l) v

pub outcome_not_running : (s : Status) → is_outcome s ≡ true → is_running s ≡ false
outcome_not_running Status.running h = cc
outcome_not_running _ h = refl

pub settled-RowsValid :
    (run now id n : ℕ) (o : Outcome) (ss : List Scope)
    → is_outcome o.status ≡ true
    → RowsValid n ss
    → RowsValid n (map (λ s. if held id run s then settled now run o s else s) ss)
settled-RowsValid run now id n o ss outcome =
    RowsValid-update (held id run) (settled now run o) (λ s. refl)
      (λ s _ _. outcome_not_running o.status outcome) ss

pub emptied-RowsValid :
    (run now id n : ℕ) (ss : List Scope)
    → RowsValid n ss
    → RowsValid n (map (λ s. if held id run s then emptied now s else s) ss)
emptied-RowsValid run now id n ss =
    RowsValid-update (held id run) (emptied now) (λ s. refl) (λ s _ _. refl) ss

reset-IsValid :
    (now : ℕ) (ids : List ℕ) (clear : Bool) (l : Ledger)
    → IsValid l
    → IsValid (reset_update_scopes now ids clear l).0
unfolding reset_update_scopes
reset-IsValid now ids true l v =
    RowsValid-update (resettable ids) (reset_scope now true) (λ s. refl) (λ s _ _. refl) l.scopes v
reset-IsValid now ids false l v =
    RowsValid-update (resettable ids) (reset_scope now false) (λ s. refl) (λ s _ _. refl) l.scopes v

begin-IsValid :
    (now run src name : ℕ) (owner : Option ℕ) (l : Ledger)
    → IsValid l
    → Holds IsValid (begin_run now run src name owner l)
unfolding begin_run
begin-IsValid now run src name owner l v = elim (Bool-cases (any (λ r. r.run_id == run) l.runs)) [
  | inl known ↦ rw (known, begin_run) tt
  | inr new ↦ rw (new, begin_run) v
]

acquire-IsValid :
    (now : ℕ) (qs : List LeaseRequest) (ttl : ℕ) (owner : Option ℕ) (l : Ledger)
    → IsValid l
    → Holds IsValid (acquire_update_leases now qs ttl owner l)
unfolding acquire_update_leases
acquire-IsValid now qs ttl owner l v =
    elim (Bool-cases (any (λ q. any (conflicts q) l.leases) qs)) [
      | inl taken ↦ rw (taken, acquire_update_leases) tt
      | inr free ↦
          rw (free, acquire_update_leases)
            (always (for_each (grant now (now + ttl) owner) qs l.leases))
    ]
  where
    always : (m : Result (List Lease)) → Holds IsValid (m >>= λ es. ok (record l { leases = es }))
    always (ok es) = v
    always (err e) = tt

pub Step-IsValid : {l l' : Ledger} → Step l l' → IsValid l → IsValid l'
unfolding synchronize_update_scopes remove_obsolete_update_scopes claim_update_scopes
    abandon_update_owner refresh_update_lease release_update_leases finalize_run record_api_calls
Step-IsValid (Step.synchronize now rows l) v =
    declare_all-IsValid now rows (delete_outdated rows l) (delete_outdated-IsValid rows l v)
Step-IsValid (Step.remove_obsolete src name hash l) v =
    RowsValid-filter (λ s. not (obsolete src name hash s)) l.scopes v
Step-IsValid (Step.claim now ids run l) v =
    RowsValid-update (λ s. contains (map (λ s. s.id) (filter (claimable ids) l.scopes)) s.id)
      (claimed now run) (λ s. refl) (λ s _ _. refl) l.scopes v
Step-IsValid (Step.settle now os run committed {l = l} e) v = of_Holds IsValid e (
    settle-Keeps RowsValid run (settled-RowsValid run) (emptied-RowsValid run) now os committed l v)
Step-IsValid (Step.find_empty now calls rs run given {l = l} e) v = of_Holds IsValid e (
    find_empty-Keeps RowsValid run (settled-RowsValid run) (emptied-RowsValid run) now calls rs
      given l v)
Step-IsValid (Step.reset now ids clear l) v = reset-IsValid now ids clear l v
Step-IsValid (Step.begin now run src name owner {l = l} e) v =
    of_Holds IsValid e (begin-IsValid now run src name owner l v)
Step-IsValid (Step.acquire now qs ttl owner {l = l} e) v =
    of_Holds IsValid e (acquire-IsValid now qs ttl owner l v)
Step-IsValid (Step.abandon now owner reason l) v =
    RowsValid-update (held_by_any (owner_runs owner l)) (abandoned now reason) (λ s. refl)
      (λ s _ _. refl) l.scopes v
Step-IsValid (Step.finish now run status t l) v = v
Step-IsValid (Step.audit cs l) v = v
Step-IsValid (Step.refresh now run ttl l) v = v
Step-IsValid (Step.release runs l) v = v

-- In every ledger that the operations reach from an empty database, scope ids are distinct and below
-- the next id, and a scope is running exactly when a run holds it.
pub Reachable-IsValid : {l : Ledger} → Reachable l → IsValid l
Reachable-IsValid (Reachable.empty datasets) = record { owned = tt; issued = tt; distinct = tt }
Reachable-IsValid (Reachable.step r s) = Step-IsValid s (Reachable-IsValid r)
