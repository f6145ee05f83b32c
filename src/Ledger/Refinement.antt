-- ===== src/Ledger/Refinement.antt =====
-- Every operation of the ledger performs a move of the lock table.
use bagelquant_data.Prelude.{
  ℕ, ◌+◌, ◌≡◌, refl, sym, Bool, true, false, not, ◌&&◌, ◌⊎◌, inl, inr, Option, none, some, List, [],
  ◌∷◌, map, arith, ◌==◌, if◌then◌else◌, any, Bool-cases, Option-cases, is_some,
}
use bagelquant_data.Ledger.Data.{
  is_running, is_outcome, Scope, Lease, Ledger, Result, ok, err, ◌>>=◌, for_each, Holds, of_Holds,
}
use bagelquant_data.Ledger.Scopes.{
  Declared, same_identity, outdated, delete_checks, fresh_scope, redeclare, declare,
  delete_outdated, declare_all, synchronize_update_scopes, obsolete, remove_obsolete_update_scopes,
  claim_update_scopes, claimable, contains,
}
use bagelquant_data.Ledger.Outcomes.{
  Outcome, held, settled, emptied, reset_scope, resettable, reset_update_scopes,
}
use bagelquant_data.Ledger.Leases.{
  finalize_run, record_api_calls, begin_run, LeaseRequest, conflicts, grant, acquire_update_leases,
  abandon_update_owner, abandoned, held_by_any, owner_runs, refresh_update_lease,
  release_update_leases,
}
use bagelquant_data.Ledger.Rows.{RowsValid, IsOwned}
use bagelquant_data.Ledger.Lift.{settle-Keeps, find_empty-Keeps}
use bagelquant_data.Ledger.Steps.{Step, Reachable}
use bagelquant_data.Ledger.Invariant.{
  IsValid, outcome_not_running, settled-RowsValid, emptied-RowsValid, declare-IsValid,
  Reachable-IsValid,
}
use bagelquant_data.Ledger.Claims.{taken_ids}
use bagelquant_data.Ledger.Locks.{
  Locks, Move, held_by, Freed, Performs, holder_of, Freed-trans, holder_of-update, holder_of-filter,
  holder_of-append, idle_row, free_taken, holder_of-claimed, taken_rows,
}

abbrev pub locks : Ledger → Locks
locks l id = holder_of id l.scopes

-- The move of each operation: a claim takes the scopes that it returns; the operations of a run on its
-- outcomes free scopes of that run only, an abandoned owner loses the scopes of its runs, and a
-- declaration may free any; the others free none.
abbrev pub move_of : {l l' : Ledger} → Step l l' → Move
move_of (Step.synchronize now rows l) = Move.free (λ r. true)
move_of (Step.remove_obsolete src name hash l) = Move.free (λ r. false)
move_of (Step.claim now ids run l) = Move.take run (claim_update_scopes now ids run l).1
move_of (Step.settle now os run committed e) = Move.free (λ r. r == run)
move_of (Step.find_empty now calls rs run count e) = Move.free (λ r. r == run)
move_of (Step.reset now ids clear l) = Move.free (λ r. false)
move_of (Step.begin now run src name owner e) = Move.free (λ r. false)
move_of (Step.acquire now qs ttl owner e) = Move.free (λ r. false)
move_of (Step.abandon now owner reason l) = Move.free (contains (owner_runs owner l))
move_of (Step.finish now run status t l) = Move.free (λ r. false)
move_of (Step.audit cs l) = Move.free (λ r. false)
move_of (Step.refresh now run ttl l) = Move.free (λ r. false)
move_of (Step.release runs l) = Move.free (λ r. false)

held_lock :
    (id run : ℕ) (s : Scope) → held id run s ≡ true → held_by (λ r. r == run) s.active_run_id ≡ true
held_lock id run s h = ground (arith, h)

-- The rows are valid, and compared with the table `f` only locks of runs that `whose` names are freed.
record Frees (whose : ℕ → Bool) (f : Locks) (n : ℕ) (ss : List Scope) : Type 0 where
  rows : RowsValid n ss
  freed : (id : ℕ) → Freed whose (f id) (holder_of id ss)

module _ (f : Locks) (run : ℕ) where
  settled-Frees :
      (now id n : ℕ) (o : Outcome) (ss : List Scope)
      → is_outcome o.status ≡ true
      → Frees (λ r. r == run) f n ss
      → Frees (λ r. r == run) f n (map (λ s. if held id run s then settled now run o s else s) ss)
  settled-Frees now id n o ss outcome k = record {
    rows = settled-RowsValid run now id n o ss outcome k.rows;
    freed = λ i.
        Freed-trans (λ r. r == run) (f i) (holder_of i ss) _ (k.freed i)
          (holder_of-update (λ r. r == run) (held id run) (settled now run o) (λ s. refl)
            (λ s owned h. inr (refl, held_lock id run s h)) i ss k.rows.owned);
  }

  emptied-Frees :
      (now id n : ℕ) (ss : List Scope)
      → Frees (λ r. r == run) f n ss
      → Frees (λ r. r == run) f n (map (λ s. if held id run s then emptied now s else s) ss)
  emptied-Frees now id n ss k = record {
    rows = emptied-RowsValid run now id n ss k.rows;
    freed = λ i.
        Freed-trans (λ r. r == run) (f i) (holder_of i ss) _ (k.freed i)
          (holder_of-update (λ r. r == run) (held id run) (emptied now) (λ s. refl)
            (λ s owned h. inr (refl, held_lock id run s h)) i ss k.rows.owned);
  }

unchanged : (whose : ℕ → Bool) (l : Ledger) → IsValid l → Frees whose (locks l) l.next_id l.scopes
unchanged whose l v = record { rows = v; freed = λ id. inl refl }

-- A lock that is kept or dropped, whoever holds it.
Freed-any : (a b : Option ℕ) → (b ≡ a) ⊎ (b ≡ none) → Freed (λ r. true) a b
Freed-any a b (inl e) = inl e
Freed-any none b (inr n) = inl n
Freed-any (some r) b (inr n) = inr (n, refl)

redeclared :
    (now : ℕ) (d : Declared) (s : Scope)
    → ((redeclare now d s).active_run_id ≡ s.active_run_id)
      ⊎ ((redeclare now d s).active_run_id ≡ none)
redeclared now d s = elim (Bool-cases (not (s.spec_hash == d.spec_hash))) [
  | inl changed ↦ inr (rw (changed, redeclare) refl)
  | inr same ↦ inl (ground (arith, same))
]

redeclare-id : (now : ℕ) (d : Declared) (s : Scope) → (redeclare now d s).id ≡ s.id
redeclare-id now d s = ground arith

declare-Frees :
    (f : Locks) (now : ℕ) (d : Declared) (l : Ledger)
    → Frees (λ r. true) f l.next_id l.scopes
    → Frees (λ r. true) f (declare now l d).next_id (declare now l d).scopes
unfolding declare
declare-Frees f now d l k = record {
  rows = declare-IsValid now d l k.rows;
  freed = λ id. Freed-trans (λ r. true) (f id) (holder_of id l.scopes) _ (k.freed id) (kept id);
}
  where
    kept :
        (id : ℕ) → Freed (λ r. true) (holder_of id l.scopes) (holder_of id (declare now l d).scopes)
    kept id = elim (Bool-cases (any (same_identity d) l.scopes)) [
      | inl known ↦
          rw (known, declare)
            (holder_of-update (λ r. true) (same_identity d) (redeclare now d) (redeclare-id now d)
              (λ s owned h. Freed-any s.active_run_id _ (redeclared now d s)) id l.scopes
              k.rows.owned)
      | inr new ↦
          rw (new, declare) (inl (holder_of-append id l.scopes (fresh_scope now l.next_id d) refl))
    ]

declare_all-Frees :
    (f : Locks) (now : ℕ) (ds : List Declared) (l : Ledger)
    → Frees (λ r. true) f l.next_id l.scopes
    → Frees (λ r. true) f (declare_all now ds l).next_id (declare_all now ds l).scopes
unfolding declare_all
declare_all-Frees f now [] l k = k
declare_all-Frees f now (d ∷ ds) l k =
    declare_all-Frees f now ds (declare now l d) (declare-Frees f now d l k)

delete_outdated-Frees :
    (f : Locks) (ds : List Declared) (l : Ledger)
    → Frees (λ r. true) f l.next_id l.scopes
    → Frees (λ r. true) f (delete_outdated ds l).next_id (delete_outdated ds l).scopes
unfolding delete_outdated
delete_outdated-Frees f [] l k = k
delete_outdated-Frees f (d ∷ ds) l k = delete_outdated-Frees f ds (delete_checks (outdated d) l) k

-- A scope with an outcome is not running, and a run of an abandoned owner holds it.
idle_outcome : (s : Scope) → is_outcome s.status ≡ true → is_running s.status ≡ false
idle_outcome s h = outcome_not_running s.status h

owner_lock :
    (runs : List ℕ) (s : Scope)
    → held_by_any runs s ≡ true
    → held_by (contains runs) s.active_run_id ≡ true
owner_lock runs s h = elim (Option-cases s.active_run_id) [
  | inl e ↦ absurd (ground (arith, h, e))
  | inr (r, e) ↦ ground (arith, h, e)
]

resettable_idle :
    (ids : List ℕ) (now : ℕ) (clear : Bool) (s : Scope)
    → IsOwned s
    → resettable ids s ≡ true
    → Freed (λ r. false) s.active_run_id none
resettable_idle ids now clear s owned h =
    inl (sym (idle_row s owned (idle_outcome s (ground (arith, h)))))

obsolete_idle :
    (src name hash : ℕ) (s : Scope)
    → IsOwned s
    → not (obsolete src name hash s) ≡ false
    → s.active_run_id ≡ none
obsolete_idle src name hash s owned h = idle_row s owned (ground (arith, h))

reset-Freed :
    (now : ℕ) (ids : List ℕ) (clear : Bool) (l : Ledger)
    → IsValid l
    → (id : ℕ) → Freed (λ r. false) (locks l id) (locks (reset_update_scopes now ids clear l).0 id)
unfolding reset_update_scopes
reset-Freed now ids true l v id =
    holder_of-update (λ r. false) (resettable ids) (reset_scope now true) (λ s. refl)
      (resettable_idle ids now true) id l.scopes v.owned
reset-Freed now ids false l v id =
    holder_of-update (λ r. false) (resettable ids) (reset_scope now false) (λ s. refl)
      (resettable_idle ids now false) id l.scopes v.owned

-- The step leaves every lock as it is.
abbrev Unmoved : Ledger → Ledger → Type 0
Unmoved l l' = (id : ℕ) → Freed (λ r. false) (locks l id) (locks l' id)

begin-Unmoved :
    (now run src name : ℕ) (owner : Option ℕ) (l : Ledger)
    → Holds (Unmoved l) (begin_run now run src name owner l)
unfolding begin_run
begin-Unmoved now run src name owner l = elim (Bool-cases (any (λ r. r.run_id == run) l.runs)) [
  | inl known ↦ rw (known, begin_run) tt
  | inr new ↦ rw (new, begin_run) (λ id. inl refl)
]

acquire-Unmoved :
    (now : ℕ) (qs : List LeaseRequest) (ttl : ℕ) (owner : Option ℕ) (l : Ledger)
    → Holds (Unmoved l) (acquire_update_leases now qs ttl owner l)
unfolding acquire_update_leases
acquire-Unmoved now qs ttl owner l = elim (Bool-cases (any (λ q. any (conflicts q) l.leases) qs)) [
  | inl taken ↦ rw (taken, acquire_update_leases) tt
  | inr free ↦
      rw (free, acquire_update_leases) (always (for_each (grant now (now + ttl) owner) qs l.leases))
]
  where
    always :
        (m : Result (List Lease)) → Holds (Unmoved l) (m >>= λ es. ok (record l { leases = es }))
    always (ok es) = λ id. inl refl
    always (err e) = tt

claim-Performs :
    (now : ℕ) (ids : List ℕ) (run : ℕ) (l : Ledger)
    → IsValid l
    → Performs
        (Move.take run (claim_update_scopes now ids run l).1)
        (locks l)
        (locks (claim_update_scopes now ids run l).0)
unfolding claim_update_scopes
claim-Performs now ids run l v id =
    let taken = taken_ids (claimable ids) l.scopes in
    (
      unheld (Bool-cases (contains taken id)),
      holder_of-claimed now run taken id l.scopes (taken_rows (claimable ids) id l.scopes),
    )
  where
    unheld :
        (contains (taken_ids (claimable ids) l.scopes) id ≡ true)
          ⊎ (contains (taken_ids (claimable ids) l.scopes) id ≡ false)
        → (contains (taken_ids (claimable ids) l.scopes) id && is_some (holder_of id l.scopes))
          ≡ false
    unheld (inl mine) = rw (mine, free_taken ids id l.scopes v.owned v.distinct mine) refl
    unheld (inr foreign) = rw foreign refl

-- In every ledger that the operations reach from an empty database, each operation is a move of a table
-- of locks, one for each scope: a claim takes exactly the scopes that it returns, all of them free;
-- settling outcomes and recording empty results free scopes of their own run only; abandoning an owner
-- frees scopes of that owner's runs only; a declaration may free scopes; and every other operation leaves
-- all locks as they are. No operation hands a scope from one run to another.
pub Step-Performs :
    {l l' : Ledger} (s : Step l l') → Reachable l → Performs (move_of s) (locks l) (locks l')
unfolding synchronize_update_scopes remove_obsolete_update_scopes abandon_update_owner
    refresh_update_lease release_update_leases finalize_run record_api_calls
Step-Performs (Step.synchronize now rows l) r =
    let k =
      delete_outdated-Frees (locks l) rows l (unchanged (λ r. true) l (Reachable-IsValid r)) in
    (declare_all-Frees (locks l) now rows (delete_outdated rows l) k).freed
Step-Performs (Step.remove_obsolete src name hash l) r =
    let v = Reachable-IsValid r in
    λ id. inl (
      holder_of-filter (λ s. not (obsolete src name hash s)) (obsolete_idle src name hash) id
        l.scopes v.owned v.distinct)
Step-Performs (Step.claim now ids run l) r = claim-Performs now ids run l (Reachable-IsValid r)
Step-Performs (Step.settle now os run committed {l = l} e) r =
    (of_Holds (λ l'. Frees (λ r. r == run) (locks l) l'.next_id l'.scopes) e
      (settle-Keeps (Frees (λ r. r == run) (locks l)) run (settled-Frees (locks l) run)
        (emptied-Frees (locks l) run) now os committed l
        (unchanged (λ r. r == run) l (Reachable-IsValid r)))).freed
Step-Performs (Step.find_empty now calls rs run given {l = l} e) r =
    (of_Holds (λ l'. Frees (λ r. r == run) (locks l) l'.next_id l'.scopes) e
      (find_empty-Keeps (Frees (λ r. r == run) (locks l)) run (settled-Frees (locks l) run)
        (emptied-Frees (locks l) run) now calls rs given l
        (unchanged (λ r. r == run) l (Reachable-IsValid r)))).freed
Step-Performs (Step.reset now ids clear l) r = reset-Freed now ids clear l (Reachable-IsValid r)
Step-Performs (Step.begin now run src name owner {l = l} e) r =
    of_Holds (Unmoved l) e (begin-Unmoved now run src name owner l)
Step-Performs (Step.acquire now qs ttl owner {l = l} e) r =
    of_Holds (Unmoved l) e (acquire-Unmoved now qs ttl owner l)
Step-Performs (Step.abandon now owner reason l) r =
    let v = Reachable-IsValid r in
    λ id.
      holder_of-update (contains (owner_runs owner l)) (held_by_any (owner_runs owner l))
        (abandoned now reason) (λ s. refl)
        (λ s owned h. inr (refl, owner_lock (owner_runs owner l) s h)) id l.scopes v.owned
Step-Performs (Step.finish now run status t l) r = λ id. inl refl
Step-Performs (Step.audit cs l) r = λ id. inl refl
Step-Performs (Step.refresh now run ttl l) r = λ id. inl refl
Step-Performs (Step.release runs l) r = λ id. inl refl
