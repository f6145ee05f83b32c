-- ===== src/Ledger/Abandon.antt =====
-- Abandoning an owner takes exactly what worked for it.
use bagelquant_data.Prelude.{
  ℕ, ◌≡◌, refl, ◌∙◌, ap, ap₂, Bool, not, ◌&&◌, ◌||◌, inl, inr, none, List, [], ◌∷◌, map, arith,
  ◌==◌, if◌then◌else◌, filter, any, Bool-cases, Option-cases, All, any-append, ==→eq,
}
use mathlib.Core.Path.{fun_ext}
use bagelquant_data.Ledger.Data.{Scope, Run, Lease, Ledger, run_is_active, equals}
use bagelquant_data.Ledger.Rows.{IsOwned}
use bagelquant_data.Ledger.Scopes.{contains}
use bagelquant_data.Ledger.Leases.{
  owner_runs, held_by_any, abandoned, cancel_run, abandon_update_owner,
}
use bagelquant_data.Ledger.Steps.{Reachable}
use bagelquant_data.Ledger.Invariant.{Reachable-IsValid}
use bagelquant_data.Ledger.Locks.{held_by, holder_of}
use bagelquant_data.Ledger.Refinement.{locks}

-- A run works for an owner that has it as an active run, or that has a lease for it.
abbrev pub works_for : ℕ → Ledger → ℕ → Bool
works_for owner l run =
    any (λ r. r.run_id == run && (equals r.owner_id owner && run_is_active r.status)) l.runs
    || any (λ e. e.run_id == run && e.owner_id == owner) l.leases

abbrev pub is_active : ℕ → Ledger → Bool
is_active run l = any (λ r. r.run_id == run && run_is_active r.status) l.runs

abbrev pub has_lease : ℕ → ℕ → ℕ → Ledger → Bool
has_lease src name owner l =
    any (λ e. (e.source == src && e.dataset == name) && e.owner_id == owner) l.leases

contains-filter :
    {A : Type 0} (key : A → ℕ) (p : A → Bool) (xs : List A) (k : ℕ)
    → contains (map key (filter p xs)) k ≡ any (λ x. key x == k && p x) xs
contains-filter key p [] k = refl
contains-filter key p (x ∷ xs) k = ground (arith, contains-filter key p xs k)

contains-owner_runs :
    (owner : ℕ) (l : Ledger) (run : ℕ) → contains (owner_runs owner l) run ≡ works_for owner l run
contains-owner_runs owner l run =
    any-append (λ i. i == run)
      (map (λ r. r.run_id) (filter (λ r. equals r.owner_id owner && run_is_active r.status) l.runs))
      (map (λ e. e.run_id) (filter (λ e. e.owner_id == owner) l.leases))
    ∙ ap₂ ◌||◌
        (contains-filter (λ (r : Run). r.run_id)
          (λ r. equals r.owner_id owner && run_is_active r.status) l.runs run)
        (contains-filter (λ (e : Lease). e.run_id) (λ e. e.owner_id == owner) l.leases run)

-- A valid row is updated exactly when a listed run holds it.
held_row :
    (runs : List ℕ) (s : Scope)
    → IsOwned s
    → held_by_any runs s ≡ held_by (contains runs) s.active_run_id
held_row runs s o = elim (Option-cases s.active_run_id) [
  | inl e ↦ ground (arith, o, e)
  | inr (r, e) ↦ ground (arith, o, e)
]

holder_of-abandoned :
    (now reason : ℕ) (runs : List ℕ) (id : ℕ) (ss : List Scope)
    → All IsOwned ss
    → holder_of id (map (λ s. if held_by_any runs s then abandoned now reason s else s) ss)
      ≡ (if held_by (contains runs) (holder_of id ss) then none else holder_of id ss)
holder_of-abandoned now reason runs id [] o = refl
holder_of-abandoned now reason runs id (s ∷ ss) o =
    ground (arith, held_row runs s o.0, holder_of-abandoned now reason runs id ss o.1)

active_after :
    (now reason : ℕ) (runs : List ℕ) (run : ℕ) (rs : List Run)
    → any
        (λ r. r.run_id == run && run_is_active r.status)
        (map
          (λ r.
            if run_is_active r.status && contains runs r.run_id then cancel_run now reason r else r)
          rs)
      ≡ (any (λ r. r.run_id == run && run_is_active r.status) rs && not (contains runs run))
active_after now reason runs run [] = refl
active_after now reason runs run (r ∷ rs) = elim (Bool-cases (r.run_id == run)) [
  | inl here ↦
      ground
        (arith, active_after now reason runs run rs, ap (contains runs) (==→eq r.run_id run here))
  | inr other ↦ ground (arith, active_after now reason runs run rs)
]

leases_after :
    (owner src name other : ℕ) (es : List Lease)
    → any
        (λ e. (e.source == src && e.dataset == name) && e.owner_id == other)
        (filter (λ e. not (e.owner_id == owner)) es)
      ≡ (any (λ e. (e.source == src && e.dataset == name) && e.owner_id == other) es
          && not (other == owner))
leases_after owner src name other [] = refl
leases_after owner src name other (e ∷ es) = ground (arith, leases_after owner src name other es)

-- In every ledger that the operations reach, `abandon_update_owner` takes exactly what works for the
-- owner, which are its active runs and the runs that it has leases for: a scope that such a run holds
-- is held by no run afterwards, and every other scope has the holder that it had; a run is active
-- afterwards exactly when it was and does not work for the owner; and an owner has the lease of a
-- dataset afterwards exactly when it had it and is another.
pub abandon_update_owner_exact :
    (now owner reason : ℕ) (l : Ledger)
    → Reachable l
    → ((id : ℕ)
        → locks (abandon_update_owner now owner reason l) id
          ≡ (if held_by (works_for owner l) (locks l id) then none else locks l id))
      × ((run : ℕ)
          → is_active run (abandon_update_owner now owner reason l)
            ≡ (is_active run l && not (works_for owner l run)))
      × ((src name other : ℕ)
          → has_lease src name other (abandon_update_owner now owner reason l)
            ≡ (has_lease src name other l && not (other == owner)))
unfolding abandon_update_owner
abandon_update_owner_exact now owner reason l reached = (
  λ id. rw (← fun_ext (contains-owner_runs owner l)) (
      holder_of-abandoned now reason (owner_runs owner l) id l.scopes
        (Reachable-IsValid reached).owned),
  λ run.
      active_after now reason (owner_runs owner l) run l.runs
      ∙ ap (λ b. is_active run l && not b) (contains-owner_runs owner l run),
  λ src name other. leases_after owner src name other l.leases,
)
