-- ===== src/Ledger/Tests.antt =====
-- A scope's life in a small ledger, and the properties at the ledgers of it.
use bagelquant_data.Prelude.{
  ℕ, ◌≡◌, refl, true, false, none, some, [], ◌∷◌, any, ◌==◌, ◌||◌, ◌&&◌, not, if◌then◌else◌,
}
use bagelquant_data.Ledger.Data.{Status, Ledger, Result, ok, err, coalesce}
use bagelquant_data.Ledger.Scopes.{
  Declared, synchronize_update_scopes, claim_update_scopes, contains,
}
use bagelquant_data.Ledger.Outcomes.{Outcome, transition_update_scopes, reset_update_scopes}
use bagelquant_data.Ledger.Leases.{
  LeaseRequest, begin_run, acquire_update_leases, abandon_update_owner,
}
use bagelquant_data.Ledger.Steps.{Step, Reachable}
use bagelquant_data.Ledger.Invariant.{IsValid, Reachable-IsValid}
use bagelquant_data.Ledger.Claims.{claim_exclusive}
use bagelquant_data.Ledger.Interference.{OtherStep, OtherSteps}
use bagelquant_data.Ledger.Settling.{outcomes_of, claim_lasts}
use bagelquant_data.Ledger.Watermark.{reached, advances, reached-transition_update_scopes}
use bagelquant_data.Ledger.LeaseLaws.{holder, requested, holder-acquire_update_leases}
use bagelquant_data.Ledger.Abandon.{works_for, is_active, has_lease, abandon_update_owner_exact}
use bagelquant_data.Ledger.Locks.{Move, Performs, held_by}
use bagelquant_data.Ledger.Refinement.{locks, Step-Performs}

abbrev empty_ledger : Ledger
empty_ledger = record {
  scopes = [];
  next_id = 1;
  checks = [];
  runs = [];
  leases = [];
  calls = [];
  datasets = record { source = 1; name = 2; update_incomplete = false } ∷ [];
}

abbrev day_scope : ℕ → Declared
day_scope key = record {
  source = 1;
  dataset = 2;
  scope_kind = 3;
  scope_key = key;
  variant_hash = 4;
  initial_start = some 100;
  spec_hash = 9;
}

-- Scopes 1 and 2 are declared.
declared : Ledger
declared = synchronize_update_scopes 10 (day_scope 101 ∷ day_scope 102 ∷ []) empty_ledger

-- Run 7 holds scope 1.
first_claim : Ledger
first_claim = (claim_update_scopes 20 (1 ∷ []) 7 declared).0

first_claim-Reachable : Reachable first_claim
unfolding first_claim declared
first_claim-Reachable =
    Reachable.step
      (Reachable.step (Reachable.empty empty_ledger.datasets)
        (Step.synchronize 10 (day_scope 101 ∷ day_scope 102 ∷ []) empty_ledger))
      (Step.claim 20 (1 ∷ []) 7 declared)

-- Scopes 1 and 2 of 3 are free; then scope 1 is not.
claims-declared :
    ((claim_update_scopes 20 (1 ∷ 2 ∷ 3 ∷ []) 7 declared).1 ≡ 1 ∷ 2 ∷ [])
    × ((claim_update_scopes 30 (1 ∷ 2 ∷ []) 8 first_claim).1 ≡ 2 ∷ [])
unfolding declared first_claim synchronize_update_scopes claim_update_scopes
claims-declared = (refl, refl)

Reachable-IsValid_example : IsValid first_claim
Reachable-IsValid_example = Reachable-IsValid first_claim-Reachable

claim_exclusive_example :
    contains
      (claim_update_scopes 30 (1 ∷ 2 ∷ []) 8 (claim_update_scopes 20 (1 ∷ []) 7 declared).0).1
      1
    ≡ false
unfolding declared synchronize_update_scopes claim_update_scopes
claim_exclusive_example = claim_exclusive 20 30 (1 ∷ []) (1 ∷ 2 ∷ []) 7 8 declared 1 taken
  where
    taken : contains (claim_update_scopes 20 (1 ∷ []) 7 declared).1 1 ≡ true
    taken = refl

abbrev found_rows : Outcome
found_rows = record {
  scope_id = 1;
  status = Status.success;
  data_max_time = some 101;
  row_count = 50;
  last_error = none;
  provider_checked_through = some 101;
  provider_recheck_after = none;
}

-- Run 8 claims scope 2 and an operator resets scope 1 in vain; then run 7 settles scope 1.
claim_lasts_example :
    (l'' : Ledger) × (transition_update_scopes 50
        (found_rows ∷ [])
        7
        50
        (reset_update_scopes 40
          (1 ∷ [])
          true
          (claim_update_scopes 30 (1 ∷ 2 ∷ []) 8 first_claim).0).0
      ≡ ok l'')
    × (outcomes_of 1 l''.scopes ≡ (Status.success, none) ∷ [])
unfolding declared synchronize_update_scopes claim_update_scopes first_claim
claim_lasts_example =
    claim_lasts 20 (1 ∷ []) 7 1 declared-Reachable taken others 50 50 found_rows refl refl
  where
    declared-Reachable : Reachable declared
    declared-Reachable =
        Reachable.step (Reachable.empty empty_ledger.datasets)
          (Step.synchronize 10 (day_scope 101 ∷ day_scope 102 ∷ []) empty_ledger)

    taken : contains (claim_update_scopes 20 (1 ∷ []) 7 declared).1 1 ≡ true
    taken = refl

    others :
        OtherSteps 7
          (claim_update_scopes 20 (1 ∷ []) 7 declared).0
          (reset_update_scopes 40
            (1 ∷ [])
            true
            (claim_update_scopes 30 (1 ∷ 2 ∷ []) 8 first_claim).0).0
    others =
        OtherSteps.next
          (OtherSteps.next (OtherSteps.here first_claim)
            (OtherStep.claim 30 (1 ∷ 2 ∷ []) 8 first_claim))
          (OtherStep.reset 40 (1 ∷ []) true (claim_update_scopes 30 (1 ∷ 2 ∷ []) 8 first_claim).0)

-- What a settlement leaves.
settled_ledger : Ledger
unfolding transition_update_scopes first_claim declared synchronize_update_scopes
    claim_update_scopes
settled_ledger =
    elim (transition_update_scopes 50 (found_rows ∷ []) 7 50 first_claim) as (λ _. Ledger) [
      | ok l ↦ l
      | _ ↦ first_claim
    ]

reached-transition_update_scopes_example :
    reached 101 1 settled_ledger.checks
    ≡ (reached 101 1 first_claim.checks || any (advances 101 1) (found_rows ∷ []))
unfolding settled_ledger transition_update_scopes first_claim declared synchronize_update_scopes
    claim_update_scopes
reached-transition_update_scopes_example =
    reached-transition_update_scopes 50 (found_rows ∷ []) 7 50 first_claim returns 101 1
  where
    returns : transition_update_scopes 50 (found_rows ∷ []) 7 50 first_claim ≡ ok settled_ledger
    returns = refl

abbrev wanted : ℕ → ℕ → LeaseRequest
wanted name run = record { source = 1; dataset = name; run_id = run }

-- Run 7 holds dataset 2 until time 15, for owner 70.
leased : Ledger
leased = record empty_ledger {
  leases =
      record {
        source = 1;
        dataset = 2;
        run_id = 7;
        owner_id = 70;
        heartbeat_at = 10;
        lease_expires_at = 15;
      }
      ∷ [];
}

leased_more : Ledger
unfolding leased acquire_update_leases
leased_more =
    elim (acquire_update_leases 90 (wanted 2 7 ∷ wanted 3 8 ∷ []) 30 (some 70) leased)
      as (λ _. Ledger) [ ok l ↦ l | _ ↦ leased ]

holder-acquire_update_leases_example :
    (holder 1 3 leased_more.leases
      ≡ coalesce (requested 1 3 (wanted 2 7 ∷ wanted 3 8 ∷ [])) (holder 1 3 leased.leases))
    × (holder 1 3 leased_more.leases
        ≡ coalesce (holder 1 3 leased.leases) (holder 1 3 leased_more.leases))
unfolding leased_more leased acquire_update_leases
holder-acquire_update_leases_example =
    holder-acquire_update_leases 90 (wanted 2 7 ∷ wanted 3 8 ∷ []) 30 (some 70) leased returns 1 3
  where
    returns :
        acquire_update_leases 90 (wanted 2 7 ∷ wanted 3 8 ∷ []) 30 (some 70) leased ≡ ok leased_more
    returns = refl

abbrev returned : Result Ledger → Ledger
returned (ok l) = l
returned (err e) = empty_ledger

-- Run 7 of owner 70 holds scope 1, and run 8 of owner 71 holds scope 2.
both_begun : Ledger
both_begun =
    returned (begin_run 12 8 1 2 (some 71) (returned (begin_run 11 7 1 2 (some 70) declared)))

both_claimed : Ledger
both_claimed =
    (claim_update_scopes 21 (2 ∷ []) 8 (claim_update_scopes 20 (1 ∷ []) 7 both_begun).0).0

both_claimed-Reachable : Reachable both_claimed
unfolding both_claimed both_begun declared begin_run synchronize_update_scopes
both_claimed-Reachable =
    Reachable.step
      (Reachable.step
        (Reachable.step
          (Reachable.step
            (Reachable.step (Reachable.empty empty_ledger.datasets)
              (Step.synchronize 10 (day_scope 101 ∷ day_scope 102 ∷ []) empty_ledger))
            (Step.begin 11 7 1 2 (some 70) refl))
          (Step.begin 12 8 1 2 (some 71) refl))
        (Step.claim 20 (1 ∷ []) 7 both_begun))
      (Step.claim 21 (2 ∷ []) 8 (claim_update_scopes 20 (1 ∷ []) 7 both_begun).0)

abbrev after_abandon : Ledger
after_abandon = abandon_update_owner 99 70 5 both_claimed

-- Scope 1 is free, and scope 2 stays with run 8.
abandoned_locks : (locks after_abandon 1 ≡ none) × (locks after_abandon 2 ≡ some 8)
unfolding both_claimed both_begun declared begin_run synchronize_update_scopes claim_update_scopes
    abandon_update_owner
abandoned_locks = (refl, refl)

abandon_update_owner_exact_example :
    ((id : ℕ)
      → locks after_abandon id ≡ (
          if held_by (works_for 70 both_claimed) (locks both_claimed id)
          then none
          else locks both_claimed id))
    × ((run : ℕ)
        → is_active run after_abandon
          ≡ (is_active run both_claimed && not (works_for 70 both_claimed run)))
    × ((src name other : ℕ)
        → has_lease src name other after_abandon
          ≡ (has_lease src name other both_claimed && not (other == 70)))
abandon_update_owner_exact_example =
    abandon_update_owner_exact 99 70 5 both_claimed both_claimed-Reachable

-- Run 8 asks for scope 1, which run 7 holds, and scope 2.
Step-Performs_example :
    Performs
      (Move.take 8 (claim_update_scopes 30 (1 ∷ 2 ∷ []) 8 first_claim).1)
      (locks first_claim)
      (locks (claim_update_scopes 30 (1 ∷ 2 ∷ []) 8 first_claim).0)
Step-Performs_example =
    Step-Performs (Step.claim 30 (1 ∷ 2 ∷ []) 8 first_claim) first_claim-Reachable
