-- ===== src/Ledger/Lift.antt =====
-- A property of the scope rows that the updates of held rows keep is kept by every settlement and
-- every record of empty results.
use bagelquant_data.Prelude.{
  ℕ, ◌≡◌, true, inl, inr, Option, none, some, List, [], ◌∷◌, ◌++◌, map, ◌==◌, if◌then◌else◌, filter,
  any, length, Bool-cases,
}
use bagelquant_data.Ledger.Data.{
  is_complete, is_outcome, Scope, Check, Call, Ledger, value_error, Result, ok, err, ◌>>=◌,
  for_each, Holds, for_each-Holds, >>=-Holds,
}
use bagelquant_data.Ledger.Outcomes.{
  upsert_check, Outcome, held, settled, keep_check, transition, count_success, is_success,
  active_run, transition_update_scopes, EmptyResult, emptied, empty_check, record_empty,
  record_empty_through, count_empty, record_empty_scope_results, update_held, empty_results_valid,
}

-- `Q` is a property of the next id and the rows, and `run` the run that settles.
module _ (Q : ℕ → List Scope → Type 0) (run : ℕ)
    (settled_keeps : (now id n : ℕ) (o : Outcome) (ss : List Scope)
      → is_outcome o.status ≡ true
      → Q n ss
      → Q n (map (λ s. if held id run s then settled now run o s else s) ss))
    (emptied_keeps : (now id n : ℕ) (ss : List Scope)
      → Q n ss
      → Q n (map (λ s. if held id run s then emptied now s else s) ss)) where
  abbrev pub P : Ledger → Type 0
  P l = Q l.next_id l.scopes

  upsert_check-Keeps : (c : Check) (l : Ledger) → P l → P (upsert_check c l)
  unfolding upsert_check
  upsert_check-Keeps c l v = elim (Bool-cases (any (λ k. k.scope_id == c.scope_id) l.checks)) [
    | inl known ↦ rw (known, upsert_check) v
    | inr new ↦ rw (new, upsert_check) v
  ]

  keep_check-Keeps :
      (now : ℕ) (o : Outcome) (through : Option ℕ) (l : Ledger)
      → P l
      → P (keep_check now o through l)
  keep_check-Keeps now o none l v = v
  keep_check-Keeps now o (some t) l v = elim (Bool-cases (is_complete o.status)) [
    | inl complete ↦ rw (complete, keep_check) (upsert_check-Keeps _ l v)
    | inr other ↦ rw (other, keep_check) v
  ]

  transition-Keeps : (now : ℕ) (o : Outcome) (l : Ledger) → P l → Holds P (transition now run l o)
  unfolding transition
  transition-Keeps now o l v = elim (Bool-cases (is_outcome o.status)) [
    | inr unsupported ↦ rw (unsupported, transition) tt
    | inl outcome ↦ elim (Bool-cases (length (filter (held o.scope_id run) l.scopes) == 1)) [
      | inr unclaimed ↦ rw (outcome, unclaimed, transition) tt
      | inl claim ↦
          rw (outcome, claim, transition)
            (keep_check-Keeps now o o.provider_checked_through
              (update_held o.scope_id run (settled now run o) l)
              (settled_keeps now o.scope_id l.next_id o l.scopes outcome v))
    ]
  ]

  count_success-Keeps :
      (os : List Outcome) (committed : ℕ) (l : Ledger) → P l → P (count_success os run committed l)
  count_success-Keeps os committed l v = elim (Bool-cases (length (filter is_success os) == 0)) [
    | inl nothing ↦ rw (nothing, count_success) v
    | inr some_rows ↦ rw (some_rows, count_success) v
  ]

  pub settle-Keeps :
      (now : ℕ) (os : List Outcome) (committed : ℕ) (l : Ledger)
      → P l
      → Holds P (transition_update_scopes now os run committed l)
  unfolding transition_update_scopes
  settle-Keeps now os committed l v =
      >>=-Holds P P (for_each (transition now run) os l)
        (λ l'. ok (count_success os run committed l'))
        (for_each-Holds P (transition now run) (λ l o. transition-Keeps now o l) os l v)
        (count_success-Keeps os committed)

  record_empty_through-Keeps :
      (now : ℕ) (l : Ledger) (r : EmptyResult) (through : Option ℕ)
      → P l
      → Holds P (record_empty_through now run l r through)
  unfolding record_empty_through
  record_empty_through-Keeps now l r none v = tt
  record_empty_through-Keeps now l r (some t) v =
      elim (Bool-cases (length (filter (held r.scope_id run) l.scopes) == 1)) [
        | inr unclaimed ↦ rw (unclaimed, record_empty_through) tt
        | inl claim ↦
            rw (claim, record_empty_through) (after (upsert_check-Keeps (empty_check now r t) l v))
      ]
    where
      checked : Ledger
      checked = upsert_check (empty_check now r t) l

      after : P checked → P (update_held r.scope_id run (emptied now) checked)
      after = emptied_keeps now r.scope_id checked.next_id checked.scopes

  count_empty-Keeps : (requests n : ℕ) (l : Ledger) → P l → Holds P (count_empty requests n run l)
  count_empty-Keeps requests n l v =
      elim (Bool-cases (length (filter (active_run run) l.runs) == 1)) [
        | inl active ↦ rw (active, count_empty) v
        | inr other ↦ rw (other, count_empty) tt
      ]

  pub find_empty-Keeps :
      (now : ℕ) (calls : List Call) (rs : List EmptyResult) (given : Option ℕ) (l : Ledger)
      → P l
      → Holds P (record_empty_scope_results now calls rs run given l)
  unfolding record_empty_scope_results record_empty
  find_empty-Keeps now [] rs given l v = tt
  find_empty-Keeps now (c ∷ cs) rs given l v = counted (outcomes given)
    where
      audited : Ledger
      audited = record l { calls = l.calls ++ (c ∷ cs) }

      outcomes : Option ℕ → ℕ
      outcomes given = elim given [ none ↦ length rs | some g ↦ g ]

      counted :
          (n : ℕ)
          → Holds P (
              if n == 0
              then err value_error
              else (empty_results_valid run rs l >>= λ _.
                  for_each (record_empty now run) rs audited >>= λ l'.
                  count_empty (length (c ∷ cs)) n run l'))
      counted n = elim (Bool-cases (n == 0)) [
        | inl nothing ↦ rw nothing tt
        | inr given ↦ rw given (
            >>=-Holds (λ _. P audited) P (empty_results_valid run rs l) _
              (always (empty_results_valid run rs l))
              (λ _ va.
                >>=-Holds P P (for_each (record_empty now run) rs audited)
                  (count_empty (length (c ∷ cs)) n run)
                  (for_each-Holds P (record_empty now run)
                    (λ l r. record_empty_through-Keeps now l r r.checked_through) rs audited va)
                  (count_empty-Keeps (length (c ∷ cs)) n)))
      ]
        where
          always : (m : Result (Unit {0})) → Holds (λ _. P audited) m
          always (ok u) = v
          always (err e) = tt
