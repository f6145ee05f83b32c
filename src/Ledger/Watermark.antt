-- ===== src/Ledger/Watermark.antt =====
-- How far the provider was checked: what a settlement does to `provider_scope_checks`.
use bagelquant_data.Prelude.{
  ℕ, ◌≡◌, refl, ap, ◌∙◌, Bool, true, false, ◌&&◌, ◌||◌, inl, inr, Option, none, some, List, [], ◌∷◌,
  map, arith, ◌==◌, if◌then◌else◌, filter, any, length, leb, any-append, Bool-cases, ==→eq,
}
use bagelquant_data.Ledger.Data.{
  is_complete, is_outcome, Check, Ledger, Result, ok, err, for_each, Holds, >>=-Holds, of_Holds,
}
use bagelquant_data.Ledger.Outcomes.{
  merge_check, upsert_check, Outcome, held, settled, check_result, keep_check, transition,
  count_success, transition_update_scopes, update_held,
}

-- The provider was checked for scope `id` through `day` or later.
abbrev pub reached : ℕ → ℕ → List Check → Bool
reached day id cs = any (λ k. k.scope_id == id && leb day k.checked_through) cs

-- The outcome says so.
abbrev pub through_from : ℕ → Option ℕ → Bool
through_from day none = false
through_from day (some t) = leb day t

abbrev pub advances : ℕ → ℕ → Outcome → Bool
advances day id o =
    is_complete o.status && o.scope_id == id && through_from day o.provider_checked_through

not_merged :
    (day id : ℕ) (c : Check) (cs : List Check)
    → any (λ k. k.scope_id == c.scope_id) cs ≡ false
    → map (λ k. if k.scope_id == c.scope_id then merge_check c k else k) cs ≡ cs
not_merged day id c [] h = refl
not_merged day id c (k ∷ cs) h = elim (Bool-cases (k.scope_id == c.scope_id)) [
  | inl same ↦ absurd (cc (same, h))
  | inr other ↦ rw other (ap (◌∷◌ k) (not_merged day id c cs (rw other at h)))
]

merged :
    (day id : ℕ) (c : Check) (cs : List Check)
    → any (λ k. k.scope_id == c.scope_id) cs ≡ true
    → reached day id (map (λ k. if k.scope_id == c.scope_id then merge_check c k else k) cs)
      ≡ (reached day id cs || (c.scope_id == id && leb day c.checked_through))
merged day id c [] h = cc
merged day id c (k ∷ cs) h = elim (Bool-cases (k.scope_id == c.scope_id)) [
  | inl same ↦ elim (Bool-cases (any (λ k. k.scope_id == c.scope_id) cs)) [
    | inl more ↦ rw same (ground (arith, merged day id c cs more, ==→eq k.scope_id c.scope_id same))
    | inr last ↦
        rw (same, not_merged day id c cs last) (ground (arith, ==→eq k.scope_id c.scope_id same))
  ]
  | inr other ↦ rw other (ground (arith, merged day id c cs (rw other at h)))
]

reached-upsert_check :
    (day id : ℕ) (c : Check) (l : Ledger)
    → reached day id (upsert_check c l).checks
      ≡ (reached day id l.checks || (c.scope_id == id && leb day c.checked_through))
unfolding upsert_check
reached-upsert_check day id c l = elim (Bool-cases (any (λ k. k.scope_id == c.scope_id) l.checks)) [
  | inl known ↦ rw (known, upsert_check) (merged day id c l.checks known)
  | inr new ↦
      rw (new, upsert_check)
        (any-append (λ k. k.scope_id == id && leb day k.checked_through) l.checks (c ∷ [])
          ∙ ground arith)
]

reached-keep_check :
    (day id now : ℕ) (o : Outcome) (through : Option ℕ) (l : Ledger)
    → reached day id (keep_check now o through l).checks ≡ (
        reached day id l.checks
        || (is_complete o.status && o.scope_id == id && through_from day through))
reached-keep_check day id now o none l = ground arith
reached-keep_check day id now o (some t) l = elim (Bool-cases (is_complete o.status)) [
  | inl e ↦ rw e (
      reached-upsert_check day id
        (record {
          scope_id = o.scope_id;
          checked_through = t;
          last_checked_at = now;
          recheck_after = o.provider_recheck_after;
          last_result = check_result o.status;
        })
        l)
  | inr e ↦ rw e (ground arith)
]

-- What the outcomes add.
abbrev pub Advanced : ℕ → ℕ → List Outcome → Ledger → Ledger → Type 0
Advanced day id os l l' =
    reached day id l'.checks ≡ (reached day id l.checks || any (advances day id) os)

transition-Advanced :
    (day id now run : ℕ) (l : Ledger) (o : Outcome)
    → Holds (Advanced day id (o ∷ []) l) (transition now run l o)
unfolding transition
transition-Advanced day id now run l o = elim (Bool-cases (is_outcome o.status)) [
  | inl e ↦ elim (Bool-cases (length (filter (held o.scope_id run) l.scopes) == 1)) [
    | inl one ↦
        rw (e, one)
          (reached-keep_check day id now o o.provider_checked_through
              (update_held o.scope_id run (settled now run o) l)
            ∙ ground arith)
    | inr none_held ↦ rw (e, none_held) tt
  ]
  | inr e ↦ rw e tt
]

for_each-Advanced :
    (day id now run : ℕ) (os : List Outcome) (l : Ledger)
    → Holds (Advanced day id os l) (for_each (transition now run) os l)
unfolding for_each
for_each-Advanced day id now run [] l = ground arith
for_each-Advanced day id now run (o ∷ os) l =
    after_first (for_each-Advanced day id now run os) (transition now run l o)
      (transition-Advanced day id now run l o)
  where
    after_first :
        ((m : Ledger) → Holds (Advanced day id os m) (for_each (transition now run) os m))
        → (r : Result Ledger) → Holds (Advanced day id (o ∷ []) l) r
        → Holds (Advanced day id (o ∷ os) l) (elim r as (λ _. Result Ledger) [
          | err e ↦ err e
          | ok m ↦ for_each (transition now run) os m
        ])
    after_first rest (err e) h = tt
    after_first rest (ok m) h = weaken (for_each (transition now run) os m) (rest m)
      where
        weaken :
            (r : Result Ledger)
            → Holds (Advanced day id os m) r
            → Holds (Advanced day id (o ∷ os) l) r
        weaken (err e) k = tt
        weaken (ok m') k = k ∙ ground (arith, h)

checks-count_success :
    (os : List Outcome) (run committed : ℕ) (l : Ledger)
    → (count_success os run committed l).checks ≡ l.checks
checks-count_success os run committed l = ground arith

-- After a `transition_update_scopes` that returns, the provider counts as checked for a scope through a
-- day exactly when it did before or a complete outcome of the call for this scope says that day or a
-- later one. So a settlement, whatever its outcomes and their order, never takes a checked day back.
pub reached-transition_update_scopes :
    (now : ℕ) (os : List Outcome) (run committed : ℕ) (l : Ledger) {l' : Ledger}
    → transition_update_scopes now os run committed l ≡ ok l'
    → (day id : ℕ)
    → reached day id l'.checks ≡ (reached day id l.checks || any (advances day id) os)
unfolding transition_update_scopes
reached-transition_update_scopes now os run committed l returns day id =
    of_Holds (Advanced day id os l) returns (
      >>=-Holds (Advanced day id os l) (Advanced day id os l) (for_each (transition now run) os l)
        (λ m. ok (count_success os run committed m)) (for_each-Advanced day id now run os l)
        (λ m h. ap (reached day id) (checks-count_success os run committed m) ∙ h))
