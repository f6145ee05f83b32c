-- ===== src/Ledger/Claims.antt =====
-- Claims: no scope is claimed twice, and a claim lasts, whatever other runs do, until its run settles it.
use bagelquant_data.Prelude.{
  ℕ, ◌≡◌, ◌≢◌, refl, sym, ap, ◌∙◌, Bool, true, false, ◌&&◌, inl, inr, List, [], ◌∷◌, map, arith,
  ◌==◌, if◌then◌else◌, filter, any, All, Bool-cases, ==→eq,
}
use bagelquant_data.Ledger.Data.{is_running, Scope, Ledger}
use bagelquant_data.Ledger.Scopes.{contains, claimable, claimed, claim_update_scopes}
use bagelquant_data.Ledger.Outcomes.{held}
use bagelquant_data.Ledger.Rows.{DistinctIds}

-- The ids of the rows that pass a test.
abbrev pub taken_ids : (Scope → Bool) → List Scope → List ℕ
taken_ids p ss = map (λ s. s.id) (filter p ss)

any_tail {ℓ} :
    {A : Type ℓ} (p : A → Bool) (x : A) (xs : List A) → any p xs ≡ true → any p (x ∷ xs) ≡ true
any_tail p x xs h = ground arith

-- The scope is running, and the run holds it.
abbrev pub running_for : ℕ → ℕ → Scope → Bool
running_for id run s = held id run s && is_running s.status

abbrev pub Claimed : ℕ → ℕ → List Scope → Type 0
Claimed id run ss = any (running_for id run) ss ≡ true

-- Claiming with a fixed list of taken ids leaves none of them claimable.
claimed_not_claimable :
    (now run : ℕ) (taken ids : List ℕ) (n : ℕ) (ss : List Scope)
    → contains taken n ≡ true
    → contains
        (taken_ids
          (claimable ids)
          (map (λ s. if contains taken s.id then claimed now run s else s) ss))
        n
      ≡ false
claimed_not_claimable now run taken ids n [] h = refl
claimed_not_claimable now run taken ids n (s ∷ ss) h = elim (Bool-cases (contains taken s.id)) [
  | inl mine ↦ rw mine (ground (arith, claimed_not_claimable now run taken ids n ss h))
  | inr other ↦ rw other (elim (Bool-cases (claimable ids s)) [
    | inl free ↦
        rw free (ground (arith, claimed_not_claimable now run taken ids n ss h, differs other))
    | inr busy ↦ rw busy (claimed_not_claimable now run taken ids n ss h)
  ])
]
  where
    differs : contains taken s.id ≡ false → (s.id == n) ≡ false
    differs other = elim (Bool-cases (s.id == n)) [
      | inl same ↦ cc (ap (contains taken) (==→eq s.id n same), h, other)
      | inr apart ↦ apart
    ]

-- Two claims one after the other, by whatever runs and for whatever scopes, have no scope in common.
pub claim_exclusive :
    (now now' : ℕ) (ids ids' : List ℕ) (run run' : ℕ) (l : Ledger) (n : ℕ)
    → contains (claim_update_scopes now ids run l).1 n ≡ true
    → contains (claim_update_scopes now' ids' run' (claim_update_scopes now ids run l).0).1 n
      ≡ false
unfolding claim_update_scopes
claim_exclusive now now' ids ids' run run' l n h =
    claimed_not_claimable now run (taken_ids (claimable ids) l.scopes) ids' n l.scopes h

pub absent_ids :
    (p : Scope → Bool) (n : ℕ) (ss : List Scope)
    → All (λ u. u.id ≢ n) ss
    → contains (taken_ids p ss) n ≡ false
absent_ids p n [] h = refl
absent_ids p n (s ∷ ss) h = elim (Bool-cases (p s)) [
  | inl e ↦ rw e (ground (arith, absent_ids p n ss h.1))
  | inr e ↦ rw e (absent_ids p n ss h.1)
]

pub same_id : (s : Scope) (id run : ℕ) → running_for id run s ≡ true → s.id ≡ id
same_id s id run h = ground arith

pub other_head :
    (n id run : ℕ) (ss : List Scope) → All (λ u. u.id ≢ n) ss → Claimed id run ss → n ≢ id
other_head n id run [] h c = cc
other_head n id run (s ∷ ss) h c = elim (Bool-cases (running_for id run s)) [
  | inl here ↦ λ e. h.0 (same_id s id run here ∙ sym e)
  | inr elsewhere ↦ other_head n id run ss h.1 (rw elsewhere at c)
]

running_not_claimable :
    (ids : List ℕ) (id run : ℕ) (s : Scope) → running_for id run s ≡ true → claimable ids s ≡ false
running_not_claimable ids id run s h = ground arith

-- No row that is claimable has the id of a row that a run holds.
pub running_not_taken :
    (ids : List ℕ) (id run : ℕ) (ss : List Scope)
    → DistinctIds ss
    → Claimed id run ss
    → contains (taken_ids (claimable ids) ss) id ≡ false
running_not_taken ids id run [] d c = refl
running_not_taken ids id run (s ∷ ss) d c = elim (Bool-cases (running_for id run s)) [
  | inl here ↦
      rw (running_not_claimable ids id run s here)
        (absent_ids (claimable ids) id ss (rw (same_id s id run here) at d.0))
  | inr elsewhere ↦
      let rest : Claimed id run ss = rw elsewhere at c in
      elim (Bool-cases (claimable ids s)) [
        | inl free ↦ rw free (
            ground
              (arith, other_head s.id id run ss d.0 rest, running_not_taken ids id run ss d.1 rest))
        | inr busy ↦ rw busy (running_not_taken ids id run ss d.1 rest)
      ]
]

-- Updates and deletions that leave a running row of the run as it is.
pub Claimed-update :
    (id run : ℕ) (t : Scope → Bool) (f : Scope → Scope)
    → ((s : Scope) → running_for id run s ≡ true → t s ≡ false)
    → (ss : List Scope) → Claimed id run ss
    → Claimed id run (map (λ s. if t s then f s else s) ss)
Claimed-update id run t f leave [] c = c
Claimed-update id run t f leave (s ∷ ss) c = elim (Bool-cases (running_for id run s)) [
  | inl here ↦ rw (leave s here) (rw here refl)
  | inr elsewhere ↦
      any_tail (running_for id run) (if t s then f s else s) (map (λ s. if t s then f s else s) ss)
        (Claimed-update id run t f leave ss (rw elsewhere at c))
]

pub Claimed-filter :
    (id run : ℕ) (p : Scope → Bool)
    → ((s : Scope) → running_for id run s ≡ true → p s ≡ true)
    → (ss : List Scope) → Claimed id run ss
    → Claimed id run (filter p ss)
Claimed-filter id run p keep [] c = c
Claimed-filter id run p keep (s ∷ ss) c = elim (Bool-cases (running_for id run s)) [
  | inl here ↦ rw (keep s here) (rw here refl)
  | inr elsewhere ↦
      let rest : Claimed id run (filter p ss) =
        Claimed-filter id run p keep ss (rw elsewhere at c) in
      elim (Bool-cases (p s)) [
        | inl e ↦ rw e (any_tail (running_for id run) s (filter p ss) rest)
        | inr e ↦ rw e rest
      ]
]
