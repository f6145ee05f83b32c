-- ===== src/Ledger/Locks.antt =====
-- The ledger as a lock table: which run holds each scope, the moves of such a table, and what updates of
-- the rows do to it.
use bagelquant_data.Prelude.{
  ℕ, ◌≡◌, ◌≢◌, refl, sym, ◌∙◌, ap, Bool, true, false, ◌&&◌, ◌⊎◌, inl, inr, Option, none, some, List,
  [], ◌∷◌, ◌++◌, map, ◌==◌, if◌then◌else◌, filter, any, All, arith, Bool-cases, Option-cases, ==→eq,
  is_some,
}
use mathlib.Core.Path.{subst}
use bagelquant_data.Ledger.Data.{Scope, is_running}
use bagelquant_data.Ledger.Scopes.{contains, claimable, claimed}
use bagelquant_data.Ledger.Rows.{IsOwned, DistinctIds}
use bagelquant_data.Ledger.Claims.{taken_ids, absent_ids}

-- The run that holds each scope, if any.
abbrev pub Locks : Type 0
Locks = ℕ → Option ℕ

-- A run takes scopes, or the scopes of some runs are freed.
pub data Move : Type 0 where
  take : (run : ℕ) (ids : List ℕ) → Move
  free : (whose : ℕ → Bool) → Move

abbrev pub held_by : (ℕ → Bool) → Option ℕ → Bool
held_by whose none = false
held_by whose (some run) = whose run

-- A lock is left as it is, or a run that the move names loses it.
abbrev pub Freed : (ℕ → Bool) → Option ℕ → Option ℕ → Type 0
Freed whose before after = (after ≡ before) ⊎ ((after ≡ none) × (held_by whose before ≡ true))

-- What a move makes of the table: only free scopes are taken, and they alone; freeing gives no scope to
-- another run, and takes none from a run that it does not name.
abbrev pub Performs : Move → Locks → Locks → Type 0
Performs (Move.take run ids) f g =
    (id : ℕ)
    → ((contains ids id && is_some (f id)) ≡ false)
      × (g id ≡ (if contains ids id then some run else f id))
Performs (Move.free whose) f g = (id : ℕ) → Freed whose (f id) (g id)

-- The table that the rows stand for.
abbrev pub holder_of : ℕ → List Scope → Option ℕ
holder_of id [] = none
holder_of id (s ∷ ss) = if s.id == id then s.active_run_id else holder_of id ss

pub Freed-trans :
    (whose : ℕ → Bool) (a b c : Option ℕ) → Freed whose a b → Freed whose b c → Freed whose a c
Freed-trans whose a b c (inl e) (inl f) = inl (f ∙ e)
Freed-trans whose a b c (inl e) (inr (n, h)) = inr (n, ap (held_by whose) (sym e) ∙ h)
Freed-trans whose a b c (inr (n, h)) (inl f) = inr (f ∙ n, h)
Freed-trans whose a b c (inr (n, h)) (inr (m, k)) = inr (m, h)

module _ (whose : ℕ → Bool) (t : Scope → Bool) (f : Scope → Scope)
    (same : (s : Scope) → (f s).id ≡ s.id)
    (frees : (s : Scope)
      → IsOwned s
      → t s ≡ true
      → Freed whose s.active_run_id (f s).active_run_id) where
  -- An update that keeps ids and frees rows frees locks.
  pub holder_of-update :
      (id : ℕ) (ss : List Scope)
      → All IsOwned ss
      → Freed whose (holder_of id ss) (holder_of id (map (λ s. if t s then f s else s) ss))
  holder_of-update id [] o = inl refl
  holder_of-update id (s ∷ ss) o = elim (Bool-cases (t s)) [
    | inl hit ↦ elim (Bool-cases (s.id == id)) [
      | inl here ↦ rw (hit, same s, here) (frees s o.0 hit)
      | inr other ↦ rw (hit, same s, other) (holder_of-update id ss o.1)
    ]
    | inr miss ↦ elim (Bool-cases (s.id == id)) [
      | inl here ↦ rw (miss, here) (inl refl)
      | inr other ↦ rw (miss, other) (holder_of-update id ss o.1)
    ]
  ]

holder_of-absent :
    (id n : ℕ) (ss : List Scope)
    → All (λ (s : Scope). s.id ≢ n) ss
    → (n == id) ≡ true
    → holder_of id ss ≡ none
holder_of-absent id n [] h e = refl
holder_of-absent id n (s ∷ ss) h e = elim (Bool-cases (s.id == id)) [
  | inl here ↦ absurd (h.0 (==→eq s.id id here ∙ sym (==→eq n id e)))
  | inr other ↦ rw other (holder_of-absent id n ss h.1 e)
]

holder_of-absent-filter :
    (id n : ℕ) (p : Scope → Bool) (ss : List Scope)
    → All (λ (s : Scope). s.id ≢ n) ss
    → (n == id) ≡ true
    → holder_of id (filter p ss) ≡ none
holder_of-absent-filter id n p [] h e = refl
holder_of-absent-filter id n p (s ∷ ss) h e = elim (Bool-cases (p s)) [
  | inl stays ↦ elim (Bool-cases (s.id == id)) [
    | inl here ↦ absurd (h.0 (==→eq s.id id here ∙ sym (==→eq n id e)))
    | inr other ↦ rw (stays, other) (holder_of-absent-filter id n p ss h.1 e)
  ]
  | inr gone ↦ rw gone (holder_of-absent-filter id n p ss h.1 e)
]

-- The deletion of rows that no run holds changes no lock.
pub holder_of-filter :
    (p : Scope → Bool) (idle : (s : Scope) → IsOwned s → p s ≡ false → s.active_run_id ≡ none)
    (id : ℕ) (ss : List Scope)
    → All IsOwned ss
    → DistinctIds ss
    → holder_of id (filter p ss) ≡ holder_of id ss
holder_of-filter p idle id [] o d = refl
holder_of-filter p idle id (s ∷ ss) o d = elim (Bool-cases (p s)) [
  | inl stays ↦ elim (Bool-cases (s.id == id)) [
    | inl here ↦ rw (stays, here) refl
    | inr other ↦ rw (stays, other) (holder_of-filter p idle id ss o.1 d.1)
  ]
  | inr gone ↦ elim (Bool-cases (s.id == id)) [
    | inl here ↦
        rw (gone, here) (holder_of-absent-filter id s.id p ss d.0 here ∙ sym (idle s o.0 gone))
    | inr other ↦ rw (gone, other) (holder_of-filter p idle id ss o.1 d.1)
  ]
]

-- A row that no run holds changes no lock.
pub holder_of-append :
    (id : ℕ) (ss : List Scope) (u : Scope)
    → u.active_run_id ≡ none
    → holder_of id (ss ++ u ∷ []) ≡ holder_of id ss
holder_of-append id [] u e = ground (arith, e)
holder_of-append id (s ∷ ss) u e = ground (arith, holder_of-append id ss u e)

pub idle_row : (s : Scope) → IsOwned s → is_running s.status ≡ false → s.active_run_id ≡ none
idle_row s o h = elim (Option-cases s.active_run_id) [
  | inl e ↦ e
  | inr (r, e) ↦ absurd (cc (o, h, ap is_some e))
]

-- The scopes that a claim takes were free, and the claim's run has them.
pub free_taken :
    (ids : List ℕ) (id : ℕ) (ss : List Scope)
    → All IsOwned ss
    → DistinctIds ss
    → contains (taken_ids (claimable ids) ss) id ≡ true
    → holder_of id ss ≡ none
free_taken ids id [] o d h = refl
free_taken ids id (s ∷ ss) o d h = elim (Bool-cases (s.id == id)) [
  | inl here ↦ elim (Bool-cases (claimable ids s)) [
    | inl fit ↦ rw here (unheld fit)
    | inr busy ↦ absurd (cc (absent (==→eq s.id id here), rw busy at h))
  ]
  | inr other ↦ elim (Bool-cases (claimable ids s)) [
    | inl fit ↦ rw other (free_taken ids id ss o.1 d.1 (ground (arith, (rw fit at h), other)))
    | inr busy ↦ rw other (free_taken ids id ss o.1 d.1 (rw busy at h))
  ]
]
  where
    unheld : claimable ids s ≡ true → s.active_run_id ≡ none
    unheld fit = idle_row s o.0 (ground (arith, fit))

    absent : s.id ≡ id → contains (taken_ids (claimable ids) ss) id ≡ false
    absent e =
        absent_ids (claimable ids) id ss (subst (λ n. All (λ (u : Scope). u.id ≢ n) ss) e d.0)

pub holder_of-claimed :
    (now run : ℕ) (taken : List ℕ) (id : ℕ) (ss : List Scope)
    → (contains taken id ≡ true → any (λ s. s.id == id) ss ≡ true)
    → holder_of id (map (λ s. if contains taken s.id then claimed now run s else s) ss)
      ≡ (if contains taken id then some run else holder_of id ss)
holder_of-claimed now run taken id [] h = elim (Bool-cases (contains taken id)) [
  | inl mine ↦ absurd (cc (h mine))
  | inr other ↦ rw other refl
]
holder_of-claimed now run taken id (s ∷ ss) h = elim (Bool-cases (s.id == id)) [
  | inl here ↦
      let e = ap (contains taken) (==→eq s.id id here) in
      elim (Bool-cases (contains taken id)) [
        | inl mine ↦ rw (e ∙ mine, mine, here) refl
        | inr foreign ↦ rw (e ∙ foreign, foreign, here) refl
      ]
  | inr other ↦
      let ih = holder_of-claimed now run taken id ss (λ k. ground (arith, h k, other)) in
      elim (Bool-cases (contains taken s.id)) [
        | inl mine ↦ rw (mine, other) ih
        | inr foreign ↦ rw (foreign, other) ih
      ]
]

pub taken_rows :
    (p : Scope → Bool) (id : ℕ) (ss : List Scope)
    → contains (taken_ids p ss) id ≡ true
    → any (λ s. s.id == id) ss ≡ true
taken_rows p id [] h = h
taken_rows p id (s ∷ ss) h = ground (arith, taken_rows p id ss)
