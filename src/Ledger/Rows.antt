-- ===== src/Ledger/Rows.antt =====
-- What a conditional update, a deletion and an insertion of rows keep.
use bagelquant_data.Prelude.{
  ℕ, ◌+◌, ◌<◌, ◌≡◌, ◌≢◌, sym, ◌∙◌, Bool, true, inl, inr, List, [], ◌∷◌, ◌++◌, map, arith,
  if◌then◌else◌, filter, All, Bool-cases, is_some,
}
use bagelquant_data.Ledger.Data.{Scope, is_running}

module _ {A : Type 0} (P : A → Type 0) where
  pub All-update :
      (t : A → Bool) (f : A → A)
      → ((a : A) → P a → t a ≡ true → P (f a))
      → (xs : List A) → All P xs
      → All P (map (λ a. if t a then f a else a) xs)
  All-update t f keep [] h = tt
  All-update t f keep (x ∷ xs) h = elim (Bool-cases (t x)) [
    | inl e ↦ (rw e (keep x h.0 e), All-update t f keep xs h.1)
    | inr e ↦ (rw e h.0, All-update t f keep xs h.1)
  ]

  pub All-filter : (p : A → Bool) (xs : List A) → All P xs → All P (filter p xs)
  All-filter p [] h = tt
  All-filter p (x ∷ xs) h = elim (Bool-cases (p x)) [
    | inl e ↦ rw (e, filter) (h.0, All-filter p xs h.1)
    | inr e ↦ rw (e, filter) (All-filter p xs h.1)
  ]

  pub All-snoc : (xs : List A) (a : A) → All P xs → P a → All P (xs ++ a ∷ [])
  All-snoc [] a h pa = (pa, tt)
  All-snoc (x ∷ xs) a h pa = (h.0, All-snoc xs a h.1 pa)

module _ {A : Type 0} {P Q : A → Type 0} where
  pub All-weaken : ((a : A) → P a → Q a) → (xs : List A) → All P xs → All Q xs
  All-weaken f [] h = tt
  All-weaken f (x ∷ xs) h = (f x h.0, All-weaken f xs h.1)

-- No two rows have the same id.
abbrev pub DistinctIds : List Scope → Type 0
DistinctIds [] = Unit
DistinctIds (s ∷ ss) = All (λ u. u.id ≢ s.id) ss × DistinctIds ss

-- A row is running exactly when a run holds it.
abbrev pub IsOwned : Scope → Type 0
IsOwned s = is_running s.status ≡ is_some s.active_run_id

-- The rows of `update_scopes` when the next id is `n`.
pub record RowsValid (n : ℕ) (ss : List Scope) : Type 0 where
  pub owned : All IsOwned ss
  pub issued : All (λ s. s.id < n) ss
  pub distinct : DistinctIds ss

DistinctIds-update :
    (t : Scope → Bool) (f : Scope → Scope)
    → ((s : Scope) → (f s).id ≡ s.id)
    → (ss : List Scope) → DistinctIds ss
    → DistinctIds (map (λ s. if t s then f s else s) ss)
DistinctIds-update t f same [] h = tt
DistinctIds-update t f same (s ∷ ss) h = elim (Bool-cases (t s)) [
  | inl e ↦ rw e (rw (same s) others, DistinctIds-update t f same ss h.1)
  | inr e ↦ rw e (others, DistinctIds-update t f same ss h.1)
]
  where
    others : All (λ u. u.id ≢ s.id) (map (λ s. if t s then f s else s) ss)
    others =
        All-update (λ (u : Scope). u.id ≢ s.id) t f (λ u ne _ eq. ne (sym (same u) ∙ eq)) ss h.0

DistinctIds-filter :
    (p : Scope → Bool) (ss : List Scope) → DistinctIds ss → DistinctIds (filter p ss)
DistinctIds-filter p [] h = tt
DistinctIds-filter p (s ∷ ss) h = elim (Bool-cases (p s)) [
  | inl e ↦
      rw (e, filter) (All-filter (λ (u : Scope). u.id ≢ s.id) p ss h.0, DistinctIds-filter p ss h.1)
  | inr e ↦ rw (e, filter) (DistinctIds-filter p ss h.1)
]

DistinctIds-snoc :
    (ss : List Scope) (u : Scope)
    → All (λ s. s.id < u.id) ss
    → DistinctIds ss
    → DistinctIds (ss ++ u ∷ [])
DistinctIds-snoc [] u lt h = (tt, tt)
DistinctIds-snoc (s ∷ ss) u lt h =
    (All-snoc (λ (v : Scope). v.id ≢ s.id) ss u h.0 (omega arith), DistinctIds-snoc ss u lt.1 h.1)

module _ {n : ℕ} where
  -- An update that keeps ids, and ownership where its test passes.
  pub RowsValid-update :
      (t : Scope → Bool) (f : Scope → Scope)
      → ((s : Scope) → (f s).id ≡ s.id)
      → ((s : Scope) → IsOwned s → t s ≡ true → IsOwned (f s))
      → (ss : List Scope) → RowsValid n ss
      → RowsValid n (map (λ s. if t s then f s else s) ss)
  RowsValid-update t f same keep ss v = record {
    owned = All-update IsOwned t f keep ss v.owned;
    issued = All-update (λ (s : Scope). s.id < n) t f (λ s h _. rw (same s) h) ss v.issued;
    distinct = DistinctIds-update t f same ss v.distinct;
  }

  pub RowsValid-filter :
      (p : Scope → Bool) (ss : List Scope) → RowsValid n ss → RowsValid n (filter p ss)
  RowsValid-filter p ss v = record {
    owned = All-filter IsOwned p ss v.owned;
    issued = All-filter (λ (s : Scope). s.id < n) p ss v.issued;
    distinct = DistinctIds-filter p ss v.distinct;
  }

  pub RowsValid-insert :
      (ss : List Scope) (u : Scope)
      → u.id ≡ n
      → IsOwned u
      → RowsValid n ss
      → RowsValid (n + 1) (ss ++ u ∷ [])
  RowsValid-insert ss u e o v = record {
    owned = All-snoc IsOwned ss u v.owned o;
    issued =
        All-snoc (λ (s : Scope). s.id < n + 1) ss u (All-weaken (λ s h. omega arith) ss v.issued)
          (omega arith);
    distinct = DistinctIds-snoc ss u (rw e v.issued) v.distinct;
  }
