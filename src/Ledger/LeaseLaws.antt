-- ===== src/Ledger/LeaseLaws.antt =====
-- Leases: acquiring takes no dataset away from another run.
use bagelquant_data.Prelude.{
  ℕ, ◌+◌, ◌≡◌, refl, ap, ◌∙◌, true, false, not, ◌&&◌, inl, inr, Option, none, some, List, [], ◌∷◌,
  ◌++◌, map, arith, ◌==◌, if◌then◌else◌, any, Bool-cases, Option-cases,
}
use bagelquant_data.Ledger.Data.{
  Lease, Ledger, Result, ok, err, for_each, Holds, >>=-Holds, of_Holds, coalesce,
}
use bagelquant_data.Ledger.Leases.{
  LeaseRequest, on_dataset, conflicts, granted, grant, acquire_update_leases,
}

-- The run that a dataset is leased to.
abbrev pub holder : ℕ → ℕ → List Lease → Option ℕ
holder src name [] = none
holder src name (e ∷ es) =
    if e.source == src && e.dataset == name then some e.run_id else holder src name es

abbrev pub asked : ℕ → ℕ → LeaseRequest → Option ℕ
asked src name q = if q.source == src && q.dataset == name then some q.run_id else none

-- The run that the last request for a dataset names.
abbrev pub requested : ℕ → ℕ → List LeaseRequest → Option ℕ
requested src name [] = none
requested src name (q ∷ qs) = coalesce (requested src name qs) (asked src name q)

module _ (src name now expires : ℕ) (owner : Option ℕ) where
  -- The rows after an update of no row, and after one of some row.
  holder-untouched :
      (q : LeaseRequest) (es : List Lease)
      → any (on_dataset q) es ≡ false
      → holder src name (es ++ granted now expires owner q ∷ [])
        ≡ coalesce (asked src name q) (holder src name es)
  holder-untouched q [] h = ground arith
  holder-untouched q (e ∷ es) h = ground (arith, holder-untouched q es)

  holder-elsewhere :
      (q : LeaseRequest) (es : List Lease)
      → (q.source == src && q.dataset == name) ≡ false
      → holder src name (map (λ e. if on_dataset q e then granted now expires owner q else e) es)
        ≡ holder src name es
  holder-elsewhere q [] h = refl
  holder-elsewhere q (e ∷ es) h = elim (Bool-cases (on_dataset q e)) [
    | inl same ↦ rw same (ground (arith, holder-elsewhere q es h))
    | inr other ↦ rw other (ground (arith, holder-elsewhere q es h))
  ]

  holder-here :
      (q : LeaseRequest) (es : List Lease)
      → (q.source == src && q.dataset == name) ≡ true
      → any (on_dataset q) es ≡ true
      → holder src name (map (λ e. if on_dataset q e then granted now expires owner q else e) es)
        ≡ some q.run_id
  holder-here q [] m h = cc
  holder-here q (e ∷ es) m h = elim (Bool-cases (on_dataset q e)) [
    | inl same ↦ rw same (rw m refl)
    | inr other ↦ rw other (ground (arith, holder-here q es m (rw other at h)))
  ]

  grant-holder :
      (q : LeaseRequest) (es : List Lease)
      → Holds
          (λ fs. holder src name fs ≡ coalesce (asked src name q) (holder src name es))
          (grant now expires owner es q)
  unfolding grant
  grant-holder q es =
      elim (Bool-cases (any (λ e. e.run_id == q.run_id && not (on_dataset q e)) es)) [
        | inl taken ↦ rw taken tt
        | inr free ↦ rw free (elim (Bool-cases (any (on_dataset q) es)) [
          | inl known ↦ rw known (elim (Bool-cases (q.source == src && q.dataset == name)) [
            | inl m ↦ holder-here q es m known ∙ ground arith
            | inr m ↦ holder-elsewhere q es m ∙ ground arith
          ])
          | inr new ↦ rw new (holder-untouched q es new)
        ])
      ]

  grants-holder :
      (qs : List LeaseRequest) (es : List Lease)
      → Holds
          (λ fs. holder src name fs ≡ coalesce (requested src name qs) (holder src name es))
          (for_each (grant now expires owner) qs es)
  unfolding for_each
  grants-holder [] es = refl
  grants-holder (q ∷ qs) es =
      after_first (grants-holder qs) (grant now expires owner es q) (grant-holder q es)
    where
      weaken :
          (ds : List Lease) (r : Result (List Lease))
          → holder src name ds ≡ coalesce (asked src name q) (holder src name es)
          → Holds
              (λ fs. holder src name fs ≡ coalesce (requested src name qs) (holder src name ds))
              r
          → Holds
              (λ fs.
                holder src name fs ≡ coalesce (requested src name (q ∷ qs)) (holder src name es))
              r
      weaken ds (err e) h k = tt
      weaken ds (ok fs) h k = k ∙ ground (arith, h)

      after_first :
          ((ds : List Lease)
            → Holds
                (λ fs. holder src name fs ≡ coalesce (requested src name qs) (holder src name ds))
                (for_each (grant now expires owner) qs ds))
          → (r : Result (List Lease))
          → Holds (λ fs. holder src name fs ≡ coalesce (asked src name q) (holder src name es)) r
          → Holds
              (λ fs.
                holder src name fs ≡ coalesce (requested src name (q ∷ qs)) (holder src name es))
              (elim r as (λ _. Result (List Lease)) [
                | err e ↦ err e
                | ok ds ↦ for_each (grant now expires owner) qs ds
              ])
      after_first rest (err e) h = tt
      after_first rest (ok ds) h = weaken ds (for_each (grant now expires owner) qs ds) h (rest ds)

  -- A request without a conflict names the run that holds the dataset.
  asked-holder :
      (q : LeaseRequest) (es : List Lease) (r : ℕ)
      → any (conflicts q) es ≡ false
      → holder src name es ≡ some r
      → coalesce (asked src name q) (some r) ≡ some r
  asked-holder q [] r h e = cc
  asked-holder q (x ∷ es) r h e = ground (arith, asked-holder q es r)

  requested-holder :
      (qs : List LeaseRequest) (es : List Lease) (r : ℕ)
      → any (λ q. any (conflicts q) es) qs ≡ false
      → holder src name es ≡ some r
      → coalesce (requested src name qs) (some r) ≡ some r
  requested-holder [] es r h e = refl
  requested-holder (q ∷ qs) es r h e = ground (arith, requested-holder qs es r, asked-holder q es r)

-- After an `acquire_update_leases` that returns, a dataset is leased to the run that the last request for
-- it names, or as before when no request names it; and a dataset that a run held is still held by that
-- run, even if its lease had expired by the time of the call.
pub holder-acquire_update_leases :
    (now : ℕ) (qs : List LeaseRequest) (ttl : ℕ) (owner : Option ℕ) (l : Ledger) {l' : Ledger}
    → acquire_update_leases now qs ttl owner l ≡ ok l'
    → (src name : ℕ)
    → (holder src name l'.leases ≡ coalesce (requested src name qs) (holder src name l.leases))
      × (holder src name l'.leases
          ≡ coalesce (holder src name l.leases) (holder src name l'.leases))
unfolding acquire_update_leases
holder-acquire_update_leases now qs ttl owner l {l'} returns src name =
    elim (Bool-cases (any (λ q. any (conflicts q) l.leases) qs)) [
      | inl busy ↦ absurd (cc (rw busy at returns))
      | inr free ↦
          let after : holder src name l'.leases
              ≡ coalesce (requested src name qs) (holder src name l.leases) =
            of_Holds
              (λ (m : Ledger).
                holder src name m.leases
                ≡ coalesce (requested src name qs) (holder src name l.leases))
              (rw free at returns)
              (>>=-Holds
                (λ fs.
                  holder src name fs ≡ coalesce (requested src name qs) (holder src name l.leases))
                (λ (m : Ledger).
                  holder src name m.leases
                  ≡ coalesce (requested src name qs) (holder src name l.leases))
                (for_each (grant now (now + ttl) owner) qs l.leases)
                (λ es. ok (record l { leases = es }))
                (grants-holder src name now (now + ttl) owner qs l.leases) (λ es h. h)) in
          (
            after,
            elim (Option-cases (holder src name l.leases)) [
              | inl unheld ↦ rw unheld refl
              | inr held ↦ rw held.1 (
                  after
                  ∙ ap (coalesce (requested src name qs)) held.1
                  ∙ requested-holder src name now ttl owner qs l.leases held.0 free held.1)
            ],
          )
    ]
