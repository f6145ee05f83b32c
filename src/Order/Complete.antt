-- ===== src/Order/Complete.antt =====
-- The orders of the tasks lose and repeat none, and repairs come first.
use bagelquant_data.Prelude.{
  ℕ, zero, suc, ◌+◌, ◌≤◌, ◌≡◌, refl, ◌∙◌, Bool, true, not, inl, inr, List, [], ◌∷◌, ◌++◌, ◌==◌,
  length, if◌then◌else◌, filter, arith, Bool-cases,
}
use bagelquant_data.Order.{
  Task, Queue, enqueue, grouped, requeue, take_turns, fair_tasks, is_repair, precedes, insert_task,
  sort_tasks, partition_affinity_order,
}

module _ (p : Task → Bool) where
  -- How many tasks pass the test.
  abbrev pub count : List Task → ℕ
  count [] = 0
  count (t ∷ ts) = (if p t then 1 else 0) + count ts

  count-append : (ts us : List Task) → count (ts ++ us) ≡ count ts + count us
  count-append [] us = omega arith
  count-append (t ∷ ts) us = omega (arith, count-append ts us)

  queued : List Queue → ℕ
  queued [] = 0
  queued (q ∷ qs) = ((if p q.head then 1 else 0) + count q.tail) + queued qs

  queued-append : (qs rs : List Queue) → queued (qs ++ rs) ≡ queued qs + queued rs
  unfolding queued
  queued-append [] rs = omega arith
  queued-append (q ∷ qs) rs = omega (arith, queued-append qs rs)

  queued-enqueue :
      (t : Task) (qs : List Queue) → queued (enqueue t qs) ≡ queued qs + (if p t then 1 else 0)
  unfolding queued enqueue
  queued-enqueue t [] = omega arith
  queued-enqueue t (q ∷ qs) = elim (Bool-cases (q.name == t.name)) [
    | inl e ↦ rw (e, enqueue) (omega (arith, count-append q.tail (t ∷ [])))
    | inr e ↦ rw (e, enqueue) (omega (arith, queued-enqueue t qs))
  ]

  queued-grouped :
      (ts : List Task) (qs : List Queue) → queued (grouped ts qs) ≡ count ts + queued qs
  unfolding queued
  queued-grouped [] qs = omega arith
  queued-grouped (t ∷ ts) qs = omega (arith, queued-grouped ts (enqueue t qs), queued-enqueue t qs)

  queued-requeue : (q : Queue) (qs : List Queue) → queued (requeue q qs) ≡ count q.tail + queued qs
  unfolding queued
  queued-requeue q qs = go q.tail
    where
      go :
          (ts : List Task)
          → queued (elim ts as (λ _. List Queue) [
            | [] ↦ qs
            | t ∷ ts ↦ qs ++ record { name = q.name; head = t; tail = ts } ∷ []
          ])
            ≡ count ts + queued qs
      go [] = omega arith
      go (t ∷ ts) =
          omega (arith, queued-append qs (record { name = q.name; head = t; tail = ts } ∷ []))

size : List Queue → ℕ
size [] = 0
size (q ∷ qs) = suc (length q.tail) + size qs

count-take_turns :
    (p : Task → Bool) (fuel : ℕ) (qs : List Queue)
    → queued (λ _. true) qs ≤ fuel
    → count p (take_turns fuel qs) ≡ queued p qs
unfolding take_turns queued
count-take_turns p fuel [] enough = refl
count-take_turns p zero (q ∷ qs) enough = absurd (omega (arith, enough))
count-take_turns p (suc fuel) (q ∷ qs) enough = omega (
  arith,
  count-take_turns p fuel (requeue q qs) (omega (arith, enough, queued-requeue (λ _. true) q qs)),
  queued-requeue p q qs,
)

count-all : (ts : List Task) → count (λ _. true) ts ≡ length ts
count-all [] = refl
count-all (t ∷ ts) = omega (arith, count-all ts)

-- `_fair_tasks` returns each task as often as it is given: for any test, as many tasks pass it.
pub count-fair_tasks : (p : Task → Bool) (ts : List Task) → count p (fair_tasks ts) ≡ count p ts
unfolding fair_tasks queued
count-fair_tasks p ts =
    count-take_turns p (length ts) (grouped ts [])
      (omega (arith, queued-grouped (λ _. true) ts [], count-all ts))
    ∙ queued-grouped p ts []
    ∙ omega arith

count-insert_task :
    (p : Task → Bool) (t : Task) (ts : List Task)
    → count p (insert_task t ts) ≡ (if p t then 1 else 0) + count p ts
count-insert_task p t [] = refl
count-insert_task p t (u ∷ us) = elim (Bool-cases (precedes t u)) [
  | inl e ↦ rw e refl
  | inr e ↦ rw e (omega (arith, count-insert_task p t us))
]

count-sort_tasks : (p : Task → Bool) (ts : List Task) → count p (sort_tasks ts) ≡ count p ts
count-sort_tasks p [] = refl
count-sort_tasks p (t ∷ ts) =
    omega (arith, count-insert_task p t (sort_tasks ts), count-sort_tasks p ts)

count-partition :
    (p r : Task → Bool) (ts : List Task)
    → count p (filter r ts) + count p (filter (λ t. not (r t)) ts) ≡ count p ts
count-partition p r [] = refl
count-partition p r (t ∷ ts) = ground (arith, count-partition p r ts)

-- No repair comes after a task that is none.
abbrev pub repairs_first : List Task → Bool
repairs_first [] = true
repairs_first (t ∷ ts) = if is_repair t then repairs_first ts else count is_repair ts == 0

repairs_first-others : (ts : List Task) → count is_repair ts ≡ 0 → repairs_first ts ≡ true
repairs_first-others [] h = refl
repairs_first-others (t ∷ ts) h = ground (arith, h, repairs_first-others ts)

repairs_first-append :
    (rs os : List Task)
    → count (λ t. not (is_repair t)) rs ≡ 0
    → count is_repair os ≡ 0
    → repairs_first (rs ++ os) ≡ true
repairs_first-append [] os r o = repairs_first-others os o
repairs_first-append (t ∷ ts) os r o = ground (arith, r, o, repairs_first-append ts os)

count-filter-not :
    (r : Task → Bool) (ts : List Task)
    → (count (λ t. not (r t)) (filter r ts) ≡ 0) × (count r (filter (λ t. not (r t)) ts) ≡ 0)
count-filter-not r [] = (refl, refl)
count-filter-not r (t ∷ ts) =
    let rest = count-filter-not r ts in
    elim (Bool-cases (r t)) [
      | inl e ↦ rw e (rw e (omega (arith, rest.0)), rest.1)
      | inr e ↦ rw e (rest.0, rw e (omega (arith, rest.1)))
    ]

-- `_partition_affinity_order` returns each task as often as it is given, and no repair (a retry or a
-- recheck of an empty scope) after a task that is none.
pub partition_affinity_order_complete :
    (p : Task → Bool) (ts : List Task)
    → (count p (partition_affinity_order ts) ≡ count p ts)
      × (repairs_first (partition_affinity_order ts) ≡ true)
unfolding partition_affinity_order
partition_affinity_order_complete p ts =
    let repairs = filter is_repair ts in
    let others = filter (λ t. not (is_repair t)) ts in
    let none_left = count-filter-not is_repair ts in
    (
      count-append p (sort_tasks repairs) (sort_tasks others)
          ∙ omega (
            arith,
            count-sort_tasks p repairs,
            count-sort_tasks p others,
            count-partition p is_repair ts,
          ),
      repairs_first-append (sort_tasks repairs) (sort_tasks others)
          (count-sort_tasks (λ t. not (is_repair t)) repairs ∙ none_left.0)
          (count-sort_tasks is_repair others ∙ none_left.1),
    )
