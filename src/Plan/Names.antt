-- ===== src/Plan/Names.antt =====
-- The names of a plan: what sorting and the choice of prerequisites do to membership.
use bagelquant_data.Prelude.{
  ℕ, ◌≡◌, refl, sym, ◌∙◌, ap, true, ◌⊎◌, inl, inr, Option, none, some, List, [], ◌∷◌, ◌==◌, ltb,
  filter, contains, length, In, arith, Bool-cases, ==→eq, unseen,
}
use bagelquant_data.Plan.{insert_name, sorted_names, prerequisites}
use bagelquant_data.Plan.Ordering.{Planned, parents_for}

pub unseen-length : (names : List ℕ) → unseen names [] ≡ length names
unseen-length [] = refl
unseen-length (n ∷ ns) = omega (arith, unseen-length ns)

In-insert_name : (p q : ℕ) (qs : List ℕ) → In p (insert_name q qs) → (p ≡ q) ⊎ In p qs
In-insert_name p q [] (inl e) = inl e
In-insert_name p q [] (inr i) = absurd i
In-insert_name p q (r ∷ rs) h = elim (Bool-cases (ltb q r)) [
  | inl before ↦ before_all (rw before at h)
  | inr after ↦ elim (Bool-cases (q == r)) [
    | inl same ↦ inr (rw (after, same) at h)
    | inr other ↦ later (rw (after, other) at h) (In-insert_name p q rs)
  ]
]
  where
    before_all : In p (q ∷ r ∷ rs) → (p ≡ q) ⊎ In p (r ∷ rs)
    before_all h = h

    later :
        In p (r ∷ insert_name q rs)
        → (In p (insert_name q rs) → (p ≡ q) ⊎ In p rs)
        → (p ≡ q) ⊎ In p (r ∷ rs)
    later (inl e) ih = inr (inl e)
    later (inr i) ih = widen (ih i)
      where
        widen : (p ≡ q) ⊎ In p rs → (p ≡ q) ⊎ In p (r ∷ rs)
        widen (inl e) = inl e
        widen (inr j) = inr (inr j)

insert_name-In : (p q : ℕ) (qs : List ℕ) → (p ≡ q) ⊎ In p qs → In p (insert_name q qs)
insert_name-In p q [] h = h
insert_name-In p q (r ∷ rs) h = elim (Bool-cases (ltb q r)) [
  | inl before ↦ rw before h
  | inr after ↦ elim (Bool-cases (q == r)) [
    | inl same ↦ rw (after, same) (merged h (==→eq q r same))
    | inr other ↦ rw (after, other) (later h (insert_name-In p q rs))
  ]
]
  where
    merged : (p ≡ q) ⊎ In p (r ∷ rs) → q ≡ r → In p (r ∷ rs)
    merged (inl e) f = inl (e ∙ f)
    merged (inr i) f = i

    later :
        (p ≡ q) ⊎ In p (r ∷ rs)
        → ((p ≡ q) ⊎ In p rs → In p (insert_name q rs))
        → In p (r ∷ insert_name q rs)
    later (inl e) ih = inr (ih (inl e))
    later (inr (inl e)) ih = inl e
    later (inr (inr i)) ih = inr (ih (inr i))

pub sorted_names-In : (p : ℕ) (ps : List ℕ) → In p ps → In p (sorted_names ps)
sorted_names-In p [] h = h
sorted_names-In p (q ∷ qs) (inl e) = insert_name-In p q (sorted_names qs) (inl e)
sorted_names-In p (q ∷ qs) (inr i) =
    insert_name-In p q (sorted_names qs) (inr (sorted_names-In p qs i))

pub In-sorted_names : (p : ℕ) (ps : List ℕ) → In p (sorted_names ps) → In p ps
In-sorted_names p [] h = h
In-sorted_names p (q ∷ qs) h =
    either (In-insert_name p q (sorted_names qs) h) (In-sorted_names p qs)
  where
    either : (p ≡ q) ⊎ In p (sorted_names qs) → (In p (sorted_names qs) → In p qs) → In p (q ∷ qs)
    either (inl e) ih = inl e
    either (inr i) ih = inr (ih i)

contains-In : (p : ℕ) (ps : List ℕ) → contains p ps ≡ true → In p ps
contains-In p [] h = absurd (cc h)
contains-In p (q ∷ qs) h = elim (Bool-cases (q == p)) [
  | inl same ↦ inl (sym (==→eq q p same))
  | inr other ↦ inr (contains-In p qs (rw other at h))
]

In-filter_names :
    (specs : List ℕ) (p : ℕ) (ps : List ℕ) → In p (filter (λ q. contains q specs) ps) → In p specs
In-filter_names specs p [] h = absurd h
In-filter_names specs p (q ∷ qs) h = elim (Bool-cases (contains q specs)) [
  | inl inside ↦ either (rw inside at h) (In-filter_names specs p qs) inside
  | inr outside ↦ In-filter_names specs p qs (rw outside at h)
]
  where
    either :
        (p ≡ q) ⊎ In p (filter (λ q. contains q specs) qs)
        → (In p (filter (λ q. contains q specs) qs) → In p specs)
        → contains q specs ≡ true
        → In p specs
    either (inl e) ih inside = contains-In p specs (ap (λ x. contains x specs) e ∙ inside)
    either (inr i) ih inside = ih i

-- Prerequisites that are not asked for are left out.
pub parents_for-In :
    (specs : List ℕ) (o : Option Planned) (p : ℕ) → In p (parents_for specs o) → In p specs
parents_for-In specs none p h = absurd h
parents_for-In specs (some q) p h =
    let ps = prerequisites q.dataset q.actions in
    In-filter_names specs p ps (In-sorted_names p (filter (λ r. contains r specs) ps) h)
