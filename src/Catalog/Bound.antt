-- ===== src/Catalog/Bound.antt =====
-- A chain of parents that ends visits each row at most once, so that the number of rows bounds it.
use bagelquant_data.Prelude.{
  ℕ, zero, suc, ◌≤◌, ◌≡◌, refl, sym, ◌∙◌, ap, true, false, inl, inr, Option, none, some, List, [],
  ◌∷◌, ◌==◌, if◌then◌else◌, arith, Bool-cases, Option-cases, ==→eq, length,
}
use bagelquant_data.Catalog.{Tree, Node, in_tree, parent_in, next}
use bagelquant_data.Catalog.Operations.{Walk, walk, delete_node}
use bagelquant_data.Catalog.Chains.{
  ends, hits, Avoids, row_of-delete_node, row_of-deleted, ends-suc, Ends-kept, ends-Avoids,
}

next-delete_node :
    (t : Tree) (id p : ℕ) (ns : List Node)
    → (p == id) ≡ false
    → next t (delete_node id ns) p ≡ next t ns p
unfolding next
next-delete_node t id p ns h = ap (λ r. parent_in (in_tree t r)) (row_of-delete_node id p ns h)

next-deleted : (t : Tree) (id : ℕ) (ns : List Node) → next t (delete_node id ns) id ≡ none
unfolding next
next-deleted t id ns = ap (λ r. parent_in (in_tree t r)) (row_of-deleted id ns)

-- A row of the smaller table is a row of the larger one.
next-undelete :
    (t : Tree) (id : ℕ) (ns : List Node) (p : ℕ) (q : Option ℕ)
    → next t (delete_node id ns) p ≡ some q
    → next t ns p ≡ some q
next-undelete t id ns p q h = elim (Bool-cases (p == id)) [
  | inl same ↦
      absurd (cc (ap (next t (delete_node id ns)) (==→eq p id same), next-deleted t id ns, h))
  | inr other ↦ sym (next-delete_node t id p ns other) ∙ h
]

length-delete_node : (id : ℕ) (ns : List Node) → length (delete_node id ns) ≤ length ns
length-delete_node id [] = omega arith
length-delete_node id (n ∷ ns) = ground (arith, length-delete_node id ns)

length-deleted :
    (t : Tree) (id : ℕ) (ns : List Node) (q : Option ℕ)
    → next t ns id ≡ some q
    → suc (length (delete_node id ns)) ≤ length ns
unfolding next
length-deleted t id [] q h = absurd (cc h)
length-deleted t id (n ∷ ns) q h =
    ground (arith, length-delete_node id ns, length-deleted t id ns q)

-- A row that a chain meets starts a chain that is no longer.
ends-hits :
    (j k : ℕ) (t : Tree) (ns : List Node) (p : ℕ) (q : Option ℕ)
    → hits j t ns p q ≡ true
    → ends k t ns q ≡ true
    → ends k t ns (some p) ≡ true
ends-hits j k t ns p none met h = absurd (cc met)
ends-hits zero k t ns p (some r) met h = absurd (cc met)
ends-hits (suc j) zero t ns p (some r) met h = absurd (cc h)
ends-hits (suc j) (suc k) t ns p (some r) met h = elim (Bool-cases (r == p)) [
  | inl same ↦ ap (λ x. ends (suc k) t ns (some x)) (sym (==→eq r p same)) ∙ h
  | inr other ↦ elim (Option-cases (next t ns r)) [
    | inl e ↦ absurd (cc (ap (λ x. x) (rw (e, ends) at h)))
    | inr (q, e) ↦
        ends-suc k t ns (some p)
          (ends-hits j k t ns p q (rw (other, e, hits) at met) (rw (e, ends) at h))
  ]
]

-- The chain above a row never meets the row.
pub Avoids-next :
    (k : ℕ) (t : Tree) (ns : List Node) (p : ℕ) (q : Option ℕ)
    → ends k t ns (some p) ≡ true
    → next t ns p ≡ some q
    → Avoids t ns p q
Avoids-next zero t ns p q h e j = absurd (cc h)
Avoids-next (suc k) t ns p q h e j = elim (Bool-cases (hits j t ns p q)) [
  | inl met ↦ Avoids-next k t ns p q (ends-hits j k t ns p q met (rw (e, ends) at h)) e j
  | inr apart ↦ apart
]

pub ends-bounded :
    (n k : ℕ) (t : Tree) (ns : List Node) (q : Option ℕ)
    → length ns ≤ n
    → ends k t ns q ≡ true
    → ends n t ns q ≡ true
unfolding next
ends-bounded n k t ns none le h = refl
ends-bounded n zero t ns (some p) le h = absurd (cc h)
ends-bounded zero (suc k) t [] (some p) le h = absurd (cc h)
ends-bounded zero (suc k) t (m ∷ ns) (some p) le h = absurd (omega (arith, le))
ends-bounded (suc n) (suc k) t ns (some p) le h = elim (Option-cases (next t ns p)) [
  | inl e ↦ absurd (cc (rw (e, ends) at h))
  | inr (q, e) ↦
      let h' = (rw (e, ends) at h) in
      rw (e, ends)
        (Ends-kept t (delete_node p ns) ns (next-undelete t p ns) n q (
          ends-bounded n k t (delete_node p ns) q (omega (arith, le, length-deleted t p ns q e)) (
            ends-Avoids t p ns (delete_node p ns) (λ r. next-delete_node t p r ns) k q
              (Avoids-next (suc k) t ns p q h e) h')))
]

-- On a chain that ends the walk of `update` finds the root or the category, whichever comes first.
pub walk-ends :
    (k : ℕ) (t : Tree) (id : ℕ) (ns : List Node) (q : Option ℕ)
    → ends k t ns q ≡ true
    → walk k t id ns q ≡ (if hits k t ns id q then Walk.met_itself else Walk.at_root)
unfolding walk
walk-ends k t id ns none h = refl
walk-ends zero t id ns (some p) h = absurd (cc h)
walk-ends (suc k) t id ns (some p) h = elim (Option-cases (next t ns p)) [
  | inl e ↦ absurd (cc (rw (e, ends) at h))
  | inr (q, e) ↦ elim (Bool-cases (p == id)) [
    | inl same ↦ rw (same, walk, hits) refl
    | inr other ↦ rw (other, e, walk, hits) (walk-ends k t id ns q (rw (e, ends) at h))
  ]
]
