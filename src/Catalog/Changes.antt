-- ===== src/Catalog/Changes.antt =====
-- Each change of the tables keeps what holds of them.
use bagelquant_data.Prelude.{
  ℕ, ◌≡◌, refl, sym, ◌∙◌, ap, Bool, true, false, ◌⊎◌, inl, inr, Option, none, some, List, [], ◌∷◌,
  ◌==◌, arith, Bool-cases, ==→eq, ==-refl, In, any,
}
use mathlib.Core.Path.{subst}
use bagelquant_data.Catalog.{
  Tree, Node, same_tree, row_of, in_tree, parent_in, next, is_sibling, has_sibling, check_name,
}
use bagelquant_data.Catalog.Operations.{delete_node, is_child}
use bagelquant_data.Catalog.Chains.{
  ends, Ends, next-fresh, row_of-delete_node, row_of-deleted, Ends-kept, ends-Avoids,
}
use bagelquant_data.Catalog.Invariant.{
  IsForest, any-In, same_tree→eq, is_sibling_sym, Avoids-childless,
}

-- The insertion of `_create`, all of whose tests have passed.
module _ (is_space : ℕ → Bool) (n : Node) (ns : List Node) (forest : IsForest is_space ns)
    (fresh : row_of n.id ns ≡ none) where
  fresh-In : (m : Node) → In m ns → (n.id == m.id) ≡ false
  fresh-In m i = elim (Bool-cases (n.id == m.id)) [
    | inl same ↦ absurd (cc (forest.keys m i, fresh, ap (λ x. row_of x ns) (==→eq n.id m.id same)))
    | inr other ↦ other
  ]

  keys-insert : (m : Node) → In m (n ∷ ns) → row_of m.id (n ∷ ns) ≡ some m
  keys-insert m (inl e) = rw e (rw (==-refl n.id) refl)
  keys-insert m (inr i) = rw (fresh-In m i) (forest.keys m i)

  rooted-insert :
      (known : Ends n.tree ns n.parent) (t : Tree) (p : ℕ) (q : Option ℕ)
      → next t (n ∷ ns) p ≡ some q
      → Ends t (n ∷ ns) q
  unfolding next
  rooted-insert known t p q h = elim (Bool-cases (n.id == p)) [
    | inl same ↦ elim (Bool-cases (same_tree t n.tree)) [
      | inl mine ↦
          let e : n.parent ≡ q = ground (arith, h, same, mine) in
          subst (λ u. Ends u (n ∷ ns) q) (sym (same_tree→eq t n.tree mine))
            (
              known.0,
              Ends-kept n.tree ns (n ∷ ns) (λ p q. next-fresh n.tree n ns p q fresh) known.0 q
                  (ap (ends known.0 n.tree ns) (sym e) ∙ known.1),
            )
      | inr foreign ↦ absurd (ground (arith, h, same, foreign))
    ]
    | inr other ↦
        let r = forest.rooted t p q (rw other at h) in
        (r.0, Ends-kept t ns (n ∷ ns) (λ p q. next-fresh t n ns p q fresh) r.0 q r.1)
  ]

  siblings-insert :
      (alone : has_sibling none n ns ≡ false) (a b : Node)
      → In a (n ∷ ns)
      → In b (n ∷ ns)
      → (a.id == b.id) ≡ false
      → is_sibling a b ≡ false
  siblings-insert alone a b (inl e) (inl f) h = absurd (cc (rw (e, f, ==-refl n.id) at h))
  siblings-insert alone a b (inl e) (inr j) h = rw e (any-In (is_sibling n) ns b alone j)
  siblings-insert alone a b (inr i) (inl f) h =
      rw (f, is_sibling_sym a n) (any-In (is_sibling n) ns a alone i)
  siblings-insert alone a b (inr i) (inr j) h = forest.siblings a b i j h

  pub IsForest-insert :
      check_name is_space n.name ≡ true
      → Ends n.tree ns n.parent
      → has_sibling none n ns ≡ false
      → IsForest is_space (n ∷ ns)
  IsForest-insert good known alone = record {
    keys = keys-insert;
    rooted = rooted-insert known;
    siblings = siblings-insert alone;
    trimmed = named;
  }
    where
      named : (m : Node) → In m (n ∷ ns) → check_name is_space m.name ≡ true
      named m (inl e) = ap (λ (x : Node). check_name is_space x.name) e ∙ good
      named m (inr i) = forest.trimmed m i

In-delete_node :
    (id : ℕ) (ns : List Node) (n : Node)
    → In n (delete_node id ns)
    → In n ns × ((n.id == id) ≡ false)
In-delete_node id [] n h = absurd h
In-delete_node id (m ∷ ns) n h = elim (Bool-cases (m.id == id)) [
  | inl gone ↦ let r = In-delete_node id ns n (rw gone at h) in (inr r.0, r.1)
  | inr stays ↦ split (rw stays at h) stays (In-delete_node id ns n)
]
  where
    split :
        (n ≡ m) ⊎ In n (delete_node id ns)
        → (m.id == id) ≡ false
        → (In n (delete_node id ns) → In n ns × ((n.id == id) ≡ false))
        → In n (m ∷ ns) × ((n.id == id) ≡ false)
    split (inl e) s ih = (inl e, ap (λ (x : Node). x.id == id) e ∙ s)
    split (inr i) s ih = (inr (ih i).0, (ih i).1)

-- The deletion of a category that has no children.
pub IsForest-delete_node :
    (is_space : ℕ → Bool) (id : ℕ) (ns : List Node)
    → any (is_child id) ns ≡ false
    → IsForest is_space ns
    → IsForest is_space (delete_node id ns)
unfolding next
IsForest-delete_node is_space id ns childless forest = record {
  keys = λ n i.
      let r = In-delete_node id ns n i in row_of-delete_node id n.id ns r.1 ∙ forest.keys n r.0;
  rooted = rooted;
  siblings =
      λ n m i j. forest.siblings n m (In-delete_node id ns n i).0 (In-delete_node id ns m j).0;
  trimmed = λ n i. forest.trimmed n (In-delete_node id ns n i).0;
}
  where
    keep : (t : Tree) (p : ℕ) → (p == id) ≡ false → next t (delete_node id ns) p ≡ next t ns p
    keep t p other = ap (λ r. parent_in (in_tree t r)) (row_of-delete_node id p ns other)

    rooted :
        (t : Tree) (p : ℕ) (q : Option ℕ)
        → next t (delete_node id ns) p ≡ some q
        → Ends t (delete_node id ns) q
    rooted t p q h = elim (Bool-cases (p == id)) [
      | inl same ↦ absurd (
          cc (
            ap (λ x. next t (delete_node id ns) x) (==→eq p id same),
            ap (λ r. parent_in (in_tree t r)) (row_of-deleted id ns),
            h,
          ))
      | inr other ↦
          let e = sym (keep t p other) ∙ h in
          let r = forest.rooted t p q e in
          (
            r.0,
            ends-Avoids t id ns (delete_node id ns) (keep t) r.0 q
                (λ j. Avoids-childless t id ns childless j p q e) r.1,
          )
    ]
