-- ===== src/Catalog/Invariant.antt =====
-- What holds of the tables of every catalog, and lemmas on its rows.
use bagelquant_data.Prelude.{
  ℕ, zero, suc, ◌≡◌, refl, sym, ◌∙◌, ap, Bool, true, false, inl, inr, Option, none, some, List, [],
  ◌∷◌, ◌==◌, arith, Bool-cases, Option-cases, ==→eq, In, any, is_some,
}
use bagelquant_data.Catalog.{
  Tree, Node, Assignment, Catalog, same_tree, same_name, row_of, in_tree, next, is_sibling,
  check_name,
}
use bagelquant_data.Catalog.Operations.{is_known, is_child}
use bagelquant_data.Catalog.Chains.{ends, hits, Ends}

-- The rows of the categories: their keys differ, every chain of parents stays within its tree and ends at a
-- root, two categories of one tree with the same parent have different names, and names are trimmed.
pub record IsForest (is_space : ℕ → Bool) (ns : List Node) : Type 0 where
  pub keys : (n : Node) → In n ns → row_of n.id ns ≡ some n
  pub rooted : (t : Tree) (p : ℕ) (q : Option ℕ) → next t ns p ≡ some q → Ends t ns q
  pub siblings : (n m : Node) → In n ns → In m ns → (n.id == m.id) ≡ false → is_sibling n m ≡ false
  pub trimmed : (n : Node) → In n ns → check_name is_space n.name ≡ true

-- Objects are assigned to categories of their own tree.
pub record IsValid (is_space : ℕ → Bool) (s : Catalog) : Type 0 where
  pub forest : IsForest is_space s.nodes
  pub assigned :
      (a : Assignment)
      → In a s.assignments
      → is_some (in_tree a.tree (row_of a.category s.nodes)) ≡ true

pub any-In :
    {A : Type 0} (p : A → Bool) (xs : List A) (x : A) → any p xs ≡ false → In x xs → p x ≡ false
any-In p [] x h m = absurd m
any-In p (y ∷ ys) x h (inl e) = ap p e ∙ ground (arith, h)
any-In p (y ∷ ys) x h (inr m) = any-In p ys x (ground (arith, h)) m

pub same_tree→eq : (t u : Tree) → same_tree t u ≡ true → t ≡ u
same_tree→eq t u h = ground arith

pub same_name_sym : (a b : List ℕ) → same_name a b ≡ same_name b a
same_name_sym [] [] = refl
same_name_sym [] (d ∷ ds) = refl
same_name_sym (c ∷ cs) [] = refl
same_name_sym (c ∷ cs) (d ∷ ds) = ground (arith, same_name_sym cs ds)

pub is_sibling_sym : (n m : Node) → is_sibling n m ≡ is_sibling m n
is_sibling_sym n m = ground (arith, same_name_sym n.name m.name)

pub row_of-In : (id : ℕ) (ns : List Node) (n : Node) → row_of id ns ≡ some n → In n ns × (n.id ≡ id)
row_of-In id [] n h = absurd (cc h)
row_of-In id (m ∷ ns) n h = elim (Bool-cases (m.id == id)) [
  | inl same ↦
      let e : m ≡ n = ground (arith, h) in
      (inl (sym e), ap (λ (x : Node). x.id) (sym e) ∙ ==→eq m.id id same)
  | inr other ↦ let r = row_of-In id ns n (rw other at h) in (inr r.0, r.1)
]

-- A category that `get` finds is in the tree that it is looked for in.
pub in_tree-found :
    (t : Tree) (id : ℕ) (ns : List Node) (n : Node)
    → in_tree t (row_of id ns) ≡ some n
    → (row_of id ns ≡ some n) × (t ≡ n.tree)
in_tree-found t id ns n h = elim (Option-cases (row_of id ns)) [
  | inl e ↦ absurd (cc (rw (e, in_tree) at h))
  | inr (m, e) ↦ elim (Bool-cases (same_tree t m.tree)) [
    | inl same ↦
        let f : m ≡ n = ground (arith, h, e, same) in
        (e ∙ ap some f, same_tree→eq t m.tree same ∙ ap (λ (x : Node). x.tree) f)
    | inr other ↦ absurd (ground (arith, h, e, other))
  ]
]

-- A known parent starts a chain that ends.
pub known-Ends :
    (t : Tree) (q : Option ℕ) (s : Catalog)
    (rooted : (t : Tree) (p : ℕ) (q : Option ℕ) → next t s.nodes p ≡ some q → Ends t s.nodes q)
    → is_known t q s ≡ true
    → Ends t s.nodes q
unfolding next
known-Ends t none s rooted h = (0, refl)
known-Ends t (some p) s rooted h = elim (Option-cases (next t s.nodes p)) [
  | inl e ↦ absurd (ground (arith, h, e))
  | inr (q, e) ↦ let r = rooted t p q e in (suc r.0, rw (e, ends) r.1)
]

-- No chain meets a category that has no children, except by starting there.
pub next-childless :
    (t : Tree) (id : ℕ) (ns : List Node) (p c : ℕ)
    → any (is_child id) ns ≡ false
    → next t ns p ≡ some (some c)
    → (c == id) ≡ false
unfolding next
next-childless t id [] p c h e = absurd (cc e)
next-childless t id (n ∷ ns) p c h e = ground (arith, next-childless t id ns p c)

pub Avoids-childless :
    (t : Tree) (id : ℕ) (ns : List Node) (childless : any (is_child id) ns ≡ false) (j : ℕ) (p : ℕ)
    (q : Option ℕ)
    → next t ns p ≡ some q
    → hits j t ns id q ≡ false
Avoids-childless t id ns childless j p none e = refl
Avoids-childless t id ns childless zero p (some c) e = refl
Avoids-childless t id ns childless (suc j) p (some c) e = elim (Option-cases (next t ns c)) [
  | inl f ↦ rw (next-childless t id ns p c childless e, f, hits) refl
  | inr (q, f) ↦
      rw (next-childless t id ns p c childless e, f, hits)
        (Avoids-childless t id ns childless j c q f)
]
