-- ===== src/Catalog/Relink.antt =====
-- The change of a category that `update` makes keeps the categories a forest.
use bagelquant_data.Prelude.{
  ℕ, zero, suc, ◌≡◌, refl, sym, ◌∙◌, ap, Bool, true, false, not, ◌&&◌, ◌⊎◌, inl, inr, Option, none,
  some, List, [], ◌∷◌, ◌==◌, arith, Bool-cases, Option-cases, ==→eq, In,
}
use mathlib.Core.Path.{subst}
use bagelquant_data.Catalog.{
  Tree, Node, same_tree, row_of, in_tree, next, is_sibling, has_sibling, check_name,
}
use bagelquant_data.Catalog.Operations.{set_node}
use bagelquant_data.Catalog.Chains.{
  ends, Ends, Avoids, next-set_node, row_of-set_node, ends-Avoids, Ends-next, next-unchanged,
}
use bagelquant_data.Catalog.Invariant.{
  IsForest, any-In, same_tree→eq, is_sibling_sym, in_tree-found,
}

-- The change of `update`, all of whose tests have passed.
module _ (is_space : ℕ → Bool) (home : Tree) (id : ℕ) (name : List ℕ) (parent : Option ℕ)
    (ns : List Node) (forest : IsForest is_space ns) (old : Node)
    (there : in_tree home (row_of id ns) ≡ some old) where
  abbrev changed : Node → Node
  changed n = record n { name = name; parent = parent }

  abbrev ms : List Node
  ms = set_node id name parent ns

  row_of-changed :
      (ns : List Node) (n : Node)
      → row_of id ns ≡ some n
      → row_of id (set_node id name parent ns) ≡ some (changed n)
  row_of-changed [] n h = absurd (cc h)
  row_of-changed (m ∷ ns) n h = ground (arith, row_of-changed ns n)

  next-unset :
      (t : Tree) (ns : List Node)
      → next t ns id ≡ none
      → next t (set_node id name parent ns) id ≡ none
  unfolding next
  next-unset t [] h = refl
  next-unset t (m ∷ ns) h = ground (arith, next-unset t ns)

  -- A row of the changed table is a row of the table, changed where it is the category's.
  In-set_node :
      (ns : List Node) (n : Node)
      → In n (set_node id name parent ns)
      → (m : Node) × In m ns
        × ((((m.id == id) ≡ true) × (n ≡ changed m)) ⊎ (((m.id == id) ≡ false) × (n ≡ m)))
  In-set_node [] n h = absurd h
  In-set_node (m ∷ ns) n (inl e) = elim (Bool-cases (m.id == id)) [
    | inl same ↦ (m, inl refl, inl (same, e ∙ rw same refl))
    | inr other ↦ (m, inl refl, inr (other, e ∙ rw other refl))
  ]
  In-set_node (m ∷ ns) n (inr i) = let r = In-set_node ns n i in (r.0, inr r.1, r.2)

  In-home : (m : Node) → In m ns → (m.id == id) ≡ true → m ≡ old
  In-home m i same =
      let e = sym (ap (λ x. row_of x ns) (==→eq m.id id same)) ∙ forest.keys m i in
      some-injective (sym e ∙ (in_tree-found home id ns old there).0)
    where
      some-injective : {a b : Node} → some a ≡ some b → a ≡ b
      some-injective h = cc h

  keys-set_node : (n : Node) → In n ms → row_of n.id ms ≡ some n
  keys-set_node n i =
      let (m, j, c) = In-set_node ns n i in
      elim c [
        | inl (same, e) ↦ rw e (
            ap (λ x. row_of x ms) (==→eq m.id id same)
            ∙ row_of-changed ns m
                (ap (λ x. row_of x ns) (sym (==→eq m.id id same)) ∙ forest.keys m j))
        | inr (other, e) ↦ rw e (row_of-set_node id m.id name parent ns other ∙ forest.keys m j)
      ]

  -- A tree that the category is found in is its own.
  same_home : (t : Tree) (q : Option ℕ) → next t ns id ≡ some q → t ≡ home
  unfolding next
  same_home t q e = elim (Bool-cases (same_tree t old.tree)) [
    | inl same ↦ same_tree→eq t old.tree same ∙ sym (in_tree-found home id ns old there).1
    | inr other ↦ absurd (ground (arith, e, (in_tree-found home id ns old there).0, other))
  ]

  -- Chains through the category go on from its new parent.
  Ends-set_node :
      (base : Ends home ms parent) (t : Tree) (k : ℕ) (q : Option ℕ)
      → ends k t ns q ≡ true
      → Ends t ms q
  Ends-set_node base t k none h = (0, refl)
  Ends-set_node base t zero (some p) h = absurd (cc h)
  Ends-set_node base t (suc k) (some p) h = elim (Option-cases (next t ns p)) [
    | inl e ↦ absurd (cc (rw (e, ends) at h))
    | inr (q, e) ↦ elim (Bool-cases (p == id)) [
      | inl same ↦
          let here = ap (next t ns) (sym (==→eq p id same)) ∙ e in
          let top = ap (next t ms) (==→eq p id same) ∙ next-set_node t id name parent ns q here in
          Ends-next t ms p parent top
            (subst (λ u. Ends u ms parent) (sym (same_home t q here)) base)
      | inr other ↦
          Ends-next t ms p q (next-unchanged t id name parent ns p other ∙ e)
            (Ends-set_node base t k q (rw (e, ends) at h))
    ]
  ]

  rooted-set_node :
      (base : Ends home ms parent) (t : Tree) (p : ℕ) (q : Option ℕ)
      → next t ms p ≡ some q
      → Ends t ms q
  rooted-set_node base t p q h = elim (Bool-cases (p == id)) [
    | inl same ↦ elim (Option-cases (next t ns id)) [
      | inl e ↦ absurd (cc (next-unset t ns e, ap (next t ms) (==→eq p id same), h))
      | inr (r, e) ↦
          let f : parent ≡ q =
            cc (next-set_node t id name parent ns r e, ap (next t ms) (==→eq p id same), h) in
          (
            base.0,
            ap (λ u. ends base.0 u ms q) (same_home t r e)
                ∙ (ap (ends base.0 home ms) (sym f) ∙ base.1),
          )
    ]
    | inr other ↦
        let e = sym (next-unchanged t id name parent ns p other) ∙ h in
        let r = forest.rooted t p q e in Ends-set_node base t r.0 q r.1
  ]

  -- The row that `_check_sibling` compares the others with.
  abbrev proposed : Node
  proposed = record { id = id; tree = home; name = name; parent = parent }

  apart-changed :
      (m b : Node)
      → has_sibling (some id) proposed ns ≡ false
      → In m ns
      → (m.id == id) ≡ true
      → In b ns
      → (b.id == id) ≡ false
      → is_sibling (changed m) b ≡ false
  apart-changed m b alone i same j other =
      let f : m.tree ≡ home =
        ap (λ (x : Node). x.tree) (In-home m i same) ∙ sym (in_tree-found home id ns old there).1 in
      let g = any-In (λ x. is_sibling proposed x && not (x.id == id)) ns b alone j in
      ground (arith, f, g, other)

  siblings-set_node :
      has_sibling (some id) proposed ns ≡ false
      → (a b : Node) → In a ms
      → In b ms
      → (a.id == b.id) ≡ false
      → is_sibling a b ≡ false
  siblings-set_node alone a b i j h =
      let (m, k, c) = In-set_node ns a i in
      let (n, l, d) = In-set_node ns b j in
      elim c [
        | inl (same, e) ↦ elim d [
          | inl (same', f) ↦ absurd (ground (arith, h, same, same', e, f))
          | inr (other, f) ↦ rw (e, f) (apart-changed m n alone k same l other)
        ]
        | inr (other, e) ↦ elim d [
          | inl (same, f) ↦
              rw (e, f) (is_sibling_sym m (changed n) ∙ apart-changed n m alone l same k other)
          | inr (other', f) ↦ rw (e, f) (forest.siblings m n k l (rw (e, f) at h))
        ]
      ]

  pub IsForest-set_node :
      check_name is_space name ≡ true
      → Avoids home ns id parent
      → Ends home ns parent
      → has_sibling (some id) proposed ns ≡ false
      → IsForest is_space ms
  IsForest-set_node good avoids chain alone = record {
    keys = keys-set_node;
    rooted = rooted-set_node (
      chain.0,
      ends-Avoids home id ns ms (next-unchanged home id name parent ns) chain.0 parent avoids
          chain.1,
    );
    siblings = siblings-set_node alone;
    trimmed = named;
  }
    where
      named : (n : Node) → In n ms → check_name is_space n.name ≡ true
      named n i =
          let (m, j, c) = In-set_node ns n i in
          elim c [
            | inl (same, e) ↦ ap (λ (x : Node). check_name is_space x.name) e ∙ good
            | inr (other, e) ↦ ap (λ (x : Node). check_name is_space x.name) e ∙ forest.trimmed m j
          ]
