-- ===== src/Catalog/Kept.antt =====
-- Every operation of the category trees keeps them valid.
use bagelquant_data.Prelude.{
  ℕ, ◌≡◌, ◌∙◌, ap, Bool, true, false, not, ◌||◌, ◌⊎◌, inl, inr, Option, none, some, List, [], ◌∷◌,
  ◌==◌, arith, Option-cases, In, any, is_some, length,
}
use bagelquant_data.Catalog.{
  Tree, Node, Assignment, Catalog, Outcome, ok, refused, row_of, in_tree, has_sibling, check_name,
}
use bagelquant_data.Catalog.Operations.{
  walk, is_known, insert_node, selected, is_child, is_object, is_assigned, assign_row, assign,
  remove, create_row, create, change_node, update, Request, perform, kept, perform_all,
}
use bagelquant_data.Catalog.Chains.{row_of-delete_node}
use bagelquant_data.Catalog.Invariant.{IsValid, any-In, known-Ends}
use bagelquant_data.Catalog.Changes.{IsForest-insert, IsForest-delete_node}
use bagelquant_data.Catalog.Relink.{IsForest-set_node}
use bagelquant_data.Catalog.Rules.{
  OnOk, OnOk-require, OnOk-after_walk, not-true, walk-at_root, assigned-insert, assigned-set_node,
  In-filter, In-upsert_assignment,
}

module _ (is_space : ℕ → Bool) where
  abbrev Kept : Outcome Catalog → Type 0
  Kept = OnOk (IsValid is_space)

  insert_node-Kept :
      (n : Node) (s : Catalog)
      → IsValid is_space s
      → check_name is_space n.name ≡ true
      → is_known n.tree n.parent s ≡ true
      → has_sibling none n s.nodes ≡ false
      → Kept (insert_node n s)
  unfolding insert_node
  insert_node-Kept n s v good known alone = elim (Option-cases (row_of n.id s.nodes)) [
    | inl fresh ↦ rw (fresh) (record {
      forest =
          IsForest-insert is_space n s.nodes v.forest fresh good
            (known-Ends n.tree n.parent s v.forest.rooted known) alone;
      assigned = λ a i. assigned-insert a.tree a.category n s.nodes fresh (v.assigned a i);
    })
    | inr (m, taken) ↦ rw (taken) tt
  ]

  create-Kept :
      (t : Tree) (id : ℕ) (name : List ℕ) (parent : Option ℕ) (s : Catalog)
      → IsValid is_space s
      → Kept (create is_space t id name parent s)
  unfolding create create_row
  create-Kept t id name parent s v =
      let n : Node = record { id = id; tree = t; name = name; parent = parent } in
      let P = IsValid is_space in
      OnOk-require P (not s.read_only) _ _ (λ w.
        OnOk-require P (check_name is_space name) _ _ (λ good.
          OnOk-require P (is_known t parent s) _ _ (λ known.
            OnOk-require P (check_name is_space name) _ _ (λ good.
              OnOk-require P (is_known t parent s) _ _ (λ known.
                OnOk-require P (not (has_sibling none n s.nodes)) _ _ (λ alone.
                  insert_node-Kept n s v good known
                    (not-true (has_sibling none n s.nodes) alone)))))))

  change_node-Kept :
      (t : Tree) (id : ℕ) (name : List ℕ) (parent : Option ℕ) (s : Catalog) (n : Node)
      → IsValid is_space s
      → in_tree t (row_of id s.nodes) ≡ some n
      → Kept (change_node is_space t id name parent s)
  unfolding change_node
  change_node-Kept t id name parent s n v there =
      let P = IsValid is_space in
      let p : Node = record { id = id; tree = t; name = name; parent = parent } in
      OnOk-require P (check_name is_space name) _ _ (λ good.
        OnOk-after_walk P (walk (length s.nodes) t id s.nodes parent) _ (λ rooted.
          OnOk-require P (not (has_sibling (some id) p s.nodes)) _ _ (λ alone.
            let r = walk-at_root (length s.nodes) t id s.nodes parent rooted in
            record {
              forest =
                  IsForest-set_node is_space t id name parent s.nodes v.forest n there good r.1 r.0
                    (not-true (has_sibling (some id) p s.nodes) alone);
              assigned = λ a i.
                  assigned-set_node a.tree a.category id name parent s.nodes ∙ v.assigned a i;
            })))

  update-Kept :
      (t : Tree) (id : ℕ) (name : Option (List ℕ)) (parent : Option (Option ℕ)) (s : Catalog)
      → IsValid is_space s
      → Kept (update is_space t id name parent s)
  unfolding update
  update-Kept t id name parent s v = OnOk-require (IsValid is_space) (not s.read_only) _ _ (λ w.
      elim (Option-cases (in_tree t (row_of id s.nodes))) [
        | inl e ↦ rw e tt
        | inr (n, e) ↦
            rw e (change_node-Kept t id (selected name n.name) (selected parent n.parent) s n v e)
      ])

  remove-Kept : (t : Tree) (id : ℕ) (s : Catalog) → IsValid is_space s → Kept (remove t id s)
  unfolding remove
  remove-Kept t id s v =
      let P = IsValid is_space in
      let used = any (λ a. a.category == id) s.assignments in
      OnOk-require P (not s.read_only) _ _ (λ w.
        OnOk-require P (is_known t (some id) s) _ _ (λ known.
          OnOk-require P (not (any (is_child id) s.nodes || used)) _ _ (λ empty. record {
            forest = IsForest-delete_node is_space id s.nodes (ground (arith, empty)) v.forest;
            assigned = λ a i.
                ap (λ r. is_some (in_tree a.tree r))
                  (row_of-delete_node id a.category s.nodes (
                    any-In (λ (b : Assignment). b.category == id) s.assignments a
                      (ground (arith, empty)) i))
                ∙ v.assigned a i;
          })))

  assign-Kept :
      (t : Tree) (key : ℕ) (category : Option ℕ) (s : Catalog)
      → IsValid is_space s
      → Kept (assign t key category s)
  unfolding assign
  assign-Kept t key category s v =
      let P = IsValid is_space in
      OnOk-require P (not s.read_only) _ _ (λ w.
        OnOk-require P (is_known t category s) _ _ (λ known.
          OnOk-require P (any (is_object t key) s.objects) _ _
            (λ exists_. record { forest = v.forest; assigned = rows category known })))
    where
      put :
          (c : ℕ)
          → is_known t (some c) s ≡ true
          → (a : Assignment)
          → (a ≡ record { tree = t; object_key = key; category = c }) ⊎ In a s.assignments
          → is_some (in_tree a.tree (row_of a.category s.nodes)) ≡ true
      put c known a (inl e) = rw e known
      put c known a (inr i) = v.assigned a i

      rows :
          (category : Option ℕ)
          → is_known t category s ≡ true
          → (a : Assignment) → In a (assign_row t key category s.assignments)
          → is_some (in_tree a.tree (row_of a.category s.nodes)) ≡ true
      rows none known a i =
          v.assigned a (In-filter (λ b. not (is_assigned t key b)) s.assignments a i)
      rows (some c) known a i = put c known a (
          In-upsert_assignment (record { tree = t; object_key = key; category = c }) s.assignments a
            i)

  perform-Kept : (r : Request) (s : Catalog) → IsValid is_space s → Kept (perform is_space r s)
  unfolding perform
  perform-Kept (Request.create_in t id name parent) s v = create-Kept t id name parent s v
  perform-Kept (Request.update_in t id name parent) s v = update-Kept t id name parent s v
  perform-Kept (Request.remove_in t id) s v = remove-Kept t id s v
  perform-Kept (Request.assign_in t key category) s v = assign-Kept t key category s v

  kept-IsValid :
      (o : Outcome Catalog) (s : Catalog)
      → Kept o
      → IsValid is_space s
      → IsValid is_space (kept is_space o s)
  kept-IsValid (ok s') s k v = k
  kept-IsValid (refused why) s k v = v

  -- Whatever requests the category trees get, accepted or refused, in whatever order: in each tree the
  -- categories keep different keys, every chain of parents stays in the tree and ends at a root, categories
  -- of the same tree and parent have different names, every name is trimmed and not empty, and every
  -- assignment is to a category of the object's own tree.
  pub perform_all-IsValid :
      (rs : List Request) (s : Catalog)
      → IsValid is_space s
      → IsValid is_space (perform_all is_space rs s)
  unfolding perform_all
  perform_all-IsValid [] s v = v
  perform_all-IsValid (r ∷ rs) s v =
      perform_all-IsValid rs (kept is_space (perform is_space r s) s)
        (kept-IsValid (perform is_space r s) s (perform-Kept r s v) v)
