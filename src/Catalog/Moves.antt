-- ===== src/Catalog/Moves.antt =====
-- What a move answers, and that an update always ends.
use bagelquant_data.Prelude.{
  ℕ, ◌≡◌, ◌≢◌, refl, sym, Bool, true, false, not, inl, inr, Option, none, some, List, [], ◌∷◌, ◌==◌,
  if◌then◌else◌, arith, Bool-cases, Option-cases, length,
}
use bagelquant_data.Catalog.{
  Tree, Node, Catalog, Failure, Outcome, ok, refused, require, row_of, in_tree, next, has_sibling,
  check_name,
}
use bagelquant_data.Catalog.Operations.{
  Walk, walk, after_walk, get, is_known, set_node, selected, change_node, update, move,
}
use bagelquant_data.Catalog.Chains.{hits, Ends-next}
use bagelquant_data.Catalog.Bound.{ends-bounded, walk-ends}
use bagelquant_data.Catalog.Invariant.{IsForest, IsValid, in_tree-found, known-Ends, row_of-In}

module _ (is_space : ℕ → Bool) where
  -- Within the fuel of `update` the walk from a parent ends, and never loops.
  walk-ended :
      (t : Tree) (id : ℕ) (ns : List Node) (q : Option ℕ)
      → IsForest is_space ns
      → length ns ≢ 0
      → walk (length ns) t id ns q ≢ Walk.out_of_fuel
  unfolding walk
  walk-ended t id ns none v some_rows e = cc e
  walk-ended t id [] (some p) v some_rows e = some_rows refl
  walk-ended t id (m ∷ ns) (some p) v some_rows e = elim (Option-cases (next t (m ∷ ns) p)) [
    | inl lost ↦ elim (Bool-cases (p == id)) [
      | inl same ↦ cc (rw (same, walk) at e)
      | inr other ↦ cc (rw (other, lost, walk) at e)
    ]
    | inr (q, there) ↦
        let r = Ends-next t (m ∷ ns) p q there (v.rooted t p q there) in
        let w =
          walk-ends (length (m ∷ ns)) t id (m ∷ ns) (some p)
            (ends-bounded (length (m ∷ ns)) r.0 t (m ∷ ns) (some p) (omega arith) r.1) in
        ground (arith, e, w)
  ]

  found-length :
      (id : ℕ) (t : Tree) (ns : List Node) (n : Node)
      → in_tree t (row_of id ns) ≡ some n
      → length ns ≢ 0
  found-length id t [] n h e = cc h
  found-length id t (m ∷ ns) n h e = absurd (omega (arith, e))

  abbrev endless : Outcome Catalog
  endless = refused Failure.endless

  ok_ends : (s : Catalog) → ok s ≢ endless
  ok_ends s e = cc e

  require_ends :
      (test : Bool) (why : Failure) (rest : Outcome Catalog)
      → refused why ≢ endless
      → rest ≢ refused Failure.endless
      → require test why rest ≢ refused Failure.endless
  require_ends true why rest h r = r
  require_ends false why rest h r = h

  after_walk_ends :
      (w : Walk) (rest : Outcome Catalog)
      → w ≢ Walk.out_of_fuel
      → rest ≢ refused Failure.endless
      → after_walk w rest ≢ refused Failure.endless
  after_walk_ends Walk.at_root rest h r = r
  after_walk_ends Walk.met_itself rest h r = λ e. cc e
  after_walk_ends Walk.lost rest h r = λ e. cc e
  after_walk_ends Walk.out_of_fuel rest h r = λ e. h refl

  -- In a valid catalog the walk of `update` towards the root comes to an end, whatever the category, the
  -- name and the parent: no update runs for ever.
  pub update_ends :
      (t : Tree) (id : ℕ) (name : Option (List ℕ)) (parent : Option (Option ℕ)) (s : Catalog)
      → IsValid is_space s
      → update is_space t id name parent s ≢ refused Failure.endless
  unfolding update change_node
  update_ends t id name parent s v =
      require_ends (not s.read_only) Failure.not_writable _ (λ e. cc e)
        (elim (Option-cases (in_tree t (row_of id s.nodes))) [
          | inl e ↦ rw e (λ e. cc e)
          | inr (n, there) ↦
              let p = selected parent n.parent in
              rw there (
                require_ends (check_name is_space (selected name n.name)) Failure.bad_name _
                  (λ e. cc e)
                  (after_walk_ends (walk (length s.nodes) t id s.nodes p) _
                    (walk-ended t id s.nodes p v.forest (found-length id t s.nodes n there))
                    (require_ends _ Failure.duplicate_sibling _ (λ e. cc e) (ok_ends _))))
        ])

  -- In a valid and writable catalog, a move of a category below a known parent is refused as a cycle when
  -- the parent is the category itself or one of its descendants, otherwise as a duplicate when another
  -- category there has the name, and otherwise it changes the parent of the category and nothing else.
  pub move_exact :
      (t : Tree) (id : ℕ) (parent : Option ℕ) (s : Catalog) (n : Node)
      → IsValid is_space s
      → s.read_only ≡ false
      → get t id s ≡ ok n
      → is_known t parent s ≡ true
      → move is_space t id parent s ≡ (
          if hits (length s.nodes) t s.nodes id parent
          then refused Failure.cycle
          else if has_sibling (some id) (record n { parent = parent }) s.nodes
          then refused Failure.duplicate_sibling
          else ok (record s { nodes = set_node id n.name parent s.nodes }))
  unfolding update change_node move get
  move_exact t id parent s n v w there known =
      let e : in_tree t (row_of id s.nodes) ≡ some n = ground (arith, there) in
      let r = in_tree-found t id s.nodes n e in
      let i = row_of-In id s.nodes n r.0 in
      let c = known-Ends t parent s v.forest.rooted known in
      let f =
        walk-ends (length s.nodes) t id s.nodes parent
          (ends-bounded (length s.nodes) c.0 t s.nodes parent (omega arith) c.1) in
      let good = v.forest.trimmed n i.0 in rw (w, e, good, f, r.1, sym i.1) (ground arith)
