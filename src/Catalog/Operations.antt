-- ===== src/Catalog/Operations.antt =====
-- The operations of CategoryTree that change the tables: create, update, remove and assign.
use bagelquant_data.Prelude.{
  ℕ, zero, suc, Bool, true, false, not, ◌&&◌, ◌||◌, Option, none, some, List, [], ◌∷◌, ◌==◌,
  if◌then◌else◌, any, filter, length, is_some,
}
use bagelquant_data.Catalog.{
  raw, item, Tree, Node, Assignment, Object, Catalog, Failure, Outcome, ok, refused, require,
  same_tree, same_kind, row_of, in_tree, next, has_sibling, check_name,
}

-- `get`
unfoldable pub get : Tree → ℕ → Catalog → Outcome Node
get t id s = elim (in_tree t (row_of id s.nodes)) [
  | none ↦ refused Failure.unknown_category
  | some n ↦ ok n
]

-- `if parent_id is not None: self.get(parent_id)` does not raise.
abbrev pub is_known : Tree → Option ℕ → Catalog → Bool
is_known t none s = true
is_known t (some p) s = is_some (in_tree t (row_of p s.nodes))

-- `insert into category_nodes`, newest first.
unfoldable pub insert_node : Node → Catalog → Outcome Catalog
insert_node n s =
    require (not (is_some (row_of n.id s.nodes))) Failure.integrity
      (ok (record s { nodes = n ∷ s.nodes }))

-- The outcome of the walk of `update` towards the root.
pub data Walk : Type 0 where
  at_root met_itself lost out_of_fuel : Walk

-- `while parent is not None`
unfoldable pub walk : ℕ → Tree → ℕ → List Node → Option ℕ → Walk
walk f t id ns none = Walk.at_root
walk zero t id ns (some p) = Walk.out_of_fuel
walk (suc f) t id ns (some p) = elim (p == id) [
  | true ↦ Walk.met_itself
  | false ↦ elim (next t ns p) [ none ↦ Walk.lost | some q ↦ walk f t id ns q ]
]

abbrev pub after_walk : Walk → Outcome Catalog → Outcome Catalog
after_walk Walk.at_root rest = rest
after_walk Walk.met_itself rest = refused Failure.cycle
after_walk Walk.lost rest = refused Failure.unknown_parent
after_walk Walk.out_of_fuel rest = refused Failure.endless

-- `update category_nodes set name=?,parent_id=? where id=?`
abbrev pub set_node : ℕ → List ℕ → Option ℕ → List Node → List Node
set_node id name parent [] = []
set_node id name parent (n ∷ ns) =
    (if n.id == id then record n { name = name; parent = parent } else n)
    ∷ set_node id name parent ns

abbrev pub delete_node : ℕ → List Node → List Node
delete_node id [] = []
delete_node id (n ∷ ns) = if n.id == id then delete_node id ns else n ∷ delete_node id ns

abbrev pub selected {ℓ} : {A : Type ℓ} → Option A → A → A
selected none a = a
selected (some a) _ = a

-- A row of the table has this category as its parent.
abbrev pub is_child : ℕ → Node → Bool
is_child id n = elim n.parent [ none ↦ false | some p ↦ p == id ]

-- The row of `catalog_assignments` with this primary key.
abbrev pub is_assigned : Tree → ℕ → Assignment → Bool
is_assigned t key a = same_tree a.tree t && (a.object_key == key)

-- The `exists` query of `assign`.
abbrev pub is_object : Tree → ℕ → Object → Bool
is_object t key o = elim t.kind [
  | raw ↦ same_tree o.tree t && ((o.name == key) && o.is_active)
  | item ↦ same_kind o.tree.kind item && ((o.name == key) && o.is_active)
]

-- `on conflict(kind,source,object_key) do update`
abbrev pub upsert_assignment : Assignment → List Assignment → List Assignment
upsert_assignment a [] = a ∷ []
upsert_assignment a (b ∷ bs) =
    if is_assigned a.tree a.object_key b then a ∷ bs else b ∷ upsert_assignment a bs

abbrev pub assign_row : Tree → ℕ → Option ℕ → List Assignment → List Assignment
assign_row t key none as_ = filter (λ a. not (is_assigned t key a)) as_
assign_row t key (some c) as_ =
    upsert_assignment (record { tree = t; object_key = key; category = c }) as_

-- `assign`
unfoldable pub assign : Tree → ℕ → Option ℕ → Catalog → Outcome Catalog
assign t key category s = require (not s.read_only) Failure.not_writable (
    require (is_known t category s) Failure.unknown_category (
      require (any (is_object t key) s.objects) Failure.unknown_object
        (ok (record s { assignments = assign_row t key category s.assignments }))))

-- `remove`
unfoldable pub remove : Tree → ℕ → Catalog → Outcome Catalog
remove t id s = require (not s.read_only) Failure.not_writable (
    require (is_known t (some id) s) Failure.unknown_category (
      require (not (any (is_child id) s.nodes || any (λ a. a.category == id) s.assignments))
        Failure.nonempty (ok (record s { nodes = delete_node id s.nodes }))))

-- What a caller may ask of a tree.
pub data Request : Type 0 where
  create_in : Tree → (id : ℕ) → (name : List ℕ) → (parent : Option ℕ) → Request
  update_in : Tree → (id : ℕ) → (name : Option (List ℕ)) → (parent : Option (Option ℕ)) → Request
  remove_in : Tree → (id : ℕ) → Request
  assign_in : Tree → (object_key : ℕ) → (category : Option ℕ) → Request

module _ (is_space : ℕ → Bool) where
  -- `_create`
  unfoldable pub create_row : Tree → ℕ → List ℕ → Option ℕ → Catalog → Outcome Catalog
  create_row t id name parent s =
      let n : Node = record { id = id; tree = t; name = name; parent = parent } in
      require (check_name is_space name) Failure.bad_name (
        require (is_known t parent s) Failure.unknown_category
          (require (not (has_sibling none n s.nodes)) Failure.duplicate_sibling (insert_node n s)))

  -- `create` without the row it reads back; `id` is `uuid4().hex`.
  unfoldable pub create : Tree → ℕ → List ℕ → Option ℕ → Catalog → Outcome Catalog
  create t id name parent s = require (not s.read_only) Failure.not_writable (
      require (check_name is_space name) Failure.bad_name
        (require (is_known t parent s) Failure.unknown_category (create_row t id name parent s)))

  -- The transaction of `update` on the selected name and parent.
  unfoldable pub change_node : Tree → ℕ → List ℕ → Option ℕ → Catalog → Outcome Catalog
  change_node t id name parent s = require (check_name is_space name) Failure.bad_name (
      after_walk (walk (length s.nodes) t id s.nodes parent) (
        require
          (not (
            has_sibling (some id) (record { id = id; tree = t; name = name; parent = parent })
              s.nodes))
          Failure.duplicate_sibling (ok (record s { nodes = set_node id name parent s.nodes }))))

  -- `update`, without the row it reads back; no parent is `_UNSET`.
  unfoldable pub update : Tree → ℕ → Option (List ℕ) → Option (Option ℕ) → Catalog → Outcome Catalog
  update t id name parent s =
      require (not s.read_only) Failure.not_writable (elim (in_tree t (row_of id s.nodes)) [
        | none ↦ refused Failure.unknown_category
        | some n ↦ change_node t id (selected name n.name) (selected parent n.parent) s
      ])

  unfoldable pub rename : Tree → ℕ → List ℕ → Catalog → Outcome Catalog
  unfolding update
  rename t id name s = update t id (some name) none s

  unfoldable pub move : Tree → ℕ → Option ℕ → Catalog → Outcome Catalog
  unfolding update
  move t id parent s = update t id none (some parent) s

  unfoldable pub perform : Request → Catalog → Outcome Catalog
  perform (Request.create_in t id name parent) s = create t id name parent s
  perform (Request.update_in t id name parent) s = update t id name parent s
  perform (Request.remove_in t id) s = remove t id s
  perform (Request.assign_in t key category) s = assign t key category s

  -- A transaction that raises leaves the tables as they were.
  abbrev pub kept : Outcome Catalog → Catalog → Catalog
  kept (ok s') s = s'
  kept (refused why) s = s

  unfoldable pub perform_all : List Request → Catalog → Catalog
  perform_all [] s = s
  perform_all (r ∷ rs) s = perform_all rs (kept (perform r s) s)
