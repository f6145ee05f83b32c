-- ===== src/Catalog.antt =====
-- The category trees of management/catalog.py: the tables category_nodes and catalog_assignments, and the
-- queries on them. An identifier is a number, a name its list of characters; `is_space` is Python's test
-- of a character. A row is found by its primary key.
mod Operations
mod Chains
mod Bound
mod Invariant
mod Changes
mod Relink
mod Rules
mod Kept
mod Moves
mod Tests
use bagelquant_data.Prelude.{
  ℕ, Bool, true, false, not, ◌&&◌, Option, none, some, List, [], ◌∷◌, ◌==◌, if◌then◌else◌, any,
  filter, find?, map,
}

pub data Kind : Type 0 where
  raw item : Kind

-- `CategoryTree`: the tree of a kind and a source.
pub record Tree : Type 0 where
  pub kind : Kind
  pub source : ℕ

-- A row of `category_nodes`.
pub record Node : Type 0 where
  pub id : ℕ
  pub tree : Tree
  pub name : List ℕ
  pub parent : Option ℕ

-- A row of `catalog_assignments`.
pub record Assignment : Type 0 where
  pub tree : Tree
  pub object_key : ℕ
  pub category : ℕ

-- A row of `datasets` or `item_definitions`; an item's source is not read.
pub record Object : Type 0 where
  pub tree : Tree
  pub name : ℕ
  pub is_active : Bool

pub record Catalog : Type 0 where
  pub read_only : Bool
  pub nodes : List Node
  pub assignments : List Assignment
  pub objects : List Object

-- Why an operation raises ConfigurationError; `integrity` is the database's refusal of a taken key, and
-- `endless` stands for a walk that exceeds its fuel.
pub data Failure : Type 0 where
  not_writable bad_name unknown_category unknown_parent cycle duplicate_sibling nonempty
        unknown_object :
      Failure
  integrity endless : Failure

pub data Outcome {ℓ} (A : Type ℓ) : Type ℓ where
  ok : A → Outcome A
  refused : Failure → Outcome A

-- `if not test: raise`
abbrev pub require {ℓ} : {A : Type ℓ} → Bool → Failure → Outcome A → Outcome A
require true why rest = rest
require false why rest = refused why

abbrev pub same_kind : Kind → Kind → Bool
same_kind raw raw = true
same_kind item item = true
same_kind _ _ = false

abbrev pub same_tree : Tree → Tree → Bool
same_tree t u = same_kind t.kind u.kind && (t.source == u.source)

abbrev pub same_name : List ℕ → List ℕ → Bool
same_name [] [] = true
same_name (c ∷ cs) (d ∷ ds) = (c == d) && same_name cs ds
same_name _ _ = false

-- `parent_id is ?`
abbrev pub same_parent : Option ℕ → Option ℕ → Bool
same_parent none none = true
same_parent (some p) (some q) = p == q
same_parent _ _ = false

-- The row whose primary key is `id`.
abbrev pub row_of : ℕ → List Node → Option Node
row_of id [] = none
row_of id (n ∷ ns) = if n.id == id then some n else row_of id ns

-- `where id=? and kind=? and source=?`
abbrev pub in_tree : Tree → Option Node → Option Node
in_tree t none = none
in_tree t (some n) = if same_tree t n.tree then some n else none

abbrev pub parent_in : Option Node → Option (Option ℕ)
parent_in none = none
parent_in (some n) = some n.parent

-- `select parent_id from category_nodes where id=? and kind=? and source=?`
unfoldable pub next : Tree → List Node → ℕ → Option (Option ℕ)
next t ns p = parent_in (in_tree t (row_of p ns))

-- The rows that `_check_sibling` looks for, without its `id<>?`.
abbrev pub is_sibling : Node → Node → Bool
is_sibling n m =
    same_tree n.tree m.tree && (same_name n.name m.name && same_parent n.parent m.parent)

-- `_check_sibling` finds a row that is not `excluded`.
abbrev pub has_sibling : Option ℕ → Node → List Node → Bool
has_sibling none n ns = any (is_sibling n) ns
has_sibling (some excluded) n ns = any (λ m. is_sibling n m && not (m.id == excluded)) ns

module _ (is_space : ℕ → Bool) where
  abbrev pub lstrip : List ℕ → List ℕ
  lstrip [] = []
  lstrip (c ∷ cs) = if is_space c then lstrip cs else c ∷ cs

  abbrev pub push_stripped : ℕ → List ℕ → List ℕ
  push_stripped c [] = if is_space c then [] else c ∷ []
  push_stripped c (d ∷ ds) = c ∷ d ∷ ds

  abbrev pub rstrip : List ℕ → List ℕ
  rstrip [] = []
  rstrip (c ∷ cs) = push_stripped c (rstrip cs)

  -- `_check_name` accepts the name.
  unfoldable pub check_name : List ℕ → Bool
  check_name cs =
      let stripped = rstrip (lstrip cs) in not (same_name stripped []) && same_name cs stripped
