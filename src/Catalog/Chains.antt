-- ===== src/Catalog/Chains.antt =====
-- Chains of parents, and what the changes of the table do to a row and its parent.
use bagelquant_data.Prelude.{
  ℕ, zero, suc, ◌≡◌, refl, sym, ◌∙◌, ap, Bool, true, false, ◌||◌, inl, inr, Option, none, some,
  List, [], ◌∷◌, ◌==◌, arith, Bool-cases, Option-cases, ==→eq,
}
use bagelquant_data.Catalog.{Tree, Node, row_of, in_tree, parent_in, next}
use bagelquant_data.Catalog.Operations.{set_node, delete_node}

-- Within `k` rows the chain of parents from `q` reaches a root.
abbrev pub ends : ℕ → Tree → List Node → Option ℕ → Bool
ends k t ns none = true
ends zero t ns (some p) = false
ends (suc k) t ns (some p) = elim (next t ns p) [ none ↦ false | some q ↦ ends k t ns q ]

-- Among the first `k` rows of the chain from `q` is `id`.
abbrev pub hits : ℕ → Tree → List Node → ℕ → Option ℕ → Bool
hits k t ns id none = false
hits zero t ns id (some p) = false
hits (suc k) t ns id (some p) =
    (p == id) || elim (next t ns p) [ none ↦ false | some q ↦ hits k t ns id q ]

-- The chain of parents from `q` reaches a root.
abbrev pub Ends : Tree → List Node → Option ℕ → Type 0
Ends t ns q = (k : ℕ) × (ends k t ns q ≡ true)

-- The chain from `q` never meets `id`.
abbrev pub Avoids : Tree → List Node → ℕ → Option ℕ → Type 0
Avoids t ns id q = (j : ℕ) → hits j t ns id q ≡ false

pub row_of-set_node :
    (id p : ℕ) (name : List ℕ) (parent : Option ℕ) (ns : List Node)
    → (p == id) ≡ false
    → row_of p (set_node id name parent ns) ≡ row_of p ns
row_of-set_node id p name parent [] h = refl
row_of-set_node id p name parent (n ∷ ns) h = ground (arith, row_of-set_node id p name parent ns h)

pub next-set_node :
    (t : Tree) (id : ℕ) (name : List ℕ) (parent : Option ℕ) (ns : List Node) (q : Option ℕ)
    → next t ns id ≡ some q
    → next t (set_node id name parent ns) id ≡ some parent
unfolding next
next-set_node t id name parent [] q h = absurd (cc h)
next-set_node t id name parent (n ∷ ns) q h = ground (arith, next-set_node t id name parent ns q)

pub row_of-delete_node :
    (id p : ℕ) (ns : List Node) → (p == id) ≡ false → row_of p (delete_node id ns) ≡ row_of p ns
row_of-delete_node id p [] h = refl
row_of-delete_node id p (n ∷ ns) h = ground (arith, row_of-delete_node id p ns h)

pub row_of-deleted : (id : ℕ) (ns : List Node) → row_of id (delete_node id ns) ≡ none
row_of-deleted id [] = refl
row_of-deleted id (n ∷ ns) = ground (arith, row_of-deleted id ns)

-- A row with a key that the table lacks leaves the other rows as they are.
pub next-fresh :
    (t : Tree) (n : Node) (ns : List Node) (p : ℕ) (q : Option ℕ)
    → row_of n.id ns ≡ none
    → next t ns p ≡ some q
    → next t (n ∷ ns) p ≡ some q
unfolding next
next-fresh t n ns p q fresh h = elim (Bool-cases (n.id == p)) [
  | inl same ↦ absurd (
      cc (
        sym (
          ap (λ x. parent_in (in_tree t x))
            (ap (λ x. row_of x ns) (sym (==→eq n.id p same)) ∙ fresh))
        ∙ h))
  | inr other ↦ rw other h
]

pub ends-suc :
    (k : ℕ) (t : Tree) (ns : List Node) (q : Option ℕ)
    → ends k t ns q ≡ true
    → ends (suc k) t ns q ≡ true
ends-suc k t ns none h = refl
ends-suc zero t ns (some p) h = absurd (cc h)
ends-suc (suc k) t ns (some p) h = elim (Option-cases (next t ns p)) [
  | inl e ↦ absurd (cc (e, h))
  | inr (q, e) ↦ rw (e, ends) (ends-suc k t ns q (rw (e, ends) at h))
]

-- A chain that ends keeps ending in a table whose rows have the same parents.
pub Ends-kept :
    (t : Tree) (ns ms : List Node)
    (keep : (p : ℕ) (q : Option ℕ) → next t ns p ≡ some q → next t ms p ≡ some q) (k : ℕ)
    (q : Option ℕ)
    → ends k t ns q ≡ true
    → ends k t ms q ≡ true
Ends-kept t ns ms keep k none h = refl
Ends-kept t ns ms keep zero (some p) h = absurd (cc h)
Ends-kept t ns ms keep (suc k) (some p) h = elim (Option-cases (next t ns p)) [
  | inl e ↦ absurd (cc (e, h))
  | inr (q, e) ↦ rw (keep p q e, ends) (Ends-kept t ns ms keep k q (rw (e, ends) at h))
]

-- So does one that avoids the row whose parent changes.
pub ends-Avoids :
    (t : Tree) (id : ℕ) (ns ms : List Node)
    (keep : (p : ℕ) → (p == id) ≡ false → next t ms p ≡ next t ns p) (k : ℕ) (q : Option ℕ)
    → Avoids t ns id q
    → ends k t ns q ≡ true
    → ends k t ms q ≡ true
ends-Avoids t id ns ms keep k none avoids h = refl
ends-Avoids t id ns ms keep zero (some p) avoids h = absurd (cc h)
ends-Avoids t id ns ms keep (suc k) (some p) avoids h = elim (Option-cases (next t ns p)) [
  | inl e ↦ absurd (cc (e, h))
  | inr (q, e) ↦ elim (Bool-cases (p == id)) [
    | inl same ↦ absurd (cc (avoids 1, same))
    | inr other ↦
        rw (keep p other ∙ e, ends)
          (ends-Avoids t id ns ms keep k q (λ j. rest p q e other j (avoids (suc j)))
            (rw (e, ends) at h))
  ]
]
  where
    rest :
        (p : ℕ) (q : Option ℕ)
        → next t ns p ≡ some q
        → (p == id) ≡ false
        → (j : ℕ) → hits (suc j) t ns id (some p) ≡ false
        → hits j t ns id q ≡ false
    rest p q e other j a = rw (other, e, hits) at a

pub Ends-next :
    (t : Tree) (ns : List Node) (p : ℕ) (q : Option ℕ)
    → next t ns p ≡ some q
    → Ends t ns q
    → Ends t ns (some p)
Ends-next t ns p q e (k, h) = (suc k, rw (e, ends) h)

pub next-unchanged :
    (t : Tree) (id : ℕ) (name : List ℕ) (parent : Option ℕ) (ns : List Node) (p : ℕ)
    → (p == id) ≡ false
    → next t (set_node id name parent ns) p ≡ next t ns p
unfolding next
next-unchanged t id name parent ns p h =
    ap (λ r. parent_in (in_tree t r)) (row_of-set_node id p name parent ns h)
