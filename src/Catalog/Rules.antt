-- ===== src/Catalog/Rules.antt =====
-- Rules for outcomes, for the walk of `update`, and for the rows of assignments.
use bagelquant_data.Prelude.{
  ℕ, zero, suc, ◌≡◌, refl, sym, ◌∙◌, ap, Bool, true, false, not, ◌⊎◌, inl, inr, Option, none, some,
  List, [], ◌∷◌, ◌==◌, arith, Bool-cases, Option-cases, ==→eq, In, is_some, filter,
}
use bagelquant_data.Catalog.{
  Tree, Node, Assignment, Catalog, Failure, Outcome, ok, refused, require, row_of, in_tree, next,
}
use bagelquant_data.Catalog.Operations.{
  Walk, walk, after_walk, set_node, is_assigned, upsert_assignment,
}
use bagelquant_data.Catalog.Chains.{hits, Ends, Avoids, Ends-next}

abbrev pub OnOk : (Catalog → Type 0) → Outcome Catalog → Type 0
OnOk P (ok s) = P s
OnOk P (refused why) = Unit

pub OnOk-require :
    (P : Catalog → Type 0) (test : Bool) (why : Failure) (rest : Outcome Catalog)
    → (test ≡ true → OnOk P rest)
    → OnOk P (require test why rest)
OnOk-require P true why rest h = h refl
OnOk-require P false why rest h = tt

pub OnOk-after_walk :
    (P : Catalog → Type 0) (w : Walk) (rest : Outcome Catalog)
    → (w ≡ Walk.at_root → OnOk P rest)
    → OnOk P (after_walk w rest)
OnOk-after_walk P Walk.at_root rest h = h refl
OnOk-after_walk P Walk.met_itself rest h = tt
OnOk-after_walk P Walk.lost rest h = tt
OnOk-after_walk P Walk.out_of_fuel rest h = tt

pub not-true : (b : Bool) → not b ≡ true → b ≡ false
not-true b h = ground arith

-- A walk that reaches the root has seen a chain that ends and avoids the category.
pub walk-at_root :
    (f : ℕ) (t : Tree) (id : ℕ) (ns : List Node) (q : Option ℕ)
    → walk f t id ns q ≡ Walk.at_root
    → Ends t ns q × Avoids t ns id q
unfolding walk
walk-at_root f t id ns none h = ((0, refl), λ j. refl)
walk-at_root zero t id ns (some p) h = absurd (cc h)
walk-at_root (suc f) t id ns (some p) h = elim (Bool-cases (p == id)) [
  | inl same ↦ absurd (cc (rw (same, walk) at h))
  | inr other ↦ elim (Option-cases (next t ns p)) [
    | inl e ↦ absurd (cc (rw (other, e, walk) at h))
    | inr (q, e) ↦
        let r = walk-at_root f t id ns q (rw (other, e, walk) at h) in
        (Ends-next t ns p q e r.0, avoids q other e r.1)
  ]
]
  where
    avoids :
        (q : Option ℕ)
        → (p == id) ≡ false
        → next t ns p ≡ some q
        → Avoids t ns id q
        → Avoids t ns id (some p)
    avoids q other e a zero = refl
    avoids q other e a (suc j) = rw (other, e, hits) (a j)

pub assigned-insert :
    (t : Tree) (c : ℕ) (n : Node) (ns : List Node)
    → row_of n.id ns ≡ none
    → is_some (in_tree t (row_of c ns)) ≡ true
    → is_some (in_tree t (row_of c (n ∷ ns))) ≡ true
assigned-insert t c n ns fresh h = elim (Bool-cases (n.id == c)) [
  | inl same ↦ absurd (
      cc (
        ap (λ x. is_some (in_tree t x)) (ap (λ x. row_of x ns) (sym (==→eq n.id c same)) ∙ fresh),
        h,
      ))
  | inr other ↦ rw other h
]

pub assigned-set_node :
    (t : Tree) (c id : ℕ) (name : List ℕ) (parent : Option ℕ) (ns : List Node)
    → is_some (in_tree t (row_of c (set_node id name parent ns)))
      ≡ is_some (in_tree t (row_of c ns))
assigned-set_node t c id name parent [] = refl
assigned-set_node t c id name parent (n ∷ ns) =
    ground (arith, assigned-set_node t c id name parent ns)

pub In-filter :
    (p : Assignment → Bool) (xs : List Assignment) (a : Assignment) → In a (filter p xs) → In a xs
In-filter p [] a h = h
In-filter p (x ∷ xs) a h = elim (Bool-cases (p x)) [
  | inl stays ↦ split (rw stays at h) (In-filter p xs a)
  | inr gone ↦ inr (In-filter p xs a (rw gone at h))
]
  where
    split : (a ≡ x) ⊎ In a (filter p xs) → (In a (filter p xs) → In a xs) → In a (x ∷ xs)
    split (inl e) ih = inl e
    split (inr i) ih = inr (ih i)

pub In-upsert_assignment :
    (b : Assignment) (xs : List Assignment) (a : Assignment)
    → In a (upsert_assignment b xs)
    → (a ≡ b) ⊎ In a xs
In-upsert_assignment b [] a (inl e) = inl e
In-upsert_assignment b [] a (inr i) = absurd i
In-upsert_assignment b (x ∷ xs) a h = elim (Bool-cases (is_assigned b.tree b.object_key x)) [
  | inl same ↦ replaced (rw same at h)
  | inr other ↦ kept_first (rw other at h) (In-upsert_assignment b xs a)
]
  where
    replaced : (a ≡ b) ⊎ In a xs → (a ≡ b) ⊎ In a (x ∷ xs)
    replaced (inl e) = inl e
    replaced (inr i) = inr (inr i)

    later : (a ≡ b) ⊎ In a xs → (a ≡ b) ⊎ In a (x ∷ xs)
    later (inl e) = inl e
    later (inr i) = inr (inr i)

    kept_first :
        (a ≡ x) ⊎ In a (upsert_assignment b xs)
        → (In a (upsert_assignment b xs) → (a ≡ b) ⊎ In a xs)
        → (a ≡ b) ⊎ In a (x ∷ xs)
    kept_first (inl e) ih = inr (inl e)
    kept_first (inr i) ih = later (ih i)
