-- ===== src/Plan/Ordered.antt =====
-- The order puts every dataset once, after its prerequisites, and fails only at a cycle.
use mathlib.Core.Path.{subst}
use bagelquant_data.Prelude.{
  ℕ, zero, suc, ◌≤◌, ◌≡◌, refl, ◌∙◌, ap, Bool, true, false, not, ◌&&◌, ◌⊎◌, inl, inr, List, [], ◌∷◌,
  ◌==◌, all, contains, length, In, arith, Bool-cases, ==→eq, ==-refl, Grows, unseen, unseen-suc,
  unseen-none,
}
use bagelquant_data.Plan.{sorted_names}
use bagelquant_data.Plan.Ordering.{
  Order, and_then, finished, visit_all, visit, order_names, Planned, names_of, planned_of,
  parents_in, order_planned,
}
use bagelquant_data.Plan.Names.{unseen-length, sorted_names-In, In-sorted_names, parents_for-In}

-- `p` is a prerequisite of `n`, directly or through others.
pub data Needs (parents : ℕ → List ℕ) : ℕ → ℕ → Type 0 where
  direct : {n p : ℕ} → In p (parents n) → Needs parents n p
  further : {n p q : ℕ} → Needs parents n p → In q (parents p) → Needs parents n q

-- Newest first: every dataset stands once, and its prerequisites are older.
abbrev pub IsPlan : (ℕ → List ℕ) → List ℕ → Type 0
IsPlan parents [] = Unit
IsPlan parents (n ∷ ns) =
    ((p : ℕ) → In p (parents n) → contains p ns ≡ true)
    × (contains n ns ≡ false)
    × IsPlan parents ns

module _ (parents : ℕ → List ℕ) (names : List ℕ)
    (closed : (n p : ℕ) → In p (parents n) → In p names) where
  -- What visiting `targets` makes of the order, while `waiting` wait.
  record Visited (waiting targets ordered ns : List ℕ) : Type 0 where
    plan : IsPlan parents ns
    grows : Grows ordered ns
    reached : (p : ℕ) → In p targets → contains p ns ≡ true
    untouched : (x : ℕ) → contains x waiting ≡ true → contains x ns ≡ contains x ordered
    known : (c : ℕ) → contains c ns ≡ true → (contains c ordered ≡ true) ⊎ In c names

  abbrev OnOrder : List ℕ → List ℕ → List ℕ → Order → Type 0
  OnOrder waiting targets ordered (Order.in_order ns) = Visited waiting targets ordered ns
  OnOrder waiting targets ordered Order.cycle = (n : ℕ) × Needs parents n n
  OnOrder waiting targets ordered Order.out_of_fuel = ⊥

  nothing_more :
      (waiting ordered : List ℕ) → IsPlan parents ordered → Visited waiting [] ordered ordered
  nothing_more waiting ordered v = record {
    plan = v;
    grows = λ c h. h;
    reached = λ p i. absurd i;
    untouched = λ x h. refl;
    known = λ c h. inl h;
  }

  -- One target after the other.
  Visited-then :
      (waiting : List ℕ) (p : ℕ) (ps ordered ms ns : List ℕ)
      → Visited waiting (p ∷ []) ordered ms
      → Visited waiting ps ms ns
      → Visited waiting (p ∷ ps) ordered ns
  Visited-then waiting p ps ordered ms ns a b = record {
    plan = b.plan;
    grows = λ c h. b.grows c (a.grows c h);
    reached = reached;
    untouched = λ x h. b.untouched x h ∙ a.untouched x h;
    known = λ c h. known c (b.known c h);
  }
    where
      reached : (q : ℕ) → In q (p ∷ ps) → contains q ns ≡ true
      reached q (inl e) = b.grows q (a.reached q (inl e))
      reached q (inr i) = b.reached q i

      known :
          (c : ℕ) → (contains c ms ≡ true) ⊎ In c names → (contains c ordered ≡ true) ⊎ In c names
      known c (inl h) = a.known c h
      known c (inr i) = inr i

  OnOrder-then :
      (waiting : List ℕ) (p : ℕ) (ps ordered : List ℕ) (o : Order) (rest : List ℕ → Order)
      → OnOrder waiting (p ∷ []) ordered o
      → ((ms : List ℕ) → IsPlan parents ms → OnOrder waiting ps ms (rest ms))
      → OnOrder waiting (p ∷ ps) ordered (and_then o rest)
  OnOrder-then waiting p ps ordered (Order.in_order ms) rest a b = after (rest ms) (b ms a.plan)
    where
      after : (o : Order) → OnOrder waiting ps ms o → OnOrder waiting (p ∷ ps) ordered o
      after (Order.in_order ns) h = Visited-then waiting p ps ordered ms ns a h
      after Order.cycle h = h
      after Order.out_of_fuel h = h
  OnOrder-then waiting p ps ordered Order.cycle rest a b = a
  OnOrder-then waiting p ps ordered Order.out_of_fuel rest a b = a

  visit_all-OnOrder :
      (go : ℕ → List ℕ → Order) (waiting ps : List ℕ)
      (ih : (p : ℕ) (ordered : List ℕ)
        → In p ps
        → IsPlan parents ordered
        → OnOrder waiting (p ∷ []) ordered (go p ordered))
      (ordered : List ℕ)
      → IsPlan parents ordered
      → OnOrder waiting ps ordered (visit_all go ps ordered)
  unfolding visit_all
  visit_all-OnOrder go waiting [] ih ordered v = nothing_more waiting ordered v
  visit_all-OnOrder go waiting (p ∷ ps) ih ordered v =
      OnOrder-then waiting p ps ordered (go p ordered) (visit_all go ps) (ih p ordered (inl refl) v)
        (visit_all-OnOrder go waiting ps (λ q o i. ih q o (inr i)))

  -- The dataset comes after its prerequisites.
  OnOrder-finished :
      (waiting : List ℕ) (name : ℕ) (ordered : List ℕ) (o : Order)
      → In name names
      → contains name waiting ≡ false
      → contains name ordered ≡ false
      → OnOrder (name ∷ waiting) (parents name) ordered o
      → OnOrder waiting (name ∷ []) ordered (finished name o)
  OnOrder-finished waiting name ordered Order.cycle i idle new h = h
  OnOrder-finished waiting name ordered Order.out_of_fuel i idle new h = h
  OnOrder-finished waiting name ordered (Order.in_order ns) i idle new h = record {
    plan = (h.reached, h.untouched name (rw (==-refl name) refl) ∙ new, h.plan);
    grows = λ c k. ground (arith, h.grows c k);
    reached = reached;
    untouched = untouched;
    known = known;
  }
    where
      reached : (p : ℕ) → In p (name ∷ []) → contains p (name ∷ ns) ≡ true
      reached p (inl e) = rw (e, ==-refl name) refl
      reached p (inr k) = absurd k

      untouched : (x : ℕ) → contains x waiting ≡ true → contains x (name ∷ ns) ≡ contains x ordered
      untouched x k = elim (Bool-cases (name == x)) [
        | inl same ↦ absurd (cc (ap (λ y. contains y waiting) (==→eq name x same), k, idle))
        | inr other ↦ rw other (h.untouched x (rw other k))
      ]

      known : (c : ℕ) → contains c (name ∷ ns) ≡ true → (contains c ordered ≡ true) ⊎ In c names
      known c k = elim (Bool-cases (name == c)) [
        | inl same ↦ inr (subst (λ y. In y names) (==→eq name c same) i)
        | inr other ↦ h.known c (rw other at k)
      ]

  visit-OnOrder :
      (f : ℕ) (waiting : List ℕ) (name : ℕ) (ordered : List ℕ)
      → unseen names waiting ≤ f
      → In name names
      → ((x : ℕ) → contains x waiting ≡ true → Needs parents x name)
      → IsPlan parents ordered
      → OnOrder waiting (name ∷ []) ordered (visit parents f waiting name ordered)
  unfolding visit
  visit-OnOrder zero waiting name ordered le i path v = elim (Bool-cases (contains name waiting)) [
    | inl idle ↦ rw (idle, visit) (name, path name idle)
    | inr busy ↦ absurd (cc (unseen-none names waiting name le i, busy))
  ]
  visit-OnOrder (suc f) waiting name ordered le i path v =
      elim (Bool-cases (contains name waiting)) [
        | inl again ↦ rw (again, visit) (name, path name again)
        | inr first ↦ elim (Bool-cases (contains name ordered)) [
          | inl old ↦ rw (first, old, visit) (already old)
          | inr new ↦
              rw (first, new, visit)
                (OnOrder-finished waiting name ordered _ i first new (
                  visit_all-OnOrder (visit parents f (name ∷ waiting)) (name ∷ waiting)
                    (parents name)
                    (λ p o k w.
                      visit-OnOrder f (name ∷ waiting) p o
                        (omega (arith, le, unseen-suc names waiting name i first)) (closed name p k)
                        (needs p k) w)
                    ordered v))
        ]
      ]
    where
      already : contains name ordered ≡ true → Visited waiting (name ∷ []) ordered ordered
      already old = record {
        plan = v;
        grows = λ c h. h;
        reached = λ p k. only p k old;
        untouched = λ x h. refl;
        known = λ c h. inl h;
      }
        where
          only :
              (p : ℕ) → In p (name ∷ []) → contains name ordered ≡ true → contains p ordered ≡ true
          only p (inl e) old = ap (λ y. contains y ordered) e ∙ old
          only p (inr k) old = absurd k

      needs :
          (p : ℕ)
          → In p (parents name)
          → (x : ℕ) → contains x (name ∷ waiting) ≡ true
          → Needs parents x p
      needs p k x h = elim (Bool-cases (name == x)) [
        | inl same ↦
            subst (λ y. Needs parents y p) (==→eq name x same) (Needs.direct {n = name} {p = p} k)
        | inr other ↦ Needs.further {n = x} {p = name} {q = p} (path x (rw other at h)) k
      ]

-- `IsPlan` as a test.
abbrev pub is_plan : (ℕ → List ℕ) → List ℕ → Bool
is_plan parents [] = true
is_plan parents (n ∷ ns) =
    all (λ p. contains p ns) (parents n) && (not (contains n ns) && is_plan parents ns)

all-In : (q : ℕ → Bool) (xs : List ℕ) → ((x : ℕ) → In x xs → q x ≡ true) → all q xs ≡ true
all-In q [] h = refl
all-In q (x ∷ xs) h = rw (h x (inl refl)) (all-In q xs (λ y i. h y (inr i)))

In-contains : (p : ℕ) (ps : List ℕ) → In p ps → contains p ps ≡ true
In-contains p [] i = absurd i
In-contains p (q ∷ qs) (inl e) = rw (e, ==-refl q) refl
In-contains p (q ∷ qs) (inr i) = ground (arith, In-contains p qs i)

is_plan-IsPlan :
    (parents : ℕ → List ℕ) (ns : List ℕ) → IsPlan parents ns → is_plan parents ns ≡ true
is_plan-IsPlan parents [] h = refl
is_plan-IsPlan parents (n ∷ ns) (older, new, rest) =
    rw (all-In (λ p. contains p ns) (parents n) older, new) (is_plan-IsPlan parents ns rest)

-- The answer is right: an order that has every dataset once, each after its prerequisites, and no dataset
-- that was not asked for, or a cycle where a dataset needs itself. The fuel is never exceeded.
abbrev pub IsRight : List Planned → Order → Type 0
IsRight ps (Order.in_order ns) =
    (is_plan (parents_in ps) ns ≡ true)
    × (all (λ p. contains p ns) (names_of ps) ≡ true)
    × (all (λ p. contains p (names_of ps)) ns ≡ true)
IsRight ps Order.cycle = (n : ℕ) × Needs (parents_in ps) n n
IsRight ps Order.out_of_fuel = ⊥

-- The order of a plan has every dataset that is asked for exactly once and no other, each after the
-- prerequisites among them; it is refused as a cycle only where a dataset needs itself, directly or
-- through others; and its search always ends within its fuel.
pub order_planned-IsRight : (ps : List Planned) → IsRight ps (order_planned ps)
unfolding order_planned order_names
order_planned-IsRight ps = right _ (
    visit_all-OnOrder parents names closed (visit parents (length names) []) [] (sorted_names names)
      (λ p o i v.
        visit-OnOrder parents names closed (length names) [] p o
          (omega (arith, unseen-length names)) (In-sorted_names p names i) (λ x h. absurd (cc h)) v)
      [] tt)
  where
    parents : ℕ → List ℕ
    parents = parents_in ps

    names : List ℕ
    names = names_of ps

    closed : (n p : ℕ) → In p (parents n) → In p names
    closed n p h = parents_for-In names (planned_of n ps) p h

    from_known : (c : ℕ) → (contains c [] ≡ true) ⊎ In c names → In c names
    from_known c (inl h) = absurd (cc h)
    from_known c (inr i) = i

    right : (o : Order) → OnOrder parents names closed [] (sorted_names names) [] o → IsRight ps o
    right (Order.in_order ns) h = (
      is_plan-IsPlan parents ns h.plan,
      all-In (λ p. contains p ns) names (λ p i. h.reached p (sorted_names-In p names i)),
      all-In (λ p. contains p names) ns
          (λ p i. In-contains p names (from_known p (h.known p (In-contains p ns i)))),
    )
    right Order.cycle h = h
    right Order.out_of_fuel h = h
