-- ===== src/Inputs/Exact.antt =====
-- The check accepts exactly the receipts that a matching justifies.
use mathlib.Core.Path.{subst}
use bagelquant_data.Prelude.{
  ℕ, zero, suc, ◌+◌, ◌≤◌, ◌<◌, ◌≡◌, refl, sym, ◌∙◌, ap, Bool, true, false, ◌⊎◌, inl, inr, Option,
  none, some, List, [], ◌∷◌, ◌==◌, ltb, arith, Bool-cases, Option-cases, ==→eq, In, length, map,
  is_some, &&-true, eq→==, contains, unseen,
}
use bagelquant_data.Inputs.{DataInput}
use bagelquant_data.Inputs.Matching.{
  numbers, match_index, match_all, input_at, covers_some, covers_at, accepts_input_selections,
}
use bagelquant_data.Inputs.Found.{OnFound}
use bagelquant_data.Inputs.Sound.{Search-cases, match_index-Found, Assigns, Assigns-Found}
use bagelquant_data.Inputs.Closed.{Closed, OnFailed, match_index-Closed}
use bagelquant_data.Inputs.Pigeons.{length-IsDistinct, length-map, contains-map, IsDistinct-map}

-- Each index below `k` is given a number of its own that fits it.
pub record IsAssignment (fits : ℕ → ℕ → Bool) (k : ℕ) (a : ℕ → ℕ) : Type 0 where
  pub fitting : (x : ℕ) → x < k → fits x (a x) ≡ true
  pub injective : (x y : ℕ) → x < k → y < k → a x ≡ a y → x ≡ y

-- The candidate of an index whose assigned number holds it: of `d`, the one that its index is assigned.
abbrev moved_to : (ℕ → Option ℕ) → (ℕ → ℕ) → ℕ → ℕ → ℕ
moved_to m a k d = elim (m d) [ none ↦ a k | some j ↦ a j ]

module _ (fits : ℕ → ℕ → Bool) (all_ : List ℕ) where
  -- No assignment exists where a search fails: the candidates visited are too few.
  no-assignment :
      (m : ℕ → Option ℕ) (k n : ℕ) (a : ℕ → ℕ) (w : List ℕ)
      → Assigns fits k m
      → k < n
      → IsAssignment fits n a
      → ((x : ℕ) → x < n → In (a x) all_)
      → Closed fits all_ m k all_ [] w
      → ⊥
  no-assignment m k n a w s lt asg inside c = omega (
    arith,
    length-IsDistinct (a k ∷ map g w) w (fresh, IsDistinct-map g w g_injective (c.distinct tt))
        within,
    length-map g w,
  )
    where
      g : ℕ → ℕ
      g d = moved_to m a k d

      at_taken : (d j : ℕ) → m d ≡ some j → g d ≡ a j
      at_taken d j h = rw (h, moved_to) refl

      below : (d j : ℕ) → m d ≡ some j → j < n
      below d j h = omega (arith, s.bounded d j h, lt)

      g_injective : (d e : ℕ) → contains d w ≡ true → contains e w ≡ true → g d ≡ g e → d ≡ e
      g_injective d e h k' same =
          let (i, at_d, x) = c.taken d h refl in
          let (j, at_e, y) = c.taken e k' refl in
          let eq =
            asg.injective i j (below d i at_d) (below e j at_e)
              (sym (at_taken d i at_d) ∙ (same ∙ at_taken e j at_e)) in
          s.matching.single d e j (at_d ∙ ap some eq) at_e

      fresh : contains (a k) (map g w) ≡ false
      fresh = elim (Bool-cases (contains (a k) (map g w))) [
        | inl seen ↦
            let (d, h, at_d) = contains-map g (a k) w seen in
            let (j, taken, x) = c.taken d h refl in
            let eq = asg.injective j k (below d j taken) lt (sym (at_taken d j taken) ∙ at_d) in
            absurd (omega (arith, eq, s.bounded d j taken))
        | inr unseen_ ↦ unseen_
      ]

      from_map : (x : ℕ) → contains x (map g w) ≡ true → contains x w ≡ true
      from_map x h =
          let (d, in_w, at_d) = contains-map g x w h in
          let (j, taken, reached) = c.taken d in_w refl in
          let e = sym (at_taken d j taken) ∙ at_d in
          ap (λ y. contains y w) (sym e)
          ∙ reached (a j) (inside j (below d j taken)) (asg.fitting j (below d j taken))

      within : (x : ℕ) → contains x (a k ∷ map g w) ≡ true → contains x w ≡ true
      within x h = elim (Bool-cases (a k == x)) [
        | inl same ↦
            ap (λ y. contains y w) (sym (==→eq (a k) x same))
            ∙ c.reached (a k) (inside k lt) (asg.fitting k lt)
        | inr other ↦ from_map x (ground (arith, h, other))
      ]

numbers-In : (k n x : ℕ) → k ≤ x → x < k + n → In x (numbers k n)
numbers-In k zero x lo hi = absurd (omega (arith, lo, hi))
numbers-In k (suc n) x lo hi = elim (Bool-cases (x == k)) [
  | inl same ↦ inl (==→eq x k same)
  | inr other ↦ inr (numbers-In (suc k) n x (ground (arith, lo, other)) (omega (arith, hi)))
]

unseen-numbers : (k n : ℕ) → unseen (numbers k n) [] ≡ n
unseen-numbers k zero = refl
unseen-numbers k (suc n) = omega (arith, unseen-numbers (suc k) n)

module _ (fits : ℕ → ℕ → Bool) (n : ℕ) where
  match_all-Assigns :
      (r k : ℕ) (m m' : ℕ → Option ℕ)
      → Assigns fits k m
      → match_all fits n (numbers k r) m ≡ some m'
      → Assigns fits (k + r) m'
  unfolding match_all
  match_all-Assigns zero k m m' s h =
      subst (Assigns fits (k + 0)) (cc h) (subst (λ x. Assigns fits x m) (omega arith) s)
  match_all-Assigns (suc r) k m m' s h =
      let found_ = match_index-Found fits n (numbers 0 n) m s.matching k [] (unbound k s) in
      elim (Search-cases (match_index fits n (numbers 0 n) m k [])) [
        | inl (next, e) ↦
            subst (λ x. Assigns fits x m') (omega arith)
              (match_all-Assigns r (suc k) next m'
                (Assigns-Found fits k m next s (subst (OnFound fits m k []) e found_))
                (rw (e, match_all) at h))
        | inr (v, e) ↦ absurd (cc (rw (e, match_all) at h))
      ]
    where
      unbound : (k : ℕ) → Assigns fits k m → (c : ℕ) → m c ≡ some k → contains c [] ≡ true
      unbound k s c at_c = absurd (omega (arith, s.bounded c k at_c))

  match_all-is_some :
      (total r k : ℕ) (a : ℕ → ℕ) (m : ℕ → Option ℕ)
      → k + r ≡ total
      → Assigns fits k m
      → IsAssignment fits total a
      → ((x : ℕ) → x < total → a x < n)
      → is_some (match_all fits n (numbers k r) m) ≡ true
  unfolding match_all
  match_all-is_some total zero k a m e s asg inside = refl
  match_all-is_some total (suc r) k a m e s asg inside =
      elim (Search-cases (match_index fits n (numbers 0 n) m k [])) [
        | inl (next, found_) ↦
            rw (found_, match_all)
              (match_all-is_some total r (suc k) a next (omega (arith, e))
                (Assigns-Found fits k m next s (
                  subst (OnFound fits m k []) found_
                    (match_index-Found fits n (numbers 0 n) m s.matching k [] unbound)))
                asg inside)
        | inr (v, stuck) ↦ absurd (
            no-assignment fits (numbers 0 n) m k total a v s (omega (arith, e)) asg
              (λ x lt. numbers-In 0 n (a x) (omega arith) (omega (arith, inside x lt)))
              (subst (OnFailed fits (numbers 0 n) m k (numbers 0 n) []) stuck (
                match_index-Closed fits (numbers 0 n) m n k []
                  (omega (arith, unseen-numbers 0 n)))))
      ]
    where
      unbound : (c : ℕ) → m c ≡ some k → contains c [] ≡ true
      unbound c at_c = absurd (omega (arith, s.bounded c k at_c))

  nothing-Assigns : Assigns fits 0 (λ c. none)
  nothing-Assigns = record {
    matching = record { fitting = λ c x h. absurd (cc h); single = λ c d x h k. absurd (cc h) };
    complete = λ x lt. absurd (omega (arith, lt));
    bounded = λ c x h. absurd (cc h);
  }

  ltb→lt : (x k : ℕ) → ltb x k ≡ true → x < k
  ltb→lt x k h = ground (arith, h)

  -- The assignment that a complete dictionary stands for.
  assigned_number : (k : ℕ) (m : ℕ → Option ℕ) → Assigns fits k m → ℕ → ℕ
  assigned_number k m s x = elim (Bool-cases (ltb x k)) [
    | inl lt ↦ (s.complete x (ltb→lt x k lt)).0
    | inr ge ↦ 0
  ]

  holds_assigned :
      (k : ℕ) (m : ℕ → Option ℕ) (s : Assigns fits k m) (x : ℕ)
      → x < k
      → m (assigned_number k m s x) ≡ some x
  unfolding assigned_number
  holds_assigned k m s x lt = at_case (Bool-cases (ltb x k))
    where
      at_case :
          (b : (ltb x k ≡ true) ⊎ (ltb x k ≡ false))
          → m (elim b [ inl lt ↦ (s.complete x (ltb→lt x k lt)).0 | inr ge ↦ 0 ]) ≡ some x
      at_case (inl lt') = (s.complete x (ltb→lt x k lt')).1
      at_case (inr ge) = absurd (ground (arith, lt, ge))

  IsAssignment-Assigns :
      (k : ℕ) (m : ℕ → Option ℕ) (s : Assigns fits k m)
      → IsAssignment fits k (assigned_number k m s)
  IsAssignment-Assigns k m s = record {
    fitting = λ x lt. s.matching.fitting (assigned_number k m s x) x (holds_assigned k m s x lt);
    injective = λ x y lt lt' e.
        some_injective x y
          (sym (holds_assigned k m s x lt) ∙ (ap m e ∙ holds_assigned k m s y lt'));
  }
    where
      some_injective : (x y : ℕ) → some x ≡ some y → x ≡ y
      some_injective x y h = cc h

matched-IsAssignment :
    (fits : ℕ → ℕ → Bool) (n k : ℕ)
    → is_some (match_all fits n (numbers 0 k) (λ c. none)) ≡ true
    → (a : ℕ → ℕ) × IsAssignment fits k a
matched-IsAssignment fits n k h = elim (Option-cases (match_all fits n (numbers 0 k) (λ c. none))) [
  | inl e ↦ absurd (cc (rw e at h))
  | inr (m, e) ↦
      let s =
        subst (λ x. Assigns fits x m) (omega arith)
          (match_all-Assigns fits n k 0 (λ c. none) m (nothing-Assigns fits n) e) in
      (assigned_number fits n k m s, IsAssignment-Assigns fits n k m s)
]

input_at-length : (xs : List DataInput) (i : ℕ) → is_some (input_at xs i) ≡ true → i < length xs
input_at-length [] i h = absurd (cc h)
input_at-length (x ∷ xs) zero h = omega arith
input_at-length (x ∷ xs) (suc i) h = omega (arith, input_at-length xs i h)

covers_at-length :
    (narrowed : Bool) (declared actual : List DataInput) (x c : ℕ)
    → covers_at narrowed declared actual x c ≡ true
    → c < length actual
unfolding covers_at
covers_at-length narrowed declared actual x c h =
    input_at-length actual c (covered (input_at declared x) (input_at actual c) h)
  where
    covered : (d e : Option DataInput) → covers_some narrowed d e ≡ true → is_some e ≡ true
    covered none e h = absurd (cc h)
    covered (some d) none h = absurd (cc h)
    covered (some d) (some e) h = refl

-- A receipt that the check accepts has as many captures as the item declares inputs, and there is an
-- assignment of a capture of its own to every declared input, each of which covers its input.
pub accepts_input_selections_sound :
    (narrowed : Bool) (declared actual : List DataInput)
    → accepts_input_selections narrowed declared (some actual) ≡ true
    → (length actual ≡ length declared)
      × (a : ℕ → ℕ) × IsAssignment (covers_at narrowed declared actual) (length declared) a
unfolding accepts_input_selections
accepts_input_selections_sound narrowed declared actual h =
    let fits = covers_at narrowed declared actual in
    let n = length actual in
    let k = length declared in
    let (same, matched) =
      &&-true (n == k) (is_some (match_all fits n (numbers 0 k) (λ c. none))) h in
    let (a, assigned) = matched-IsAssignment fits n k matched in (==→eq n k same, a, assigned)

-- The check accepts every receipt with as many captures as the item declares inputs for which there is an
-- assignment of a capture of its own to every declared input, each of which covers its input: whatever
-- choices the search makes first, it does not miss the assignment, and its fuel suffices.
pub accepts_input_selections_complete :
    (narrowed : Bool) (declared actual : List DataInput) (a : ℕ → ℕ)
    → length actual ≡ length declared
    → IsAssignment (covers_at narrowed declared actual) (length declared) a
    → accepts_input_selections narrowed declared (some actual) ≡ true
unfolding accepts_input_selections
accepts_input_selections_complete narrowed declared actual a e asg =
    let fits = covers_at narrowed declared actual in
    rw (eq→== (length actual) (length declared) e) (
      match_all-is_some fits (length actual) (length declared) (length declared) 0 a (λ c. none)
        (omega arith) (nothing-Assigns fits (length actual)) asg
        (λ x lt. covers_at-length narrowed declared actual x (a x) (asg.fitting x lt)))
