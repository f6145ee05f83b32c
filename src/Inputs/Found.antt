-- ===== src/Inputs/Found.antt =====
-- What a successful search of `match` has done to the dictionary.
use bagelquant_data.Prelude.{
  ℕ, ◌≡◌, refl, sym, ◌∙◌, ap, Bool, true, false, ◌⊎◌, inl, inr, Option, none, some, List, ◌∷◌, ◌==◌,
  arith, Bool-cases, ==→eq, ==-refl, contains, Grows,
}
use bagelquant_data.Inputs.Matching.{put, Search}

-- A dictionary in which every pair fits, and no index has two candidates.
pub record IsMatching (fits : ℕ → ℕ → Bool) (m : ℕ → Option ℕ) : Type 0 where
  pub fitting : (c x : ℕ) → m c ≡ some x → fits x c ≡ true
  pub single : (c d x : ℕ) → m c ≡ some x → m d ≡ some x → c ≡ d

-- The index has no candidate, except one that has been visited.
abbrev pub Fresh : (ℕ → Option ℕ) → ℕ → List ℕ → Type 0
Fresh m i v = (c : ℕ) → m c ≡ some i → contains c v ≡ true

-- What the search for index `i`, with `v` visited, makes of the dictionary `m`.
pub record Found (fits : ℕ → ℕ → Bool) (m : ℕ → Option ℕ) (i : ℕ) (v : List ℕ) (m' : ℕ → Option ℕ)
    : Type 0 where
  pub fitting : (c x : ℕ) → m' c ≡ some x → fits x c ≡ true
  pub kept : (c : ℕ) → contains c v ≡ true → m' c ≡ m c
  pub placed : (c : ℕ) × (m' c ≡ some i) × (contains c v ≡ false)
  pub others : (c x : ℕ) → m c ≡ some x → (d : ℕ) × (m' d ≡ some x)
  pub origin : (c x : ℕ) → m' c ≡ some x → (x ≡ i) ⊎ ((d : ℕ) × (m d ≡ some x))
  pub single : (c d x : ℕ) → m' c ≡ some x → m' d ≡ some x → (x == i) ≡ false → c ≡ d
  pub single_new :
      (c d : ℕ)
      → m' c ≡ some i
      → m' d ≡ some i
      → contains c v ≡ false
      → contains d v ≡ false
      → c ≡ d

abbrev pub OnFound : (ℕ → ℕ → Bool) → (ℕ → Option ℕ) → ℕ → List ℕ → Search → Type 0
OnFound fits m i v (Search.found m') = Found fits m i v m'
OnFound fits m i v (Search.failed v') = Grows v v'

put_same : (c i : ℕ) (m : ℕ → Option ℕ) → put c i m c ≡ some i
put_same c i m = rw (==-refl c) refl

some_injective : (x y : ℕ) → some x ≡ some y → x ≡ y
some_injective x y h = cc h

-- A value of the dictionary after `put` is the new one or an old one.
put_cases :
    (c i : ℕ) (m : ℕ → Option ℕ) (d x : ℕ)
    → put c i m d ≡ some x
    → ((d ≡ c) × (x ≡ i)) ⊎ (((d == c) ≡ false) × (m d ≡ some x))
put_cases c i m d x h = elim (Bool-cases (d == c)) [
  | inl same ↦ inl (==→eq d c same, some_injective x i (sym h ∙ rw same refl))
  | inr other ↦ inr (other, sym (rw other refl) ∙ h)
]

-- What makes a dictionary ready to give candidate `c` to index `i`: every index of `m` has a candidate other
-- than `c`.
record Ready (fits : ℕ → ℕ → Bool) (m : ℕ → Option ℕ) (i : ℕ) (v : List ℕ) (c : ℕ)
    (m' : ℕ → Option ℕ) : Type 0 where
  fitting : (d x : ℕ) → m' d ≡ some x → fits x d ≡ true
  kept : (d : ℕ) → contains d v ≡ true → m' d ≡ m d
  elsewhere : (d x : ℕ) → m d ≡ some x → (e : ℕ) × (m' e ≡ some x) × ((e == c) ≡ false)
  origin : (d x : ℕ) → m' d ≡ some x → (e : ℕ) × (m e ≡ some x)
  single : (d e x : ℕ) → (d == c) ≡ false → (e == c) ≡ false → m' d ≡ some x → m' e ≡ some x → d ≡ e
  fresh : Fresh m' i v

module _ (fits : ℕ → ℕ → Bool) (m : ℕ → Option ℕ) (i : ℕ) (v : List ℕ) (c : ℕ)
    (unseen : contains c v ≡ false) (fit : fits i c ≡ true) where
  apart : (d : ℕ) → contains d v ≡ true → (d == c) ≡ false
  apart d seen = elim (Bool-cases (d == c)) [
    | inl same ↦ absurd (cc (ap (λ x. contains x v) (==→eq d c same), seen, unseen))
    | inr other ↦ other
  ]

  module _ (m' : ℕ → Option ℕ) (ready : Ready fits m i v c m') where
    put_fitting : (d x : ℕ) → put c i m' d ≡ some x → fits x d ≡ true
    put_fitting d x h = elim (put_cases c i m' d x h) [
      | inl here ↦ ap (λ y. fits y d) here.1 ∙ (ap (fits i) here.0 ∙ fit)
      | inr there ↦ ready.fitting d x there.1
    ]

    put_others : (d x : ℕ) → m d ≡ some x → (e : ℕ) × (put c i m' e ≡ some x)
    put_others d x h = let (e, at_e, other) = ready.elsewhere d x h in (e, rw other at_e)

    put_origin : (d x : ℕ) → put c i m' d ≡ some x → (x ≡ i) ⊎ ((e : ℕ) × (m e ≡ some x))
    put_origin d x h = elim (put_cases c i m' d x h) [
      | inl here ↦ inl here.1
      | inr there ↦ inr (ready.origin d x there.1)
    ]

    put_single :
        (d e x : ℕ) → put c i m' d ≡ some x → put c i m' e ≡ some x → (x == i) ≡ false → d ≡ e
    put_single d e x h k new = elim (put_cases c i m' d x h) [
      | inl here ↦ absurd (cc (ap (λ y. y == i) here.1, ==-refl i, new))
      | inr there ↦ elim (put_cases c i m' e x k) [
        | inl here ↦ absurd (cc (ap (λ y. y == i) here.1, ==-refl i, new))
        | inr there' ↦ ready.single d e x there.0 there'.0 there.1 there'.1
      ]
    ]

    -- The only candidate of the new index that had not been visited.
    put_new : (d : ℕ) → put c i m' d ≡ some i → contains d v ≡ false → d ≡ c
    put_new d h new = elim (put_cases c i m' d i h) [
      | inl here ↦ here.0
      | inr there ↦ absurd (cc (ready.fresh d there.1, new))
    ]

    Found-put : Found fits m i v (put c i m')
    Found-put = record {
      fitting = put_fitting;
      kept = λ d seen. rw (apart d seen) (ready.kept d seen);
      placed = (c, put_same c i m', unseen);
      others = put_others;
      origin = put_origin;
      single = put_single;
      single_new = λ d e h k new new'. put_new d h new ∙ sym (put_new e k new');
    }

  module _ (matching : IsMatching fits m) (fresh : Fresh m i v) where
    -- A free candidate is taken.
    pub Found-free : m c ≡ none → Found fits m i v (put c i m)
    Found-free free = Found-put m (record {
      fitting = matching.fitting;
      kept = λ d seen. refl;
      elsewhere = λ d x h. (d, h, not_free d x h);
      origin = λ d x h. (d, h);
      single = λ d e x other other' h k. matching.single d e x h k;
      fresh = fresh;
    })
      where
        not_free : (d x : ℕ) → m d ≡ some x → (d == c) ≡ false
        not_free d x h = elim (Bool-cases (d == c)) [
          | inl same ↦ absurd (cc (ap m (==→eq d c same), free, h))
          | inr other ↦ other
        ]

    module _ (j : ℕ) (taken : m c ≡ some j) (m' : ℕ → Option ℕ)
        (moved : Found fits m j (c ∷ v) m') where
      seen_more : (d : ℕ) → contains d v ≡ true → contains d (c ∷ v) ≡ true
      seen_more d h = ground (arith, h)

      seen_here : contains c (c ∷ v) ≡ true
      seen_here = rw (==-refl c) refl

      -- The index that gives way has another candidate now.
      moved_elsewhere : (d x : ℕ) → m d ≡ some x → (e : ℕ) × (m' e ≡ some x) × ((e == c) ≡ false)
      moved_elsewhere d x h = elim (Bool-cases (x == j)) [
        | inl same ↦
            let (e, at_e, new) = moved.placed in
            (e, at_e ∙ ap some (sym (==→eq x j same)), ground (arith, new))
        | inr other ↦ let (e, at_e) = moved.others d x h in (e, at_e, off e at_e other)
      ]
        where
          off : (e : ℕ) → m' e ≡ some x → (x == j) ≡ false → (e == c) ≡ false
          off e at_e other = elim (Bool-cases (e == c)) [
            | inl same ↦ absurd (
                cc (
                  other,
                  ==-refl j,
                  ap (λ y. y == j)
                      (some_injective x j
                        (sym at_e ∙ (ap m' (==→eq e c same) ∙ (moved.kept c seen_here ∙ taken)))),
                ))
            | inr o ↦ o
          ]

      -- Among the candidates that are new to the search, that index has one.
      moved_new : (d : ℕ) → (d == c) ≡ false → m' d ≡ some j → contains d (c ∷ v) ≡ false
      moved_new d other h = elim (Bool-cases (contains d (c ∷ v))) [
        | inl seen ↦ absurd (
            cc (
              other,
              ==-refl c,
              ap (λ x. x == c) (matching.single d c j (sym (moved.kept d seen) ∙ h) taken),
            ))
        | inr new ↦ new
      ]

      moved_single :
          (d e x : ℕ) → (d == c) ≡ false → (e == c) ≡ false → m' d ≡ some x → m' e ≡ some x → d ≡ e
      moved_single d e x other other' h k = elim (Bool-cases (x == j)) [
        | inl same ↦
            let h' = h ∙ ap some (==→eq x j same) in
            let k' = k ∙ ap some (==→eq x j same) in
            moved.single_new d e h' k' (moved_new d other h') (moved_new e other' k')
        | inr different ↦ moved.single d e x h k different
      ]

      moved_origin : (d x : ℕ) → m' d ≡ some x → (e : ℕ) × (m e ≡ some x)
      moved_origin d x h = elim (moved.origin d x h) [
        | inl same ↦ (c, taken ∙ ap some (sym same))
        | inr there ↦ there
      ]

      i_not_j : (i == j) ≡ false
      i_not_j = elim (Bool-cases (i == j)) [
        | inl same ↦ absurd (cc (fresh c (taken ∙ ap some (sym (==→eq i j same))), unseen))
        | inr other ↦ other
      ]

      moved_fresh : Fresh m' i v
      moved_fresh d h =
          let (e, at_e) = moved_origin d i h in
          let seen = fresh e at_e in
          let same = moved.single d e i h (moved.kept e (seen_more e seen) ∙ at_e) i_not_j in
          ap (λ x. contains x v) same ∙ seen

      -- A candidate is taken from an index that found another one.
      pub Found-moved : Found fits m i v (put c i m')
      Found-moved = Found-put m' (record {
        fitting = moved.fitting;
        kept = λ d seen. moved.kept d (seen_more d seen);
        elsewhere = moved_elsewhere;
        origin = moved_origin;
        single = moved_single;
        fresh = moved_fresh;
      })
