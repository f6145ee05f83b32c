-- ===== src/Inputs/Sound.antt =====
-- A search that succeeds extends the matching.
use bagelquant_data.Prelude.{
  ℕ, zero, suc, ◌≡◌, refl, sym, ◌∙◌, ap, Bool, false, not, ◌||◌, ◌⊎◌, inl, inr, Option, some, List,
  [], ◌∷◌, ◌<◌, ◌==◌, arith, Bool-cases, Option-cases, ==→eq, ==-refl, contains, Grows, unseen,
}
use mathlib.Core.Path.{subst}
use bagelquant_data.Inputs.Matching.{Search, try_candidates, match_index}
use bagelquant_data.Inputs.Found.{IsMatching, Fresh, Found, OnFound, Found-free, Found-moved}

pub Search-cases :
    (r : Search)
    → ((m : ℕ → Option ℕ) × (r ≡ Search.found m)) ⊎ ((v : List ℕ) × (r ≡ Search.failed v))
Search-cases (Search.found m) = inl (m, refl)
Search-cases (Search.failed v) = inr (v, refl)

module _ (fits : ℕ → ℕ → Bool) where
  -- A matching that an index joins.
  IsMatching-Found :
      (m : ℕ → Option ℕ) (i : ℕ) (m' : ℕ → Option ℕ) → Found fits m i [] m' → IsMatching fits m'
  IsMatching-Found m i m' f = record { fitting = f.fitting; single = single }
    where
      single : (c d x : ℕ) → m' c ≡ some x → m' d ≡ some x → c ≡ d
      single c d x h k = elim (Bool-cases (x == i)) [
        | inl same ↦ let e = ap some (==→eq x i same) in f.single_new c d (h ∙ e) (k ∙ e) refl refl
        | inr other ↦ f.single c d x h k other
      ]

  -- A search that starts with more candidates visited.
  OnFound-Grows :
      (m : ℕ → Option ℕ) (i : ℕ) (v w : List ℕ) (r : Search)
      → Grows v w
      → Fresh m i v
      → OnFound fits m i w r
      → OnFound fits m i v r
  OnFound-Grows m i v w (Search.failed v') g fresh h = λ c seen. h c (g c seen)
  OnFound-Grows m i v w (Search.found m') g fresh f = record {
    fitting = f.fitting;
    kept = λ c seen. f.kept c (g c seen);
    placed = let (c, at_c, new) = f.placed in (c, at_c, not_seen c new);
    others = f.others;
    origin = f.origin;
    single = f.single;
    single_new = λ c d h k new new'. f.single_new c d h k (still_new c h new) (still_new d k new');
  }
    where
      not_seen : (c : ℕ) → contains c w ≡ false → contains c v ≡ false
      not_seen c new = elim (Bool-cases (contains c v)) [
        | inl seen ↦ absurd (cc (g c seen, new))
        | inr unseen ↦ unseen
      ]

      still_new : (c : ℕ) → m' c ≡ some i → contains c v ≡ false → contains c w ≡ false
      still_new c h new = elim (Bool-cases (contains c w)) [
        | inl seen ↦ absurd (cc (fresh c (sym (f.kept c seen) ∙ h), new))
        | inr unseen ↦ unseen
      ]

  Fresh-Grows : (m : ℕ → Option ℕ) (i : ℕ) (v w : List ℕ) → Grows v w → Fresh m i v → Fresh m i w
  Fresh-Grows m i v w g fresh c h = g c (fresh c h)

  pub try_candidates-Found :
      (go : ℕ → List ℕ → Search) (m : ℕ → Option ℕ) (i : ℕ)
      (ih : (j : ℕ) (v : List ℕ) → Fresh m j v → OnFound fits m j v (go j v))
      → IsMatching fits m
      → (cs v : List ℕ) → Fresh m i v
      → OnFound fits m i v (try_candidates fits go m i cs v)
  unfolding try_candidates
  try_candidates-Found go m i ih matching [] v fresh = λ c seen. seen
  try_candidates-Found go m i ih matching (c ∷ cs) v fresh =
      elim (Bool-cases (contains c v || not (fits i c))) [
        | inl skipped ↦
            rw (skipped, try_candidates) (try_candidates-Found go m i ih matching cs v fresh)
        | inr tried ↦ elim (Option-cases (m c)) [
          | inl free ↦
              rw (tried, free, try_candidates)
                (Found-free fits m i v c (ground (arith, tried)) (ground (arith, tried)) matching
                  fresh free)
          | inr (j, taken) ↦ elim (Search-cases (go j (c ∷ v))) [
            | inl (m', moved) ↦
                rw (tried, taken, moved, try_candidates)
                  (Found-moved fits m i v c (ground (arith, tried)) (ground (arith, tried)) matching
                    fresh j taken m'
                    (subst (OnFound fits m j (c ∷ v)) moved (ih j (c ∷ v) (fresh_there j taken))))
            | inr (v', stuck) ↦
                rw (tried, taken, stuck, try_candidates)
                  (let g = grown v' (
                      subst (OnFound fits m j (c ∷ v)) stuck
                        (ih j (c ∷ v) (fresh_there j taken))) in
                    OnFound-Grows m i v v' _ g fresh (
                      try_candidates-Found go m i ih matching cs v' (Fresh-Grows m i v v' g fresh)))
          ]
        ]
      ]
    where
      fresh_there : (j : ℕ) → m c ≡ some j → Fresh m j (c ∷ v)
      fresh_there j taken d h =
          ap (λ x. contains x (c ∷ v)) (matching.single d c j h taken) ∙ rw (==-refl c) refl

      grown : (v' : List ℕ) → Grows (c ∷ v) v' → Grows v v'
      grown v' g d seen = g d (ground (arith, seen))

  pub match_index-Found :
      (f : ℕ) (cs : List ℕ) (m : ℕ → Option ℕ) (matching : IsMatching fits m) (i : ℕ) (v : List ℕ)
      → Fresh m i v
      → OnFound fits m i v (match_index fits f cs m i v)
  unfolding match_index
  match_index-Found zero cs m matching i v fresh = λ c seen. seen
  match_index-Found (suc f) cs m matching i v fresh =
      try_candidates-Found (match_index fits f cs m) m i (match_index-Found f cs m matching)
        matching cs v fresh

  -- Every index below `k` has a candidate, and only those.
  pub record Assigns (k : ℕ) (m : ℕ → Option ℕ) : Type 0 where
    pub matching : IsMatching fits m
    pub complete : (x : ℕ) → x < k → (c : ℕ) × (m c ≡ some x)
    pub bounded : (c x : ℕ) → m c ≡ some x → x < k

  pub Assigns-Found :
      (k : ℕ) (m m' : ℕ → Option ℕ) → Assigns k m → Found fits m k [] m' → Assigns (suc k) m'
  Assigns-Found k m m' a f = record {
    matching = IsMatching-Found m k m' f;
    complete = complete;
    bounded = bounded;
  }
    where
      complete : (x : ℕ) → x < suc k → (c : ℕ) × (m' c ≡ some x)
      complete x lt = elim (Bool-cases (x == k)) [
        | inl same ↦ let (c, at_c, new) = f.placed in (c, at_c ∙ ap some (sym (==→eq x k same)))
        | inr other ↦ let (c, at_c) = a.complete x (ground (arith, lt, other)) in f.others c x at_c
      ]

      bounded : (c x : ℕ) → m' c ≡ some x → x < suc k
      bounded c x h = elim (f.origin c x h) [
        | inl same ↦ omega (arith, same)
        | inr (d, at_d) ↦ omega (arith, a.bounded d x at_d)
      ]
